-- ===== src/Rpc/Filter/Typed.antt =====
-- Conditions that were completed (api/rpc/filter/filter.go) hold data of the kind they name, so the
-- type assertions of api/rpc/filter/condition.go succeed on every message.
use topia.Base.{
  ℕ, Bool, true, false, ◌≡◌, refl, ap, ◌≢◌, ◌⊎◌, inl, inr, Option, none, some, List, [], ◌∷◌, arith,
  All, Bool-cases, Option-cases,
}
use topia.Base.Map.{is_some}
use topia.Base.Bytes.{Bytes, contains}
use topia.Rpc.Filter.Operator.{Operator, is_exists, is_legal}
use topia.Rpc.Filter.Values.{
  Size, b8, b16, b32, b64, word, equal_size, Leaf, Fields, no_fields, leaf_field, inner_field, Kind,
  int_kind, uint_kind, float_kind, string_kind, slice_kind, kind_of, equal_kind,
}
use topia.Rpc.Filter.Parser.{int_data, uint_data, float_data, Data, Condition}
use topia.Rpc.Filter.Condition.{
  as_int, as_uint, as_float, as_string, as_bytes, check_leaf, check_field, panics, pass,
}
use topia.Rpc.Filter.Numbers.{Readers, parse_uint}
use topia.Rpc.Filter.Event.{is_valid_field_name}
use topia.Rpc.Filter.Validate.{
  Completed, completes, fails, read_as, not_contains, text_operator, time_or_date, complete_uint64,
  complete_data, complete_known, complete_condition, complete_clause, complete_clauses,
  completed_with, completed_before, invalid_field_name, clause_passes, any_passes, timestamp,
}

abbrev pub fits : Kind → Data → Bool
fits (int_kind s) d = is_some (as_int s d)
fits (uint_kind s) d = is_some (as_uint s d)
fits (float_kind s) d = is_some (as_float s d)
fits string_kind d = is_some (as_string d)
fits slice_kind d = is_some (as_bytes d)
fits _ d = false

-- The data are of the kind, unless the operator asks for none.
abbrev pub IsTyped : Condition → Type 0
IsTyped c = (is_exists c.operator ≡ true) ⊎ (fits c.data_type c.data_value ≡ true)

equal_size_refl : (s : Size) → equal_size s s ≡ true
equal_size_refl b8 = refl
equal_size_refl b16 = refl
equal_size_refl b32 = refl
equal_size_refl b64 = refl
equal_size_refl word = refl

equal_size→eq : (s s' : Size) → equal_size s s' ≡ true → s ≡ s'
equal_size→eq s s' h = ground arith

equal_kind→eq : (k k' : Kind) → equal_kind k k' ≡ true → k ≡ k'
equal_kind→eq (int_kind s) (int_kind s') h = ap int_kind (equal_size→eq s s' h)
equal_kind→eq (uint_kind s) (uint_kind s') h = ap uint_kind (equal_size→eq s s' h)
equal_kind→eq (float_kind s) (float_kind s') h = ap float_kind (equal_size→eq s s' h)
equal_kind→eq k k' h = ground arith

check_leaf-safe :
    (op : Operator) (d : Data) (leaf : Leaf)
    → fits (kind_of leaf) d ≡ true
    → check_leaf op d leaf ≢ panics
unfolding check_leaf
check_leaf-safe op d leaf h e = ground arith

check_field-safe : (c : Condition) (leaf : Leaf) → IsTyped c → check_field c leaf ≢ panics
unfolding check_field
check_field-safe c leaf typed e = ground (
  arith,
  equal_kind→eq (kind_of leaf) c.data_type,
  check_leaf-safe c.operator c.data_value leaf,
  ap (λ k. fits k c.data_value) (equal_kind→eq (kind_of leaf) c.data_type (ground arith)),
)

pass-safe : (c : Condition) (msg : Fields) → IsTyped c → pass c msg ≢ none
unfolding pass
pass-safe c no_fields typed e = ground arith
pass-safe c (inner_field n inner rest) typed e = pass-safe c inner typed e
pass-safe c (leaf_field n leaf rest) typed e =
    ground (arith, pass-safe c rest typed, check_field-safe c leaf typed)

pub clause_passes-safe :
    (cs : List Condition) (msg : Fields) → All IsTyped cs → clause_passes cs msg ≢ none
unfolding clause_passes
clause_passes-safe [] msg typed e = ground arith
clause_passes-safe (c ∷ cs) msg typed e =
    ground (arith, pass-safe c msg typed.0, clause_passes-safe cs msg typed.1)

pub any_passes-safe :
    (clauses : List (List Condition)) (msg : Fields)
    → All (All IsTyped) clauses
    → any_passes clauses msg ≢ none
unfolding any_passes
any_passes-safe [] msg typed e = ground arith
any_passes-safe (c ∷ cs) msg typed e =
    ground (arith, clause_passes-safe c msg typed.0, any_passes-safe cs msg typed.1)

-- What a completion gives, if it does not fail.
abbrev pub Within {ℓ κ} : {A : Type ℓ} → (A → Type κ) → Completed A → Type κ
Within P (fails e) = Unit
Within P (completes a) = P a

read_as-fits :
    {A : Type 0} (k : Kind) (make : A → Data) (ok : Bool) (got : Option A)
    → ((a : A) → fits k (make a) ≡ true)
    → Within (λ d. fits k d ≡ true) (read_as make ok got)
read_as-fits k make ok none each = tt
read_as-fits k make true (some a) each = each a
read_as-fits k make false (some a) each = tt

-- A list of completions, each before those behind it.
Within-before {ℓ κ} :
    {A : Type ℓ} (P : A → Type κ) (first : Completed A) (rest : Completed (List A))
    → Within P first
    → Within (All P) rest
    → Within (All P) (elim first [ fails e ↦ fails e | completes a ↦ completed_before a rest ])
Within-before P (fails e) rest h hs = tt
Within-before P (completes a) (fails e) h hs = tt
Within-before P (completes a) (completes others) h hs = (h, hs)

time_or_date-fits :
    (op : Operator) (time date : Option ℕ)
    → Within (λ d. fits (uint_kind b64) d ≡ true) (time_or_date op time date)
time_or_date-fits op (some n) date = refl
time_or_date-fits op none none = tt
time_or_date-fits op none (some day) = refl

module _ (registry : List (Bytes × Fields)) (readers : Readers) where
  complete_uint64-fits :
      (op : Operator) (field text : Bytes)
      → Within (λ d. fits (uint_kind b64) d ≡ true) (complete_uint64 registry readers op field text)
  complete_uint64-fits op field text = elim (Bool-cases (not_contains op)) [
    | inr no_order ↦ rw no_order tt
    | inl ordered ↦ elim (Bool-cases (contains field timestamp)) [
      | inl time ↦
          rw (ordered, time)
            (time_or_date-fits op (readers.parse_time_stamp text) (readers.parse_date text))
      | inr number ↦
          rw (ordered, number)
            (read_as-fits (uint_kind b64) (uint_data b64) true (parse_uint b64 text) (λ n. refl))
    ]
  ]

  complete_data-fits :
      (op : Operator) (field text : Bytes) (k : Kind)
      → Within (λ d. fits k d ≡ true) (complete_data registry readers op field text k)
  unfolding complete_data
  complete_data-fits op field text (int_kind s) =
      read_as-fits (int_kind s) (int_data s) _ _ (λ z. rw (equal_size_refl s) refl)
  complete_data-fits op field text (uint_kind b64) = complete_uint64-fits op field text
  complete_data-fits op field text (uint_kind s) =
      read_as-fits (uint_kind s) (uint_data s) _ _ (λ n. rw (equal_size_refl s) refl)
  complete_data-fits op field text (float_kind s) =
      read_as-fits (float_kind s) (float_data s) _ _ (λ n. rw (equal_size_refl s) refl)
  complete_data-fits op field text string_kind = elim (Bool-cases (text_operator op)) [
    | inl ok ↦ rw ok refl
    | inr bad ↦ rw bad tt
  ]
  complete_data-fits op field text slice_kind = elim (Bool-cases (text_operator op)) [
    | inl ok ↦ rw ok refl
    | inr bad ↦ rw bad tt
  ]
  complete_data-fits op field text _ = tt

  completed_with-IsTyped :
      (c : Condition) (k : Kind) (d : Completed Data)
      → Within (λ d. fits k d ≡ true) d
      → Within IsTyped (completed_with c k d)
  completed_with-IsTyped c k (fails e) h = tt
  completed_with-IsTyped c k (completes d) h = inr h

  complete_known-IsTyped :
      (c : Condition) (k : Kind) → Within IsTyped (complete_known registry readers c k)
  complete_known-IsTyped c k = elim (Bool-cases (is_legal c.operator)) [
    | inr bad ↦ rw bad tt
    | inl legal ↦ elim (Bool-cases (is_exists c.operator)) [
      | inl asks ↦ rw (legal, asks) (inl asks)
      | inr other ↦ elim (Option-cases (as_string c.data_value)) [
        | inl empty ↦ rw (legal, other, empty) tt
        | inr (text, full) ↦
            rw (legal, other, full)
              (completed_with-IsTyped c k _ (complete_data-fits c.operator c.field text k))
      ]
    ]
  ]

  found-IsTyped :
      (c : Condition) (found : Option Kind)
      → Within IsTyped (elim found [
        | none ↦ fails invalid_field_name
        | some kind ↦ complete_known registry readers c kind
      ])
  found-IsTyped c none = tt
  found-IsTyped c (some k) = complete_known-IsTyped c k

  pub complete_clause-IsTyped :
      (event : Bytes) (cs : List Condition)
      → Within (All IsTyped) (complete_clause registry readers event cs)
  unfolding complete_clause complete_condition
  complete_clause-IsTyped event [] = tt
  complete_clause-IsTyped event (c ∷ cs) =
      Within-before IsTyped _ _ (found-IsTyped c (is_valid_field_name registry event c.field))
        (complete_clause-IsTyped event cs)

  pub complete_clauses-IsTyped :
      (event : Bytes) (clauses : List (List Condition))
      → Within (All (All IsTyped)) (complete_clauses registry readers event clauses)
  unfolding complete_clauses
  complete_clauses-IsTyped event [] = tt
  complete_clauses-IsTyped event (clause ∷ clauses) =
      Within-before (All IsTyped) _ _ (complete_clause-IsTyped event clause)
        (complete_clauses-IsTyped event clauses)
