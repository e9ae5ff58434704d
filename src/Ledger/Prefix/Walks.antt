-- ===== src/Ledger/Prefix/Walks.antt =====
-- What the iterators of a prefixed database meet, forward and in reverse.
use topia.Base.{
  ℕ, zero, suc, ◌+◌, ◌<◌, ◌≡◌, refl, sym, ◌∙◌, ap, true, false, none, Option, List, [], ◌∷◌, ◌++◌,
  some, ◌=?◌, ltb, if◌then◌else◌, length, drop, arith, All, Bool-cases, inl, inr,
}
use topia.Ledger.Prefix.{Bytes, bytes_ltb, has_prefix, end_iter, up_to, walk}
use topia.Ledger.Prefix.Ranges.{raise, zeros, end_iter-raise, below_end}

-- Between the prefix and a key that has it, every key has it.
has_prefix-convex :
    (x y p : Bytes)
    → bytes_ltb x p ≡ false
    → has_prefix y p ≡ true
    → bytes_ltb x y ≡ true
    → has_prefix x p ≡ true
unfolding has_prefix bytes_ltb
has_prefix-convex x y [] low h lt = refl
has_prefix-convex [] y (b ∷ p) low h lt = ground arith
has_prefix-convex (a ∷ x) [] (b ∷ p) low h lt = ground (arith, h)
has_prefix-convex (a ∷ x) (c ∷ y) (b ∷ p) low h lt = ground (arith, has_prefix-convex x y p)

module _ {ℓ} {V : Type ℓ} where
  -- The entries under the prefix, without it; the key that is the prefix itself is none of them.
  abbrev pub under_prefix : Bytes → List (Bytes × V) → List (Bytes × V)
  under_prefix prefix [] = []
  under_prefix prefix (e ∷ es) =
      let later = under_prefix prefix es in
      if has_prefix e.0 prefix
      then (if length e.0 =? length prefix then later else (drop (length prefix) e.0, e.1) ∷ later)
      else later

  abbrev pub Ascending : List (Bytes × V) → Type 0
  Ascending [] = Unit
  Ascending (e ∷ es) = All (λ f. bytes_ltb e.0 f.0 ≡ true) es × Ascending es

  none_later :
      (prefix key : Bytes) (es : List (Bytes × V))
      → bytes_ltb key prefix ≡ false
      → has_prefix key prefix ≡ false
      → All (λ f. bytes_ltb key f.0 ≡ true) es
      → under_prefix prefix es ≡ []
  none_later prefix key [] low without above = refl
  none_later prefix key (e ∷ es) low without above =
      let apart : has_prefix e.0 prefix ≡ false =
        ground (arith, has_prefix-convex key e.0 prefix, low, without, above.0) in
      rw apart (none_later prefix key es low without above.1)

  -- Forward, over a source that rises from the prefix on: `Next` meets exactly the entries whose keys have
  -- the prefix and are longer, in their order, each without the prefix.
  pub walk-under_prefix :
      (prefix : Bytes) (es : List (Bytes × V))
      → Ascending es
      → All (λ e. bytes_ltb e.0 prefix ≡ false) es
      → walk prefix es ≡ under_prefix prefix es
  unfolding walk
  walk-under_prefix prefix [] up low = refl
  walk-under_prefix prefix (e ∷ es) up low = elim (Bool-cases (has_prefix e.0 prefix)) [
    | inl within ↦ rw (within, walk-under_prefix prefix es up.1 low.1) refl
    | inr without ↦ rw without (sym (none_later prefix e.0 es low.0 without up.0))
  ]

-- 0xFF, a number of times.
abbrev pub full_bytes : ℕ → Bytes
full_bytes zero = []
full_bytes (suc n) = 255 ∷ full_bytes n

raise-full_bytes : (n : ℕ) → raise (full_bytes n) ≡ none
raise-full_bytes zero = refl
raise-full_bytes (suc n) = rw (raise-full_bytes n) refl

abbrev pub ends_full : Bytes → ℕ → ℕ → Bytes
ends_full p b n = p ++ b ∷ full_bytes (suc n)

raise-stray :
    (p : Bytes) (b n : ℕ)
    → b < 255
    → (bytes_ltb (p ++ (b + 1) ∷ []) (ends_full p b n) ≡ false)
      × (below_end (p ++ (b + 1) ∷ []) (raise (ends_full p b n)) ≡ true)
      × (has_prefix (p ++ (b + 1) ∷ []) (ends_full p b n) ≡ false)
      × ((e : Bytes) × (raise (ends_full p b n) ≡ some e))
unfolding has_prefix bytes_ltb
raise-stray [] b n low =
    let can : ltb b 255 ≡ true = ground arith in
    let none_behind = raise-full_bytes (suc n) in
    (
      ground arith,
      rw (none_behind, can) (ground arith),
      ground arith,
      ((b + 1) ∷ 0 ∷ zeros (full_bytes n), rw (none_behind, can) refl),
    )
raise-stray (c ∷ p) b n low =
    let (a, r, h, (e, up)) = raise-stray p b n low in
    let r' : bytes_ltb (p ++ (b + 1) ∷ []) e ≡ true =
      ap (below_end (p ++ (b + 1) ∷ [])) (sym up) ∙ r in
    (ground (arith, a), rw up (ground (arith, r')), ground (arith, h), (c ∷ e, rw up refl))

end_iter-append :
    (p : Bytes) (b : ℕ) (rest : Bytes) → end_iter (p ++ b ∷ rest) ≡ up_to (raise (p ++ b ∷ rest))
end_iter-append [] b rest = end_iter-raise b rest
end_iter-append (c ∷ p) b rest = end_iter-raise c (p ++ b ∷ rest)

-- A prefix that ends in one or more bytes 0xFF behind a byte that is less: the shorter key with that
-- byte raised and nothing behind it is not under the prefix, but lies in the range up to the end that
-- `endIter` gives, and a walk that meets it first, as one in reverse can, meets nothing, whatever
-- entries under the prefix come after it.
pub walk_reverse_stray {ℓ} :
    {V : Type ℓ} (p : Bytes) (b n : ℕ) (value : V) (rest : List (Bytes × V))
    → b < 255
    → let prefix = ends_full p b n in
      let stray = p ++ (b + 1) ∷ [] in
      (has_prefix stray prefix ≡ false)
      × (bytes_ltb stray prefix ≡ false)
      × ((end : Option Bytes) × (end_iter prefix ≡ up_to end) × (below_end stray end ≡ true))
      × (walk prefix ((stray, value) ∷ rest) ≡ [])
unfolding walk
walk_reverse_stray p b n value rest low =
    let (a, r, h, up) = raise-stray p b n low in
    (h, a, (raise (ends_full p b n), end_iter-append p b (full_bytes (suc n)), r), rw h refl)
