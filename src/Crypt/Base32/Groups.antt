-- ===== src/Crypt/Base32/Groups.antt =====
-- Base 32 read back: the groups and the alphabet of crypt/types/address.go.
use topia.Base.{
  ℕ, zero, suc, ◌<◌, ◌≡◌, refl, ap, ◌∙◌, Bool, true, false, ◌||◌, not, ◌&&◌, some, List, [], ◌∷◌,
  ◌=?◌, get_elem?, length, All, arith, subst, inl, inr, Bool-cases,
}
use topia.Base.Map.{is_some}
use topia.Base.Bytes.{Bytes}
use mathlib.Core.Option
use topia.Crypt.Base32.{
  encode_std, encode_groups, decode_groups, symbol, index_of, symbols, values, encode_to_string,
  decode_string,
}

abbrev pub IsByte : ℕ → Type 0
IsByte b = b < 256

decode-encode_groups : (bs : Bytes) → All IsByte bs → decode_groups (encode_groups bs) ≡ bs
unfolding decode_groups encode_groups
decode-encode_groups [] h = refl
decode-encode_groups (a ∷ []) h = ground arith
decode-encode_groups (a ∷ b ∷ []) h = ground arith
decode-encode_groups (a ∷ b ∷ c ∷ []) h = ground arith
decode-encode_groups (a ∷ b ∷ c ∷ d ∷ []) h = ground arith
decode-encode_groups (a ∷ b ∷ c ∷ d ∷ e ∷ rest) h = ground (arith, decode-encode_groups rest)

encode_groups-small : (bs : Bytes) → All IsByte bs → All (λ n. n < 32) (encode_groups bs)
unfolding encode_groups
encode_groups-small [] h = tt
encode_groups-small (a ∷ []) h = ground arith
encode_groups-small (a ∷ b ∷ []) h = ground arith
encode_groups-small (a ∷ b ∷ c ∷ []) h = ground arith
encode_groups-small (a ∷ b ∷ c ∷ d ∷ []) h = ground arith
encode_groups-small (a ∷ b ∷ c ∷ d ∷ e ∷ rest) h = ground (arith, encode_groups-small rest)

abbrev no_repeats : Bytes → Bool
no_repeats [] = true
no_repeats (d ∷ alphabet) = not (is_some (index_of d alphabet)) && no_repeats alphabet

abbrev is_line_break : ℕ → Bool
is_line_break c = (c =? 10) || (c =? 13)

index_of-get_elem? :
    (alphabet : Bytes) (n c : ℕ)
    → no_repeats alphabet ≡ true
    → get_elem? alphabet n ≡ some c
    → index_of c alphabet ≡ some n
unfolding index_of
index_of-get_elem? [] n c distinct e = ground arith
index_of-get_elem? (d ∷ alphabet) zero c distinct e = ground arith
index_of-get_elem? (d ∷ alphabet) (suc n) c distinct e =
    let behind = index_of-get_elem? alphabet n c (ground arith) e in
    elim (Bool-cases (d =? c)) [
      | inr other ↦ rw (other, behind) refl
      | inl same ↦
          let e' : d ≡ c = ground arith in
          absurd (ground (arith, ap (λ k. index_of k alphabet) e', behind))
    ]

get_elem?-within : (s : Bytes) (n : ℕ) → n < length s → (c : ℕ) × (get_elem? s n ≡ some c)
get_elem?-within [] n h = absurd (omega arith)
get_elem?-within (c ∷ s) zero h = (c, refl)
get_elem?-within (c ∷ s) (suc n) h = get_elem?-within s n (omega arith)

get_elem?-All : (P : ℕ → Type 0) (s : Bytes) (n c : ℕ) → All P s → get_elem? s n ≡ some c → P c
get_elem?-All P [] n c h e = absurd (ground arith)
get_elem?-All P (d ∷ s) zero c h e = subst P (ground arith) h.0
get_elem?-All P (d ∷ s) (suc n) c h e = get_elem?-All P s n c h.1 e

distinct_alphabet : no_repeats encode_std ≡ true
unfolding index_of
distinct_alphabet = refl

no_line_breaks : All (λ c. is_line_break c ≡ false) encode_std
no_line_breaks = ground arith

-- The byte of five bits, read back.
symbol-index :
    (n : ℕ)
    → n < 32
    → (index_of (symbol n) encode_std ≡ some n) × (is_line_break (symbol n) ≡ false)
unfolding symbol
symbol-index n h =
    let (c, found) = get_elem?-within encode_std n h in
    let index = index_of-get_elem? encode_std n c distinct_alphabet found in
    let printable =
      get_elem?-All (λ c. is_line_break c ≡ false) encode_std n c no_line_breaks found in
    rw found (index, printable)

values-symbols : (ns : List ℕ) → All (λ n. n < 32) ns → values (symbols ns) ≡ some ns
unfolding values symbols
values-symbols [] h = refl
values-symbols (n ∷ ns) h =
    let (index, printable) = symbol-index n h.0 in rw (printable, index, values-symbols ns h.1) refl

-- Bytes that were encoded are read back.
pub decode-encode : (bs : Bytes) → All IsByte bs → decode_string (encode_to_string bs) ≡ some bs
unfolding decode_string encode_to_string
decode-encode bs h =
    ap (Option.map decode_groups) (values-symbols (encode_groups bs) (encode_groups-small bs h))
    ∙ ap some (decode-encode_groups bs h)
