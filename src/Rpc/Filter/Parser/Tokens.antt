-- ===== src/Rpc/Filter/Parser/Tokens.antt =====
-- What a peek of the filter parser (api/rpc/filter/parser.go) may return: a token lies within the
-- text that is left, and only the empty token has no length.
use topia.Base.{
  ℕ, suc, ◌+◌, ◌≤◌, ◌<◌, ◌≡◌, refl, ap, ◌≢◌, inl, inr, some, List, [], ◌∷◌, arith, length, drop,
  length-append, Bool-cases, Option-cases,
}
use topia.Base.Bytes.{Bytes, starts_with, starts_with_split, length-drop}
use topia.Rpc.Filter.Operator.{reserved_signs}
use topia.Rpc.Filter.Parser.{
  Parser, remaining, reserved_at, quoted, peek_quoted_string_with_length,
  to_next_space_or_reserved_sign, peek_to_next_space_or_reserved_sign, peek_with_length, peek,
  leading_spaces, pop,
}

-- A token of the text `s`.
abbrev pub Fits : Bytes → Bytes × ℕ → Type 0
Fits s token = (token.1 ≤ length s) × (token.1 ≡ 0 → token.0 ≡ [])

reserved_at-Fits :
    (words : List Bytes) (s word : Bytes)
    → reserved_at words s ≡ some word
    → Fits s (word, length word)
unfolding reserved_at
reserved_at-Fits [] s word e = ground arith
reserved_at-Fits (w ∷ words) s word e = elim (Bool-cases (starts_with w s)) [
  | inl hit ↦
      let split = ap length (starts_with_split w s hit) in
      ground (arith, split, length-append w (drop (length w) s))
  | inr miss ↦ reserved_at-Fits words s word (ground arith)
]

quoted-length :
    (before : ℕ) (s text : Bytes) → quoted before s ≡ some text → suc (length text) ≤ length s
unfolding quoted
quoted-length before [] text e = ground arith
quoted-length before (c ∷ s) text e = elim (Option-cases (quoted c s)) [
  | inl miss ↦ ground arith
  | inr (inner, hit) ↦ ground (arith, quoted-length c s inner hit)
]

peek_quoted-Fits : (s : Bytes) → Fits s (peek_quoted_string_with_length s)
unfolding peek_quoted_string_with_length
peek_quoted-Fits [] = ground arith
peek_quoted-Fits (c ∷ s) = elim (Option-cases (quoted c s)) [
  | inl miss ↦ ground arith
  | inr (text, hit) ↦ ground (arith, quoted-length c s text hit)
]

to_next-length : (s : Bytes) → length (to_next_space_or_reserved_sign s) ≤ length s
unfolding to_next_space_or_reserved_sign
to_next-length [] = omega arith
to_next-length (c ∷ s) = ground (arith, to_next-length s)

length-zero : (s : Bytes) → length s ≡ 0 → s ≡ []
length-zero [] e = refl
length-zero (c ∷ s) e = absurd (omega arith)

pub peek-Fits : (p : Parser) → Fits (remaining p) (peek_with_length p)
unfolding peek_with_length peek_to_next_space_or_reserved_sign
peek-Fits p = elim (Option-cases (reserved_at reserved_signs (remaining p))) [
  | inl miss ↦ ground (
    arith,
    peek_quoted-Fits (remaining p),
    to_next-length (remaining p),
    length-zero (to_next_space_or_reserved_sign (remaining p)),
  )
  | inr (word, hit) ↦ ground (arith, reserved_at-Fits reserved_signs (remaining p) word hit)
]

leading_spaces-length : (s : Bytes) → leading_spaces s ≤ length s
unfolding leading_spaces
leading_spaces-length [] = omega arith
leading_spaces-length (c ∷ s) = ground (arith, leading_spaces-length s)

pub leading_spaces-bound :
    (p : Parser)
    → p.i ≤ length p.filter_string
    → p.i + leading_spaces (remaining p) ≤ length p.filter_string
leading_spaces-bound p h =
    omega (arith, leading_spaces-length (remaining p), length-drop p.i p.filter_string)

-- `pop` moves past the token it peeks at, and stays within the text.
pub pop-bound :
    (p : Parser)
    → p.i ≤ length p.filter_string
    → (p.i + (peek_with_length p).1 ≤ (pop p).i) × ((pop p).i ≤ length p.filter_string)
pop-bound p h =
    let moved : Parser = record {
      step = p.step;
      i = p.i + (peek_with_length p).1;
      filter_string = p.filter_string;
    } in
    omega (arith, (peek-Fits p).0, length-drop p.i p.filter_string, leading_spaces-bound moved)

-- A peek that is not empty is followed by progress.
pub pop-moves : (p : Parser) → p.i ≤ length p.filter_string → peek p ≢ [] → p.i < (pop p).i
pop-moves p h word = ground (arith, pop-bound p h, (peek-Fits p).1)
