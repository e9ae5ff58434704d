-- ===== src/Rpc/Filter/Parser/Peeks.antt =====
-- Which token the filter parser (api/rpc/filter/parser.go) reads from a text of known shape, and
-- what it leaves behind it.
use topia.Base.{
  ℕ, ◌+◌, ◌≡◌, refl, sym, ap, ◌∙◌, Bool, true, false, ◌&&◌, ◌||◌, not, none, some, [], ◌∷◌, ◌++◌,
  arith, leb, ◌=?◌, length, drop, All,
}
use topia.Base.Bytes.{Bytes, starts_with, to_lower, drop-add, length-drop}
use topia.Rpc.Filter.Operator.{reserved_signs}
use topia.Rpc.Filter.Parser.{
  Parser, remaining, quote, backslash, space, reserved_at, quoted, peek_quoted_string_with_length,
  to_next_space_or_reserved_sign, peek_to_next_space_or_reserved_sign, peek_with_length,
  leading_spaces, pop,
}

-- The bytes of a word: lower-case letters and digits.
abbrev pub is_word_byte : ℕ → Bool
is_word_byte c = (leb 97 c && leb c 122) || (leb 48 c && leb c 57)

abbrev pub IsWord : Bytes → Type 0
IsWord [] = ¬ Unit {0}
IsWord (c ∷ s) = (is_word_byte c ≡ true) × All (λ d. is_word_byte d ≡ true) s

-- The bytes of a quoted text: neither a quote nor a backslash.
abbrev pub is_plain : ℕ → Bool
is_plain c = not (c =? quote) && not (c =? backslash)

-- A word ends at the end of the text or at a space.
abbrev pub breaks : Bytes → Bool
breaks [] = true
breaks (c ∷ s) = c =? space

reserved_at_word :
    (c : ℕ) (s : Bytes) → is_word_byte c ≡ true → reserved_at reserved_signs (c ∷ s) ≡ none
unfolding reserved_at starts_with
reserved_at_word c s w = ground arith

to_next-word :
    (word rest : Bytes)
    → All (λ c. is_word_byte c ≡ true) word
    → breaks rest ≡ true
    → to_next_space_or_reserved_sign (word ++ rest) ≡ word
unfolding to_next_space_or_reserved_sign
to_next-word [] [] w b = refl
to_next-word [] (c ∷ rest) w b = ground arith
to_next-word (c ∷ word) rest w b =
    ground (arith, reserved_at_word c (word ++ rest) w.0, to_next-word word rest w.1 b)

quoted-plain :
    (before : ℕ) (text rest : Bytes)
    → (before =? backslash) ≡ false
    → All (λ c. is_plain c ≡ true) text
    → quoted before (text ++ (quote ∷ rest)) ≡ some text
unfolding quoted
quoted-plain before [] rest b w = ground arith
quoted-plain before (c ∷ text) rest b w =
    rw (quoted-plain c text rest (ground arith) w.1) (ground arith)

lower-word : (word : Bytes) → All (λ c. is_word_byte c ≡ true) word → to_lower word ≡ word
lower-word [] w = refl
lower-word (c ∷ word) w = ground (arith, lower-word word w.1)

pub to_lower_word : (word : Bytes) → IsWord word → to_lower word ≡ word
to_lower_word [] w = refl
to_lower_word (c ∷ word) w = lower-word (c ∷ word) w

module _ (p : Parser) where
  -- Text is left exactly where the position lies before the end.
  pub more_left :
      (c : ℕ) (s : Bytes) → remaining p ≡ c ∷ s → leb (length p.filter_string) p.i ≡ false
  more_left c s e = ground (arith, length-drop p.i p.filter_string, ap length e)

  pub none_left : remaining p ≡ [] → leb (length p.filter_string) p.i ≡ true
  none_left e = ground (arith, length-drop p.i p.filter_string, ap length e)

  pub word_left :
      (word s : Bytes)
      → IsWord word
      → remaining p ≡ word ++ s
      → leb (length p.filter_string) p.i ≡ false
  word_left [] s w e = absurd (w tt)
  word_left (c ∷ word) s w e = more_left c (word ++ s) e

  pub peek_word :
      (word rest : Bytes)
      → IsWord word
      → breaks rest ≡ true
      → remaining p ≡ word ++ rest
      → peek_with_length p ≡ (word, length word)
  unfolding peek_with_length peek_to_next_space_or_reserved_sign
  peek_word [] rest w b e = absurd (w tt)
  peek_word (c ∷ word) rest w b e =
      let whole = to_next-word (c ∷ word) rest w b in
      rw (more_left c (word ++ rest) e, e, reserved_at_word c (word ++ rest) w.0)
        (ground (arith, whole))

  pub peek_quoted :
      (text rest : Bytes)
      → All (λ c. is_plain c ≡ true) text
      → remaining p ≡ quote ∷ (text ++ (quote ∷ rest))
      → peek_with_length p ≡ (text, length text + 2)
  unfolding peek_with_length reserved_at starts_with peek_quoted_string_with_length
  peek_quoted text rest w e =
      rw (more_left quote _ e, e) (rw (e, quoted-plain quote text rest refl w) refl)

  -- What is left after the token and the spaces that follow it.
  pub remaining-pop :
      (n : ℕ) (token : Bytes) (rest : Bytes)
      → peek_with_length p ≡ (token, n)
      → drop n (remaining p) ≡ rest
      → remaining (pop p) ≡ drop (leading_spaces rest) rest
  remaining-pop n token rest e d =
      let moved : drop (p.i + n) p.filter_string ≡ rest =
        sym (drop-add p.i n p.filter_string) ∙ d in
      rw
        (
          e,
          ← drop-add (p.i + n) (leading_spaces (drop (p.i + n) p.filter_string)) p.filter_string,
          moved,
        )
        refl
