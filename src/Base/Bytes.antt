-- ===== src/Base/Bytes.antt =====
-- Go's strings and byte slices as lists of bytes, with what the sources use of `strings` and
-- `strconv`. Case is folded on ASCII letters, and white space is that of ASCII.
use Prim.Native.Nat.{ℕ, zero, suc, ◌+◌, ◌-◌, ◌*◌}
use Prim.Native.Char.{code}
use Prim.Native.String.{String}
use mathlib.Core.Path.{◌≡◌, refl}
use mathlib.Core.Logic.{◌↔◌}
use mathlib.Core.Bool.{Bool, true, false, ◌&&◌, ◌||◌}
use mathlib.Core.Option.{Option, none, some}
use mathlib.Core.List.{List, [], ◌∷◌, ◌++◌, map}
use native.Mathlib.Omega.{arith}
use native.Mathlib.Numerals.{unary_clauses}
use topia.Base.Tests.{leb, ◌=?◌, if◌then◌else◌}
use topia.Base.Lists.{length, drop}
use topia.Base.Eq.{Comparable}

abbrev pub Bytes : Type 0
Bytes = List ℕ

abbrev pub codes : String → Bytes
codes String.[] = []
codes (String.◌∷◌ c s) = code c ∷ codes s

unfoldable pub equal_bytes : Bytes → Bytes → Bool
equal_bytes [] [] = true
equal_bytes [] (y ∷ ys) = false
equal_bytes (x ∷ xs) [] = false
equal_bytes (x ∷ xs) (y ∷ ys) = (x =? y) && equal_bytes xs ys

pub equal_bytes_iff : (xs ys : Bytes) → (equal_bytes xs ys ≡ true) ↔ (xs ≡ ys)
unfolding equal_bytes
equal_bytes_iff [] [] = ground arith
equal_bytes_iff [] (y ∷ ys) = ground arith
equal_bytes_iff (x ∷ xs) [] = ground arith
equal_bytes_iff (x ∷ xs) (y ∷ ys) = ground (arith, equal_bytes_iff xs ys)

instance abbrev pub bytes_eq : Comparable (List ℕ)
bytes_eq = record { equal = equal_bytes; equal_iff = equal_bytes_iff }

-- len(s) >= len(p) && s[:len(p)] == p
unfoldable pub starts_with : Bytes → Bytes → Bool
starts_with [] s = true
starts_with (c ∷ p) [] = false
starts_with (c ∷ p) (d ∷ s) = (c =? d) && starts_with p s

-- strings.Contains(s, part)
unfoldable pub contains : Bytes → Bytes → Bool
contains [] part = starts_with part []
contains (c ∷ s) part = starts_with part (c ∷ s) || contains s part

abbrev pub lower_byte : ℕ → ℕ
lower_byte c = if leb 65 c && leb c 90 then c + 32 else c

-- strings.ToLower
abbrev pub to_lower : Bytes → Bytes
to_lower = map lower_byte

abbrev is_space : ℕ → Bool
is_space c = (leb 9 c && leb c 13) || (c =? 32)

-- len(strings.TrimSpace(s)) == 0
unfoldable pub is_blank : Bytes → Bool
is_blank [] = true
is_blank (c ∷ s) = is_space c && is_blank s

abbrev pub is_digit : ℕ → Bool
is_digit c = leb 48 c && leb c 57

-- The number that decimal digits stand for, after those that were read.
unfoldable pub read_digits : ℕ → Bytes → Option ℕ
read_digits n [] = some n
read_digits n (c ∷ s) =
    let rest = read_digits (10 * n + (c - 48)) s in if is_digit c then rest else none

pub drop-length : (p s : Bytes) → drop (length p) (p ++ s) ≡ s
drop-length [] s = refl
drop-length (c ∷ p) s = drop-length p s

pub starts_with-append : (p s : Bytes) → starts_with p (p ++ s) ≡ true
unfolding starts_with
starts_with-append [] s = refl
starts_with-append (c ∷ p) s = ground (arith, starts_with-append p s)

-- A prefix that is found leaves the rest of the text behind it.
pub starts_with_split : (p s : Bytes) → starts_with p s ≡ true → s ≡ p ++ drop (length p) s
unfolding starts_with
starts_with_split [] s h = refl
starts_with_split (c ∷ p) [] h = ground arith
starts_with_split (c ∷ p) (d ∷ s) h = ground (arith, starts_with_split p s)

pub drop-add : {A : Type 0} (m n : ℕ) (s : List A) → drop n (drop m s) ≡ drop (m + n) s
drop-add zero n s = ground arith
drop-add (suc m) zero [] = ground arith
drop-add (suc m) (suc n) [] = simp unary_clauses refl
drop-add (suc m) n (x ∷ s) = let e : suc m + n ≡ suc (m + n) = omega arith in rw e (drop-add m n s)

pub length-drop : {A : Type 0} (n : ℕ) (s : List A) → length (drop n s) ≡ length s - n
length-drop zero s = omega arith
length-drop (suc n) [] = omega arith
length-drop (suc n) (x ∷ s) = ground (arith, length-drop n s)
