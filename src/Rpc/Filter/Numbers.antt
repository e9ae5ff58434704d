-- ===== src/Rpc/Filter/Numbers.antt =====
-- The numbers in the text of filter conditions, as Go's `strconv` reads them, and the readers of the
-- standard library that stay parameters (api/rpc/filter/filter.go).
use topia.Base.{
  ℕ, zero, suc, ◌-◌, ◌^◌, Bool, true, false, Option, none, some, [], ◌∷◌, ltb, leb, ◌=?◌,
  if◌then◌else◌,
}
use topia.Base.Bytes.{Bytes, read_digits}
use topia.Rpc.Filter.Values.{ℤ, pos, negsuc, Float, Size, b8, b16, b32, b64, word}

abbrev pub bits : Size → ℕ
bits b8 = 8
bits b16 = 16
bits b32 = 32
bits b64 = 64
bits word = 64

abbrev unsigned_digits : Bytes → Option ℕ
unsigned_digits [] = none
unsigned_digits (c ∷ s) = read_digits 0 (c ∷ s)

-- strconv.ParseUint(s, 10, bits)
unfoldable pub parse_uint : Size → Bytes → Option ℕ
parse_uint size s = elim (unsigned_digits s) [
  | none ↦ none
  | some n ↦ if ltb n (2 ^ bits size) then some n else none
]

abbrev of_sign : Bool → ℕ → ℤ
of_sign true zero = pos 0
of_sign true (suc n) = negsuc n
of_sign false n = pos n

abbrev signed_within : Bool → Size → Option ℕ → Option ℤ
signed_within minus size none = none
signed_within minus size (some n) =
    let limit = 2 ^ (bits size - 1) in
    if (if minus then leb n limit else ltb n limit) then some (of_sign minus n) else none

-- strconv.ParseInt(s, 10, bits), with a sign before the digits or none
unfoldable pub parse_int : Size → Bytes → Option ℤ
parse_int size [] = none
parse_int size (c ∷ s) =
    if c =? 45
    then signed_within true size (unsigned_digits s)
    else if c =? 43
    then signed_within false size (unsigned_digits s)
    else signed_within false size (unsigned_digits (c ∷ s))

-- What is read by parts of the standard library that are not modelled: strconv.ParseFloat, and
-- the nanoseconds of time.Parse in the layouts "2006-01-02T15:04:05.000" and "2006-01-02".
pub record Readers : Type 0 where
  pub parse_float : Size → Bytes → Option Float
  pub parse_time_stamp : Bytes → Option ℕ
  pub parse_date : Bytes → Option ℕ
