-- ===== src/Crypt/Base32.antt =====
-- Base 32 without padding, as Go's `encoding/base32` writes and reads it, over the alphabet of
-- crypt/types/address.go. A group of five bytes is eight symbols of five bits.
pub mod Groups
use topia.Base.{
  ℕ, zero, suc, ◌+◌, ◌*◌, ◌/◌, ◌%◌, Bool, true, false, ◌||◌, Option, none, some, List, [], ◌∷◌,
  ◌=?◌, if◌then◌else◌, get_elem?,
}
use topia.Base.Bytes.{Bytes, codes}
use mathlib.Core.Option

abbrev pub encode_std : Bytes
encode_std = codes "topianewrkbcdfghjlmqsuvxyz123456"

-- The bits of the bytes in groups of five.
unfoldable pub encode_groups : Bytes → List ℕ
encode_groups [] = []
encode_groups (a ∷ []) = a / 8 ∷ a % 8 * 4 ∷ []
encode_groups (a ∷ b ∷ []) = a / 8 ∷ (a % 8 * 4 + b / 64) ∷ b / 2 % 32 ∷ b % 2 * 16 ∷ []
encode_groups (a ∷ b ∷ c ∷ []) =
    a / 8 ∷ (a % 8 * 4 + b / 64) ∷ b / 2 % 32 ∷ (b % 2 * 16 + c / 16) ∷ c % 16 * 2 ∷ []
encode_groups (a ∷ b ∷ c ∷ d ∷ []) =
    a / 8
    ∷ (a % 8 * 4 + b / 64)
    ∷ b / 2 % 32
    ∷ (b % 2 * 16 + c / 16)
    ∷ (c % 16 * 2 + d / 128)
    ∷ d / 4 % 32
    ∷ d % 4 * 8
    ∷ []
encode_groups (a ∷ b ∷ c ∷ d ∷ e ∷ rest) =
    a / 8
    ∷ (a % 8 * 4 + b / 64)
    ∷ b / 2 % 32
    ∷ (b % 2 * 16 + c / 16)
    ∷ (c % 16 * 2 + d / 128)
    ∷ d / 4 % 32
    ∷ (d % 4 * 8 + e / 32)
    ∷ e % 32
    ∷ encode_groups rest

-- A last group of one, three or six symbols gives no bytes.
unfoldable pub decode_groups : List ℕ → Bytes
decode_groups (s ∷ t ∷ []) = (s * 8 + t / 4) % 256 ∷ []
decode_groups (s ∷ t ∷ u ∷ v ∷ []) = (s * 8 + t / 4) % 256 ∷ (t * 64 + u * 2 + v / 16) % 256 ∷ []
decode_groups (s ∷ t ∷ u ∷ v ∷ w ∷ []) =
    (s * 8 + t / 4) % 256 ∷ (t * 64 + u * 2 + v / 16) % 256 ∷ (v * 16 + w / 2) % 256 ∷ []
decode_groups (s ∷ t ∷ u ∷ v ∷ w ∷ x ∷ y ∷ []) =
    (s * 8 + t / 4) % 256
    ∷ (t * 64 + u * 2 + v / 16) % 256
    ∷ (v * 16 + w / 2) % 256
    ∷ (w * 128 + x * 4 + y / 8) % 256
    ∷ []
decode_groups (s ∷ t ∷ u ∷ v ∷ w ∷ x ∷ y ∷ z ∷ rest) =
    (s * 8 + t / 4) % 256
    ∷ (t * 64 + u * 2 + v / 16) % 256
    ∷ (v * 16 + w / 2) % 256
    ∷ (w * 128 + x * 4 + y / 8) % 256
    ∷ (y * 32 + z) % 256
    ∷ decode_groups rest
decode_groups _ = []

-- The byte that stands for five bits.
abbrev pub or_byte : Option ℕ → ℕ
or_byte none = 0
or_byte (some c) = c

unfoldable pub symbol : ℕ → ℕ
symbol n = or_byte (get_elem? encode_std n)

-- The index of a byte in an alphabet.
unfoldable pub index_of : ℕ → Bytes → Option ℕ
index_of c [] = none
index_of c (d ∷ alphabet) =
    let further = index_of c alphabet in
    if d =? c then some 0 else elim further [ none ↦ none | some n ↦ some (suc n) ]

unfoldable pub symbols : List ℕ → Bytes
symbols [] = []
symbols (n ∷ ns) = symbol n ∷ symbols ns

-- A byte outside the alphabet is an error; line breaks are passed over.
unfoldable pub values : Bytes → Option (List ℕ)
values [] = some []
values (c ∷ s) =
    let rest = values s in
    if (c =? 10) || (c =? 13) then rest else elim (index_of c encode_std) [
      | none ↦ none
      | some n ↦ elim rest [ none ↦ none | some ns ↦ some (n ∷ ns) ]
    ]

unfoldable pub encode_to_string : Bytes → Bytes
encode_to_string data_bytes = symbols (encode_groups data_bytes)

unfoldable pub decode_string : Bytes → Option Bytes
decode_string s = Option.map decode_groups (values s)
