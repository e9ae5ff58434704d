-- ===== src/Crypt/Address.antt =====
-- Addresses in text form (crypt/types/address.go and types.go). The checksum, a BLAKE2b digest of
-- four bytes by golang.org/x/crypto, is a parameter.
pub mod Codec
pub mod Forms
mod Tests
use topia.Base.{
  ℕ, zero, suc, ◌+◌, ◌-◌, Bool, true, false, ◌&&◌, ◌||◌, not, Option, none, some, List, [], ◌∷◌,
  ◌++◌, ◌=?◌, ltb, leb, if◌then◌else◌, length, take, drop,
}
use topia.Base.Bytes.{Bytes, codes, equal_bytes}
use topia.Crypt.Base32.{encode_to_string, decode_string}

pub data CryptType : Type 0 where
  unknown_crypt : CryptType
  bls12381 : CryptType
  secp256 : CryptType
  ed25519 : CryptType

pub data NetworkType : Type 0 where
  unknown_network : NetworkType
  mainnet : NetworkType
  testnet : NetworkType

abbrev pub crypt_name : CryptType → Bytes
crypt_name bls12381 = codes "BLS12381"
crypt_name secp256 = codes "Secp256"
crypt_name ed25519 = codes "Ed25519"
crypt_name unknown_crypt = codes "Unknown"

unfoldable pub crypt_value : Bytes → CryptType
crypt_value name =
    if equal_bytes name (codes "BLS12381")
    then bls12381
    else if equal_bytes name (codes "Secp256")
    then secp256
    else if equal_bytes name (codes "Ed25519")
    then ed25519
    else unknown_crypt

-- The byte of a crypt type.
abbrev pub crypt_byte : CryptType → ℕ
crypt_byte unknown_crypt = 0
crypt_byte bls12381 = 1
crypt_byte secp256 = 2
crypt_byte ed25519 = 3

abbrev pub mainnet_prefix : ℕ
mainnet_prefix = 109

abbrev pub testnet_prefix : ℕ
testnet_prefix = 116

-- NetworkType.Value
unfoldable pub network_value : ℕ → NetworkType
network_value c =
    if c =? mainnet_prefix
    then mainnet
    else if c =? testnet_prefix
    then testnet
    else unknown_network

abbrev pub checksum_hash_length : ℕ
checksum_hash_length = 4

-- The length of a payload; any for the unknown type.
abbrev pub address_len : CryptType → ℕ
address_len bls12381 = 48
address_len secp256 = 20
address_len ed25519 = 32
address_len unknown_crypt = 0

abbrev pub undef_address : Bytes
undef_address = codes "<empty>"

pub data EncodeError : Type 0 where
  empty_payload : EncodeError
  unknown_network_type : EncodeError
  unknown_crypt_type : EncodeError
  invalid_eth_length : EncodeError

pub data Encoded : Type 0 where
  encoded : Bytes → Encoded
  not_encoded : EncodeError → Encoded

abbrev pub network_prefix : NetworkType → Option ℕ
network_prefix mainnet = some mainnet_prefix
network_prefix testnet = some testnet_prefix
network_prefix unknown_network = none

-- The decimal digit of a crypt type.
abbrev pub crypt_digit : CryptType → ℕ
crypt_digit c = 48 + crypt_byte c

-- `undefined` is the unknown type without an error, `panicked` an index out of range.
pub data Decoded : Type 0 where
  decoded : NetworkType → CryptType → Bytes → Decoded
  undefined : Decoded
  not_decoded : Decoded
  panicked : Decoded

-- The switch on the second byte.
unfoldable pub digit_crypt : ℕ → CryptType
digit_crypt c =
    if c =? 49
    then bls12381
    else if c =? 50
    then secp256
    else if c =? 51
    then ed25519
    else unknown_crypt

abbrev pub is_unknown : CryptType → Bool
is_unknown unknown_crypt = true
is_unknown _ = false

module _ (checksum : Bytes → Bytes) where
  abbrev pub validate_checksum : Bytes → Bytes → Bool
  validate_checksum s expect = equal_bytes (checksum s) expect

  abbrev pub address_text : ℕ → CryptType → Bytes → Bytes
  address_text prefix c payload =
      prefix ∷ crypt_digit c ∷ encode_to_string (payload ++ checksum (crypt_byte c ∷ payload))

  abbrev pub encode_for : Option ℕ → CryptType → Bytes → Encoded
  encode_for none c payload = not_encoded unknown_network_type
  encode_for (some prefix) c payload =
      if is_unknown c
      then not_encoded unknown_crypt_type
      else encoded (address_text prefix c payload)

  unfoldable pub encode : NetworkType → CryptType → Bytes → Encoded
  encode network c [] = not_encoded empty_payload
  encode network c (b ∷ payload) = encode_for (network_prefix network) c (b ∷ payload)

  -- The payload and the checksum behind it.
  abbrev pub decode_payload : NetworkType → CryptType → Bytes → Decoded
  decode_payload network c s =
      let n = length s - checksum_hash_length in
      if ltb (length s) checksum_hash_length
      then not_decoded
      else if not (length (take n s) =? address_len c)
      then not_decoded
      else if validate_checksum (crypt_byte c ∷ take n s) (drop n s)
      then decoded network c (take n s)
      else not_decoded

  abbrev pub decode_read : NetworkType → CryptType → Option Bytes → Decoded
  decode_read network c none = not_decoded
  decode_read network c (some s) = decode_payload network c s

  abbrev pub decode_rest : ℕ → Bytes → Decoded
  decode_rest prefix [] = panicked
  decode_rest prefix (d ∷ raw) =
      if is_unknown (digit_crypt d)
      then not_decoded
      else decode_read (network_value prefix) (digit_crypt d) (decode_string raw)

  unfoldable pub decode : Bytes → Decoded
  decode [] = undefined
  decode (prefix ∷ s) =
      if equal_bytes (prefix ∷ s) undef_address
      then undefined
      else if not (prefix =? mainnet_prefix) && not (prefix =? testnet_prefix)
      then not_decoded
      else decode_rest prefix s
