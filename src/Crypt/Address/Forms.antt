-- ===== src/Crypt/Address/Forms.antt =====
-- What an address tells of itself, and its Ethereum form (crypt/types/address.go, with the tests of
-- hexadecimal text of common/util.go).
use topia.Base.{
  ℕ, ◌+◌, ◌-◌, ◌*◌, ◌%◌, ◌<◌, ◌≡◌, ap, ◌∙◌, Bool, true, false, ◌&&◌, ◌||◌, [], ◌∷◌, ◌=?◌, ltb, leb,
  if◌then◌else◌, length, drop, All, arith, inl, inr, Bool-cases,
}
use topia.Base.Bytes.{Bytes}
use topia.Crypt.Base32.Groups.{IsByte}
use topia.Crypt.Address.{
  CryptType, unknown_crypt, secp256, NetworkType, unknown_network, mainnet, testnet, Encoded,
  encoded, not_encoded, invalid_eth_length, Decoded, decoded, undefined, not_decoded, panicked,
  encode, decode, undef_address,
}
use topia.Crypt.Address.Codec.{IsDigest, decode-encode_address}

-- A call that may panic, or return an error.
pub data Reply {ℓ} (A : Type ℓ) : Type ℓ where
  gives : A → Reply A
  errs : Reply A
  stops : Reply A

abbrev pub has_0x_prefix : Bytes → Bool
has_0x_prefix [] = false
has_0x_prefix (a ∷ []) = false
has_0x_prefix (a ∷ b ∷ s) = (a =? 48) && ((b =? 120) || (b =? 88))

abbrev pub is_hex_character : ℕ → Bool
is_hex_character c = (leb 48 c && leb c 57) || (leb 97 c && leb c 102) || (leb 65 c && leb c 70)

abbrev pub all_hex : Bytes → Bool
all_hex [] = true
all_hex (c ∷ s) = is_hex_character c && all_hex s

abbrev pub is_even : ℕ → Bool
is_even n = n % 2 =? 0

unfoldable pub is_hex : Bytes → Bool
is_hex s = is_even (length s) && all_hex s

abbrev pub hex_value : ℕ → ℕ
hex_value c = if leb c 57 then c - 48 else if leb 97 c then c - 87 else c - 55

-- hex.DecodeString up to the first pair that is no pair of digits
unfoldable pub decode_hex : Bytes → Bytes
decode_hex [] = []
decode_hex (a ∷ []) = []
decode_hex (a ∷ b ∷ s) =
    let rest = decode_hex s in
    if is_hex_character a && is_hex_character b then (hex_value a * 16 + hex_value b) ∷ rest else []

abbrev pub without_0x : Bytes → Bytes
without_0x a = if has_0x_prefix a then drop 2 a else a

abbrev pub even_digits : Bytes → Bytes
even_digits s = if is_even (length s) then s else 48 ∷ s

-- The bytes that TopiaAddressFromEth takes of a text.
abbrev pub eth_bytes : Bytes → Bytes
eth_bytes a = if has_0x_prefix a then decode_hex (even_digits (drop 2 a)) else a

unfoldable pub is_hexs : Bytes → Bool
is_hexs a = let n = length (without_0x a) in ((n =? 40) || (n =? 48)) && is_hex (without_0x a)

unfoldable pub is_eth : Bytes → Bool
is_eth a = let t = without_0x a in ((length t =? 40) && is_hex t) || (length t =? 20)

both_true : (x y : Bool) → (x && y) ≡ true → (x ≡ true) × (y ≡ true)
both_true x y h = ground arith

hex_value-small : (c : ℕ) → is_hex_character c ≡ true → hex_value c < 16
hex_value-small c h = ground arith

decode_hex-IsByte : (s : Bytes) → All IsByte (decode_hex s)
unfolding decode_hex
decode_hex-IsByte [] = tt
decode_hex-IsByte (a ∷ []) = tt
decode_hex-IsByte (a ∷ b ∷ s) = elim (Bool-cases (is_hex_character a && is_hex_character b)) [
  | inr other ↦ rw other tt
  | inl digits ↦
      let (high, low) = both_true (is_hex_character a) (is_hex_character b) digits in
      rw digits (omega (arith, hex_value-small a high, hex_value-small b low), decode_hex-IsByte s)
]

eth_bytes-IsByte : (a : Bytes) → All IsByte a → All IsByte (eth_bytes a)
eth_bytes-IsByte a h = elim (Bool-cases (has_0x_prefix a)) [
  | inl hex ↦ rw hex (decode_hex-IsByte (even_digits (drop 2 a)))
  | inr raw ↦ rw raw h
]

module _ (checksum : Bytes → Bytes) where
  -- tpcmm.CurrentNetworkType is the argument.
  abbrev pub new_address : NetworkType → CryptType → Bytes → Encoded
  new_address current c payload = encode checksum current c payload

  abbrev pub checked_text : Bytes → Decoded → Reply Bytes
  checked_text s not_decoded = gives undef_address
  checked_text s panicked = stops
  checked_text s _ = gives s

  unfoldable pub new_from_string : Bytes → Reply Bytes
  new_from_string s = checked_text s (decode checksum s)

  abbrev pub read_network : Decoded → Reply NetworkType
  read_network (decoded network c payload) = gives network
  read_network undefined = gives unknown_network
  read_network not_decoded = errs
  read_network panicked = stops

  unfoldable pub network_of : Bytes → Reply NetworkType
  network_of [] = errs
  network_of (c ∷ s) = read_network (decode checksum (c ∷ s))

  abbrev pub read_crypt : Decoded → Reply CryptType
  read_crypt (decoded network c payload) = gives c
  read_crypt undefined = gives unknown_crypt
  read_crypt not_decoded = errs
  read_crypt panicked = stops

  unfoldable pub crypt_of : Bytes → Reply CryptType
  crypt_of [] = errs
  crypt_of (c ∷ s) = read_crypt (decode checksum (c ∷ s))

  abbrev pub read_payload : Decoded → Reply Bytes
  read_payload (decoded network c payload) = gives payload
  read_payload undefined = gives []
  read_payload not_decoded = errs
  read_payload panicked = stops

  unfoldable pub payload_of : Bytes → Reply Bytes
  payload_of [] = errs
  payload_of (c ∷ s) = read_payload (decode checksum (c ∷ s))

  abbrev pub same_network : NetworkType → NetworkType → Bool
  same_network unknown_network unknown_network = true
  same_network mainnet mainnet = true
  same_network testnet testnet = true
  same_network _ _ = false

  abbrev pub valid_read : NetworkType → Decoded → Reply Bool
  valid_read network (decoded n c payload) = gives (same_network n network)
  valid_read network undefined = gives (same_network unknown_network network)
  valid_read network not_decoded = gives false
  valid_read network panicked = stops

  unfoldable pub is_valid : NetworkType → Bytes → Reply Bool
  is_valid network a = valid_read network (decode checksum a)

  unfoldable pub topia_address_from_eth : NetworkType → Bytes → Encoded
  topia_address_from_eth current a =
      if ltb (length a) 20
      then not_encoded invalid_eth_length
      else new_address current secp256 (eth_bytes a)

  abbrev pub eth_read : Decoded → Reply Bytes
  eth_read (decoded network secp256 payload) = gives payload
  eth_read panicked = stops
  eth_read _ = errs

  unfoldable pub eth_address_from_topia : Bytes → Reply Bytes
  eth_address_from_topia a = eth_read (decode checksum a)

  -- An Ethereum address that was turned into an address of this network comes back, if it gave
  -- twenty bytes: as hexadecimal digits it needs the 0x before it, and a text of forty digits
  -- without it makes an address that cannot be read.
  pub eth-topia :
      (current : NetworkType) (a t : Bytes)
      → IsDigest checksum
      → All IsByte a
      → topia_address_from_eth current a ≡ encoded t
      → eth_address_from_topia t
        ≡ (if length (eth_bytes a) =? 20 then gives (eth_bytes a) else errs)
  unfolding topia_address_from_eth eth_address_from_topia
  eth-topia current a t digest bytes e = elim (Bool-cases (ltb (length a) 20)) [
    | inl short ↦ ground arith
    | inr long ↦
        ap eth_read (
          decode-encode_address checksum current secp256 (eth_bytes a) t digest
            (eth_bytes-IsByte a bytes) (ground arith))
        ∙ ground arith
  ]
