-- ===== src/Crypt/Address/Codec.antt =====
-- Addresses that were encoded, read back (crypt/types/address.go), and the texts that the decoder
-- fails on.
use topia.Base.{
  ℕ, ◌-◌, ◌≡◌, ◌≢◌, ◌↔◌, ◌⊎◌, refl, ap, subst, ◌∙◌, true, false, Option, none, some, List, [], ◌∷◌,
  ◌++◌, ◌=?◌, ltb, if◌then◌else◌, length, take, length-append, All, arith,
}
use topia.Base.Bytes.{Bytes, equal_bytes, equal_bytes_iff, drop-length}
use topia.Crypt.Base32.{encode_to_string, decode_string}
use topia.Crypt.Base32.Groups.{IsByte, decode-encode}
use topia.Crypt.Address.{
  CryptType, unknown_crypt, bls12381, secp256, ed25519, crypt_byte, NetworkType, unknown_network,
  mainnet, testnet, network_value, mainnet_prefix, testnet_prefix, checksum_hash_length,
  address_len, encoded, Decoded, decoded, not_decoded, panicked, digit_crypt, is_unknown, encode,
  decode, decode_payload, decode_read,
}

take-length : {A : Type 0} (p s : List A) → take (length p) (p ++ s) ≡ p
take-length [] s = refl
take-length (x ∷ p) s = ap (◌∷◌ x) (take-length p s)

All-append : (P : ℕ → Type 0) (xs ys : Bytes) → All P xs → All P ys → All P (xs ++ ys)
All-append P [] ys h k = k
All-append P (x ∷ xs) ys h k = (h.0, All-append P xs ys h.1 k)

module _ (checksum : Bytes → Bytes) where
  -- What is documented of a digest of four bytes.
  abbrev pub IsDigest : Type 0
  IsDigest = (s : Bytes) → (length (checksum s) ≡ checksum_hash_length) × All IsByte (checksum s)

  -- The decoder's answer by the length of the payload.
  abbrev pub by_length : NetworkType → CryptType → Bytes → Decoded
  by_length network c payload =
      if length payload =? address_len c then decoded network c payload else not_decoded

  decode_payload-appended :
      (network : NetworkType) (c : CryptType) (payload : Bytes)
      → IsDigest
      → decode_payload checksum network c (payload ++ checksum (crypt_byte c ∷ payload))
        ≡ by_length network c payload
  decode_payload-appended network c payload digest =
      let sum = checksum (crypt_byte c ∷ payload) in
      let n : length (payload ++ sum) - checksum_hash_length ≡ length payload =
        omega (arith, length-append payload sum, (digest (crypt_byte c ∷ payload)).0) in
      let enough : ltb (length (payload ++ sum)) checksum_hash_length ≡ false =
        ground (arith, length-append payload sum, digest (crypt_byte c ∷ payload)) in
      let valid : equal_bytes sum sum ≡ true = (equal_bytes_iff sum sum).1 refl in
      rw (enough, n, take-length payload sum, drop-length payload sum, valid) (ground arith)

  decode_read-encoded :
      (network : NetworkType) (c : CryptType) (payload : Bytes)
      → IsDigest
      → All IsByte payload
      → decode_read checksum network c
          (decode_string (encode_to_string (payload ++ checksum (crypt_byte c ∷ payload))))
        ≡ by_length network c payload
  decode_read-encoded network c payload digest bytes =
      ap (decode_read checksum network c)
        (decode-encode _ (All-append IsByte payload _ bytes (digest (crypt_byte c ∷ payload)).1))
      ∙ decode_payload-appended network c payload digest

  carry :
      (network : NetworkType) (c : CryptType) (payload t a : Bytes)
      → encoded t ≡ encoded a
      → decode checksum t ≡ by_length network c payload
      → decode checksum a ≡ by_length network c payload
  carry network c payload t a e =
      subst (λ s. decode checksum s ≡ by_length network c payload) (ground arith)

  -- An address that was encoded of bytes decodes to its network, crypt type and payload, if the
  -- payload has the length of the type; an address of any other length is encoded as well, but
  -- decode refuses it.
  pub decode-encode_address :
      (network : NetworkType) (c : CryptType) (payload a : Bytes)
      → IsDigest
      → All IsByte payload
      → encode checksum network c payload ≡ encoded a
      → decode checksum a ≡ by_length network c payload
  unfolding encode decode digit_crypt network_value equal_bytes
  decode-encode_address network c [] a digest bytes e = ground arith
  decode-encode_address unknown_network c (b ∷ payload) a digest bytes e = ground arith
  decode-encode_address mainnet unknown_crypt (b ∷ payload) a digest bytes e = ground arith
  decode-encode_address testnet unknown_crypt (b ∷ payload) a digest bytes e = ground arith
  decode-encode_address mainnet bls12381 (b ∷ payload) a digest bytes e =
      carry mainnet bls12381 (b ∷ payload) _ a e
        (decode_read-encoded mainnet bls12381 (b ∷ payload) digest bytes)
  decode-encode_address mainnet secp256 (b ∷ payload) a digest bytes e =
      carry mainnet secp256 (b ∷ payload) _ a e
        (decode_read-encoded mainnet secp256 (b ∷ payload) digest bytes)
  decode-encode_address mainnet ed25519 (b ∷ payload) a digest bytes e =
      carry mainnet ed25519 (b ∷ payload) _ a e
        (decode_read-encoded mainnet ed25519 (b ∷ payload) digest bytes)
  decode-encode_address testnet bls12381 (b ∷ payload) a digest bytes e =
      carry testnet bls12381 (b ∷ payload) _ a e
        (decode_read-encoded testnet bls12381 (b ∷ payload) digest bytes)
  decode-encode_address testnet secp256 (b ∷ payload) a digest bytes e =
      carry testnet secp256 (b ∷ payload) _ a e
        (decode_read-encoded testnet secp256 (b ∷ payload) digest bytes)
  decode-encode_address testnet ed25519 (b ∷ payload) a digest bytes e =
      carry testnet ed25519 (b ∷ payload) _ a e
        (decode_read-encoded testnet ed25519 (b ∷ payload) digest bytes)

  decode_read-returns :
      (network : NetworkType) (c : CryptType) (s : Option Bytes)
      → decode_read checksum network c s ≢ panicked
  decode_read-returns network c none e = ground arith
  decode_read-returns network c (some s) e = ground arith

  decode_long : (prefix d : ℕ) (raw : Bytes) → decode checksum (prefix ∷ d ∷ raw) ≢ panicked
  unfolding decode
  decode_long prefix d raw e =
      ground (arith, decode_read-returns (network_value prefix) (digit_crypt d) (decode_string raw))

  -- The decoder panics on the texts of a network's letter alone, and on no other text.
  pub decode_panicked_iff :
      (a : Bytes)
      → (decode checksum a ≡ panicked) ↔ ((a ≡ mainnet_prefix ∷ []) ⊎ (a ≡ testnet_prefix ∷ []))
  unfolding decode equal_bytes
  decode_panicked_iff [] = ground arith
  decode_panicked_iff (c ∷ []) = ground arith
  decode_panicked_iff (c ∷ d ∷ raw) = (λ e. absurd (decode_long c d raw e), λ h. ground arith)

  decode_read-decoded :
      (network n : NetworkType) (c k : CryptType) (s : Option Bytes) (payload : Bytes)
      → decode_read checksum n k s ≡ decoded network c payload
      → (length payload ≡ address_len k) × (network ≡ n) × (c ≡ k)
  decode_read-decoded network n c k none payload e = ground arith
  decode_read-decoded network n c k (some s) payload e = ground arith

  known_type : (k c : CryptType) → is_unknown k ≡ false → c ≡ k → c ≢ unknown_crypt
  known_type k c h e u = ground arith

  -- What decodes to a type and a payload has a known network and type, and the payload the length
  -- of the type.
  pub decode-decoded_lem :
      (a payload : Bytes) (network : NetworkType) (c : CryptType)
      → decode checksum a ≡ decoded network c payload
      → (length payload ≡ address_len c) × (c ≢ unknown_crypt) × (network ≢ unknown_network)
  unfolding decode network_value
  decode-decoded_lem [] payload network c e = ground arith
  decode-decoded_lem (p ∷ []) payload network c e = ground arith
  decode-decoded_lem (p ∷ d ∷ raw) payload network c e =
      let inner : decode_read checksum (network_value p) (digit_crypt d) (decode_string raw)
          ≡ decoded network c payload =
        ground arith in
      let (sized, same, type) =
        decode_read-decoded network (network_value p) c (digit_crypt d) (decode_string raw) payload
          inner in
      (
        ground (arith, ap address_len type),
        known_type (digit_crypt d) c (ground arith) type,
        ground (arith, same),
      )
