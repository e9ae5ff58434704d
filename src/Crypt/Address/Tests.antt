-- ===== src/Crypt/Address/Tests.antt =====
-- Runs of the address codec (crypt/types/address.go), with a fixed digest of four bytes.
use topia.Base.{[], ◌∷◌, ◌≡◌, ◌↔◌, ◌⊎◌, refl, arith, length, if◌then◌else◌, ◌=?◌}
use topia.Base.Bytes.{Bytes, codes}
use topia.Crypt.Address.{
  testnet, secp256, mainnet_prefix, testnet_prefix, encoded, panicked, encode, decode, address_text,
}
use topia.Crypt.Address.Codec.{IsDigest, by_length, decode-encode_address, decode_panicked_iff}
use topia.Crypt.Address.Forms.{
  topia_address_from_eth, eth_address_from_topia, eth_bytes, eth-topia, gives, errs,
}

abbrev sum : Bytes → Bytes
sum s = 1 ∷ 2 ∷ 3 ∷ 4 ∷ []

sum-IsDigest : IsDigest sum
sum-IsDigest s = ground arith

abbrev payload : Bytes
payload = codes "abcdefghijklmnopqrst"

abbrev text : Bytes
text = address_text sum testnet_prefix secp256 payload

encodes : encode sum testnet secp256 payload ≡ encoded text
unfolding encode
encodes = refl

decode-encode_address_example : decode sum text ≡ by_length sum testnet secp256 payload
decode-encode_address_example =
    decode-encode_address sum testnet secp256 payload text sum-IsDigest (ground arith) encodes

decode_panicked_iff_example : (decode sum (mainnet_prefix ∷ []) ≡ panicked) ↔ (
    (◌≡◌ {A = Bytes} (mainnet_prefix ∷ []) (mainnet_prefix ∷ []))
    ⊎ (◌≡◌ {A = Bytes} (mainnet_prefix ∷ []) (testnet_prefix ∷ [])))
decode_panicked_iff_example = decode_panicked_iff sum (mainnet_prefix ∷ [])

eth_encodes : topia_address_from_eth sum testnet payload ≡ encoded text
unfolding topia_address_from_eth encode
eth_encodes = refl

eth-topia_example :
    eth_address_from_topia sum text
    ≡ (if length (eth_bytes payload) =? 20 then gives (eth_bytes payload) else errs)
eth-topia_example = eth-topia sum testnet payload text sum-IsDigest (ground arith) eth_encodes
