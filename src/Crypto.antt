-- ===== src/Crypto.antt =====
-- common/src/crypto.rs: the certificate chain hash and the underlay packet cipher, over the hash,
-- the key derivation and the AEAD of other crates.
pub mod ChainHash
pub mod Packets
pub mod Agreement
use mathlib.Core.Option
use juicity_rs.Base.{
  ℕ, ◌+◌, ◌-◌, ◌≡◌, List, [], ◌∷◌, ◌++◌, Option, none, some, Bool, true, false, Bytes, Result, ok,
  err, ◌>>=◌, ok_or, ensure, length, take, drop, leb, ltb, if◌then◌else◌, ◌==◌,
}

abbrev pub salt_len : ℕ
salt_len = 32

abbrev pub key_len : ℕ
key_len = 32

abbrev pub tag_len : ℕ
tag_len = 16

-- The loop of `generate_cert_chain_hash`.
unfoldable pub chain_from : (Bytes → Bytes) → Option Bytes → List Bytes → Option Bytes
chain_from sha256 chain [] = chain
chain_from sha256 chain (cert ∷ certs) =
    chain_from sha256
      (some (elim chain [ none ↦ sha256 cert | some prev ↦ sha256 (prev ++ sha256 cert) ])) certs

unfoldable pub generate_cert_chain_hash : (Bytes → Bytes) → List Bytes → Bytes
unfolding chain_from
generate_cert_chain_hash sha256 raw_certs = elim (chain_from sha256 none raw_certs) [
  | none ↦ []
  | some h ↦ h
]

pub data CryptoError : Type 0 where
  packet_too_short slice_out_of_range decrypt_failed encrypt_failed hkdf_failed : CryptoError
  invalid_psk : ℕ → CryptoError

-- ChaCha20-Poly1305 at the all-zero nonce with no associated data, detached and attached, and
-- HKDF-SHA1 at the info string `juicity-reused-info` (salt first).
pub record Aead : Type 0 where
  pub encrypt_detached : Bytes → Bytes → Option (Bytes × Bytes)
  pub decrypt_detached : Bytes → Bytes → Bytes → Option Bytes
  pub encrypt : Bytes → Bytes → Option Bytes
  pub decrypt : Bytes → Bytes → Option Bytes
  pub hkdf_sha1 : Bytes → Bytes → Option Bytes

-- Documented: the ciphertext is as long as the plaintext and the tag has 16 bytes, decryption
-- undoes encryption, and the attached form puts the tag behind the ciphertext.
pub record AeadLaws (aead : Aead) : Type 0 where
  pub sizes :
      (key plain cipher tag : Bytes)
      → aead.encrypt_detached key plain ≡ some (cipher, tag)
      → (length cipher ≡ length plain) × (length tag ≡ tag_len)
  pub decrypt_encrypt :
      (key plain cipher tag : Bytes)
      → aead.encrypt_detached key plain ≡ some (cipher, tag)
      → aead.decrypt_detached key cipher tag ≡ some plain
  pub encrypt_postfix :
      (key plain : Bytes)
      → aead.encrypt key plain
        ≡ Option.map (λ (cipher, tag). cipher ++ tag) (aead.encrypt_detached key plain)
  pub decrypt_postfix :
      (key cipher tag : Bytes)
      → length tag ≡ tag_len
      → aead.decrypt key (cipher ++ tag) ≡ aead.decrypt_detached key cipher tag

module _ (aead : Aead) where
  -- `UnderlayCipher::decrypt_in_place` of the cipher with this subkey: salt, then plaintext.
  unfoldable pub decrypt_in_place : Bytes → Bytes → Result CryptoError Bytes
  decrypt_in_place subkey packet =
      if leb (length packet) (salt_len + tag_len)
      then err packet_too_short
      else (let ct_end = length packet - tag_len in
          elim (aead.decrypt_detached subkey (drop salt_len (take ct_end packet))
            (drop ct_end packet)) [
              | some plain ↦ ok (take salt_len packet ++ plain)
              | none ↦ err decrypt_failed
            ])

  -- `UnderlayCipher::encrypt_in_place`: the buffer has room for the salt in front.
  unfoldable pub encrypt_in_place : Bytes → Bytes → Bytes → Result CryptoError Bytes
  encrypt_in_place subkey buffer salt =
      if ltb (length buffer) salt_len
      then err slice_out_of_range
      else (elim (aead.encrypt_detached subkey (drop salt_len buffer)) [
        | some (cipher, tag) ↦ ok (salt ++ (cipher ++ tag))
        | none ↦ err encrypt_failed
      ])

  unfoldable pub derive_subkey : Bytes → Bytes → Result CryptoError Bytes
  derive_subkey psk salt = ensure (length psk == key_len) (invalid_psk (length psk)) >>= λ _.
      ok_or (aead.hkdf_sha1 salt psk) hkdf_failed

  unfoldable pub decrypt_udp : Bytes → Bytes → Result CryptoError Bytes
  unfolding derive_subkey
  decrypt_udp psk packet =
      ensure (leb (salt_len + tag_len) (length packet)) packet_too_short >>= λ _.
      derive_subkey psk (take salt_len packet) >>= λ subkey.
      ok_or (aead.decrypt subkey (drop salt_len packet)) decrypt_failed

  unfoldable pub encrypt_udp : Bytes → Bytes → Bytes → Result CryptoError Bytes
  unfolding derive_subkey
  encrypt_udp psk plaintext salt = derive_subkey psk salt >>= λ subkey.
      ok_or (aead.encrypt subkey plaintext) encrypt_failed >>= λ sealed. ok (salt ++ sealed)

-- `generate_underlay_salt`: two zero bytes, then 30 random ones.
unfoldable pub generate_underlay_salt : Bytes → Bytes
generate_underlay_salt random = 0 ∷ (0 ∷ random)
