-- ===== src/Crypto/ChainHash.antt =====
-- common/src/crypto.rs: the certificate chain hash against its recurrence.
use juicity_rs.Base.{◌≡◌, refl, List, [], ◌∷◌, ◌++◌, Option, some, Bytes, arith}
use juicity_rs.Crypto.{chain_from, generate_cert_chain_hash}

module _ (sha256 : Bytes → Bytes) where
  chain_from-append :
      (certs more : List Bytes) (chain : Option Bytes)
      → chain_from sha256 chain (certs ++ more)
        ≡ chain_from sha256 (chain_from sha256 chain certs) more
  unfolding chain_from
  chain_from-append [] more chain = refl
  chain_from-append (c ∷ certs) more chain = chain_from-append certs more _

  chain_from-some :
      (certs : List Bytes) (h : Bytes) → (r : Bytes) × (chain_from sha256 (some h) certs ≡ some r)
  unfolding chain_from
  chain_from-some [] h = (h, refl)
  chain_from-some (c ∷ certs) h = chain_from-some certs (sha256 (h ++ sha256 c))

  -- The chain hash of one certificate is its hash, one more certificate hashes the chain's hash
  -- followed by the certificate's, and no certificate gives no bytes.
  pub generate_cert_chain_hash-chain :
      (generate_cert_chain_hash sha256 [] ≡ [])
      × ((c : Bytes) → generate_cert_chain_hash sha256 (c ∷ []) ≡ sha256 c)
      × ((c d : Bytes) (certs : List Bytes)
          → generate_cert_chain_hash sha256 ((c ∷ certs) ++ (d ∷ []))
            ≡ sha256 (generate_cert_chain_hash sha256 (c ∷ certs) ++ sha256 d))
  unfolding generate_cert_chain_hash
  generate_cert_chain_hash-chain = (
    refl,
    λ c. refl,
    λ c d certs.
        let (r, e) = chain_from-some certs (sha256 c) in
        ground (arith, chain_from-append certs (d ∷ []) (some (sha256 c)), e),
  )
