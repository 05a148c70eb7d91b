-- ===== src/Crypto/Agreement.antt =====
-- common/src/crypto.rs: the functions that allocate against the ones that work in place.
use juicity_rs.Base.{
  ◌+◌, ◌≡◌, ◌++◌, some, true, false, Bytes, ok, >>=-eq-ok, arith, length, length-append,
  take-append, drop-append, leb, ltb, Option-cases, inl, inr,
}
use juicity_rs.Crypto.{
  Aead, AeadLaws, salt_len, tag_len, encrypt_in_place, derive_subkey, encrypt_udp, decrypt_udp,
}

module _ (aead : Aead) (laws : AeadLaws aead) (psk subkey salt : Bytes) where
  -- With the subkey that `derive_subkey` gives, `encrypt_udp` and `encrypt_in_place` on a buffer
  -- that reserves 32 bytes agree, failures included.
  pub encrypt_udp-encrypt_in_place :
      (reserved plain : Bytes)
      → length reserved ≡ salt_len
      → derive_subkey aead psk salt ≡ ok subkey
      → encrypt_udp aead psk plain salt ≡ encrypt_in_place aead subkey (reserved ++ plain) salt
  unfolding encrypt_udp encrypt_in_place
  encrypt_udp-encrypt_in_place reserved plain hr hk =
      let long : ltb (length (reserved ++ plain)) salt_len ≡ false =
        ground (arith, length-append reserved plain) in
      elim (Option-cases (aead.encrypt_detached subkey plain)) [
        | inl e ↦ rw (
          hk,
          long,
          drop-append salt_len reserved plain hr,
          e,
          laws.encrypt_postfix subkey plain,
          e,
        )
        | inr (ct, e) ↦ rw (
          hk,
          long,
          drop-append salt_len reserved plain hr,
          e,
          laws.encrypt_postfix subkey plain,
          e,
        )
      ]

module _ (aead : Aead) (laws : AeadLaws aead) (psk salt : Bytes) (hs : length salt ≡ salt_len) where
  decrypt_udp-sealed :
      (subkey plain cipher tag : Bytes)
      → derive_subkey aead psk salt ≡ ok subkey
      → aead.encrypt_detached subkey plain ≡ some (cipher, tag)
      → decrypt_udp aead psk (salt ++ (cipher ++ tag)) ≡ ok plain
  unfolding decrypt_udp
  decrypt_udp-sealed subkey plain cipher tag hk e =
      let sizes = laws.sizes subkey plain cipher tag e in
      let long : leb (salt_len + tag_len) (length (salt ++ (cipher ++ tag))) ≡ true =
        ground (arith, length-append salt (cipher ++ tag), length-append cipher tag, sizes) in
      rw (
        long,
        take-append salt_len salt (cipher ++ tag) hs,
        drop-append salt_len salt (cipher ++ tag) hs,
        hk,
        laws.decrypt_postfix subkey cipher tag sizes.1,
        laws.decrypt_encrypt subkey plain cipher tag e,
      )

  -- With a 32-byte salt, what `encrypt_udp` seals `decrypt_udp` opens, the empty datagram included.
  pub decrypt_udp-encrypt_udp :
      (plain packet : Bytes)
      → encrypt_udp aead psk plain salt ≡ ok packet
      → decrypt_udp aead psk packet ≡ ok plain
  unfolding encrypt_udp
  decrypt_udp-encrypt_udp plain packet h =
      let (subkey, hk, h') = >>=-eq-ok (derive_subkey aead psk salt) _ h in
      elim (Option-cases (aead.encrypt_detached subkey plain)) [
        | inl e ↦ absurd (ground (arith, laws.encrypt_postfix subkey plain))
        | inr ((cipher, tag), e) ↦
            let whole : salt ++ (cipher ++ tag) ≡ packet =
              ground (arith, laws.encrypt_postfix subkey plain) in
            cc (whole, decrypt_udp-sealed subkey plain cipher tag hk e)
      ]
