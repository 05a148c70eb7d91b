-- ===== src/Crypto/Packets.antt =====
-- common/src/crypto.rs: what `encrypt_in_place` seals, `decrypt_in_place` opens.
use juicity_rs.Base.{
  sym, ◌∙◌, ◌+◌, ◌-◌, ◌≡◌, ap, ◌++◌, some, true, false, Bytes, ok, err, arith, length,
  length-append, take, drop, take-append, drop-append, append_assoc, leb, ltb, if◌then◌else◌,
  is_empty, nonempty→pos, is_empty→nil, Bool-cases, inl, inr, Option-cases,
}
use juicity_rs.Crypto.{
  Aead, AeadLaws, packet_too_short, salt_len, tag_len, encrypt_in_place, decrypt_in_place,
}

module _ (aead : Aead) (laws : AeadLaws aead) (subkey salt plain cipher tag : Bytes) where
  abbrev sealed_packet : Bytes
  sealed_packet = salt ++ (cipher ++ tag)

  module _ (hs : length salt ≡ salt_len)
      (sealed : aead.encrypt_detached subkey plain ≡ some (cipher, tag)) where
    cipher_size : (length cipher ≡ length plain) × (length tag ≡ tag_len)
    cipher_size = laws.sizes subkey plain cipher tag sealed

    length-sealed_packet : length sealed_packet ≡ 48 + length plain
    length-sealed_packet =
        omega (arith, length-append salt (cipher ++ tag), length-append cipher tag, cipher_size)

    pub encrypt_in_place-sealed :
        (reserved : Bytes)
        → length reserved ≡ salt_len
        → encrypt_in_place aead subkey (reserved ++ plain) salt ≡ ok sealed_packet
    unfolding encrypt_in_place
    encrypt_in_place-sealed reserved hr =
        let long : ltb (length (reserved ++ plain)) salt_len ≡ false =
          ground (arith, length-append reserved plain) in
        rw (long, drop-append salt_len reserved plain hr, sealed)

    ct_end : length (salt ++ cipher) ≡ length sealed_packet - tag_len
    ct_end = omega (arith, length-sealed_packet, length-append salt cipher, cipher_size)

    take-ct_end : take (length sealed_packet - tag_len) sealed_packet ≡ salt ++ cipher
    take-ct_end =
        ap (take (length sealed_packet - tag_len)) (sym (append_assoc salt cipher tag))
        ∙ take-append (length sealed_packet - tag_len) (salt ++ cipher) tag ct_end

    drop-ct_end : drop (length sealed_packet - tag_len) sealed_packet ≡ tag
    drop-ct_end =
        ap (drop (length sealed_packet - tag_len)) (sym (append_assoc salt cipher tag))
        ∙ drop-append (length sealed_packet - tag_len) (salt ++ cipher) tag ct_end

    pub decrypt_in_place-sealed :
        decrypt_in_place aead subkey sealed_packet
        ≡ (if is_empty plain then err packet_too_short else ok (salt ++ plain))
    unfolding decrypt_in_place
    decrypt_in_place-sealed = elim (Bool-cases (is_empty plain)) [
      | inl empty ↦
          let short : leb (length sealed_packet) (salt_len + tag_len) ≡ true = ground (
            arith,
            length-sealed_packet,
            is_empty→nil plain empty,
            ap length (is_empty→nil plain empty),
          ) in
          rw (empty, short)
      | inr he ↦
          let long : leb (length sealed_packet) (salt_len + tag_len) ≡ false =
            ground (arith, length-sealed_packet, nonempty→pos plain he) in
          rw (
            he,
            long,
            take-ct_end,
            drop-ct_end,
            drop-append salt_len salt cipher hs,
            laws.decrypt_encrypt subkey plain cipher tag sealed,
            take-append salt_len salt (cipher ++ tag) hs,
          )
    ]

-- With a 32-byte salt and 32 reserved bytes, what `encrypt_in_place` seals `decrypt_in_place` opens
-- to the salt followed by the plaintext; a sealed empty plaintext it refuses as too short.
pub decrypt_in_place-encrypt_in_place :
    (aead : Aead) (laws : AeadLaws aead) (subkey salt reserved plain packet : Bytes)
    → length salt ≡ salt_len
    → length reserved ≡ salt_len
    → encrypt_in_place aead subkey (reserved ++ plain) salt ≡ ok packet
    → decrypt_in_place aead subkey packet
      ≡ (if is_empty plain then err packet_too_short else ok (salt ++ plain))
unfolding encrypt_in_place
decrypt_in_place-encrypt_in_place aead laws subkey salt reserved plain packet hs hr h =
    elim (Option-cases (aead.encrypt_detached subkey plain)) [
      | inl e ↦ absurd (ground (arith, drop-append salt_len reserved plain hr))
      | inr ((cipher, tag), e) ↦
          let sent =
            encrypt_in_place-sealed aead laws subkey salt plain cipher tag hs e reserved hr in
          let opened = decrypt_in_place-sealed aead laws subkey salt plain cipher tag hs e in
          cc (sent, opened)
    ]
