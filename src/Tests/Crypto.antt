-- ===== src/Tests/Crypto.antt =====
-- The cipher's theorems at concrete packets, with a stand-in for the AEAD.
use juicity_rs.Base.{◌≡◌, refl, [], ◌∷◌, ◌++◌, Bytes, ok, replicate}
use juicity_rs.Crypto.{decrypt_in_place, encrypt_in_place, decrypt_udp, derive_subkey}
use juicity_rs.Crypto.Packets.{decrypt_in_place-encrypt_in_place}
use juicity_rs.Tests.Addresses.{small_aead, small_aead-AeadLaws, small_tag}

abbrev key : Bytes
key = replicate 32 3

abbrev salt : Bytes
salt = replicate 32 1

abbrev reserved : Bytes
reserved = replicate 32 0

decrypt_in_place-encrypt_in_place_example :
    decrypt_in_place small_aead key (salt ++ ((5 ∷ []) ++ small_tag)) ≡ ok (salt ++ (5 ∷ []))
decrypt_in_place-encrypt_in_place_example =
    decrypt_in_place-encrypt_in_place small_aead small_aead-AeadLaws key salt reserved (5 ∷ [])
      (salt ++ ((5 ∷ []) ++ small_tag)) refl refl (unfold encrypt_in_place in refl)

-- An empty datagram, which the in-place form refuses.
opened_empty : decrypt_udp small_aead key (salt ++ small_tag) ≡ ok []
unfolding decrypt_udp derive_subkey
opened_empty = refl
