-- ===== src/Server/RelayBack/RoundTrip.antt =====
-- server/src/server.rs: the packets of the relay-back task at the client.
use mathlib.Core.Path.{subst}
use juicity_rs.Base.{
  ℕ, zero, suc, ◌+◌, ◌*◌, ◌≤◌, ◌<◌, ◌≡◌, refl, sym, ap, ◌∙◌, List, [], ◌∷◌, ◌++◌, map, Option, none,
  some, false, Bytes, ok, err, arith, length, length-take, length-drop, take, drop, drop-append,
  replicate, is_empty, All,
}
use juicity_rs.Crypto.{Aead, AeadLaws, salt_len, encrypt_in_place, decrypt_in_place}
use juicity_rs.Crypto.Packets.{encrypt_in_place-sealed}
use juicity_rs.Server.Demux.{is_probably_quic_packet}
use juicity_rs.Server.Underlay.Opened.{IsSealed, sealed-opens, sealed-behind}
use juicity_rs.Server.RelayBack.{
  batch_size, salts_from, generate_salt_batch, pop, with_refills, next_salt, relay_back,
}

-- 32 bytes, of which the first is zero.
pub record IsSalt (salt : Bytes) : Type 0 where
  pub size : length salt ≡ salt_len
  pub tail : Bytes
  pub zeroed : salt ≡ 0 ∷ tail

salts_from-IsSalt :
    (n : ℕ) (random_bytes : Bytes)
    → n * 30 ≤ length random_bytes
    → All IsSalt (salts_from n random_bytes)
unfolding salts_from
salts_from-IsSalt zero random_bytes h = tt
salts_from-IsSalt (suc n) random_bytes h = (
  record {
    size = omega (arith, h, length-take 30 random_bytes);
    tail = 0 ∷ take 30 random_bytes;
    zeroed = refl;
  },
  salts_from-IsSalt n (drop 30 random_bytes) (omega (arith, h, length-drop 30 random_bytes)),
)

length-salts_from : (n : ℕ) (random_bytes : Bytes) → length (salts_from n random_bytes) ≡ n
unfolding salts_from
length-salts_from zero random_bytes = refl
length-salts_from (suc n) random_bytes = omega (arith, length-salts_from n (drop 30 random_bytes))

-- A pop of a pool of salts that is not empty.
record IsPopped (salt_pool : List Bytes) (popped : Option (Bytes × List Bytes)) : Type 0 where
  salt : Bytes
  rest : List Bytes
  pops : popped ≡ some (salt, rest)
  good : IsSalt salt
  others : All IsSalt rest
  one_less : length salt_pool ≡ suc (length rest)

pop-IsPopped :
    (x : Bytes) (xs : List Bytes) → All IsSalt (x ∷ xs) → IsPopped (x ∷ xs) (pop (x ∷ xs))
unfolding pop
pop-IsPopped x [] (h, hs) = record {
  salt = x;
  rest = [];
  pops = refl;
  good = h;
  others = tt;
  one_less = omega arith;
}
pop-IsPopped x (y ∷ ys) (h, hs) =
    let p = pop-IsPopped y ys hs in
    record {
      salt = p.salt;
      rest = x ∷ p.rest;
      pops = rw (p.pops) refl;
      good = p.good;
      others = (h, p.others);
      one_less = omega (arith, p.one_less);
    }

popped_lem : (xs : List Bytes) → All IsSalt xs → 0 < length xs → IsPopped xs (pop xs)
popped_lem [] h some_left = absurd (omega (arith, some_left))
popped_lem (x ∷ xs) h some_left = pop-IsPopped x xs h

-- How many salts are left: those of the pool and the batches to come.
abbrev pub salts_left : List Bytes → List Bytes → ℕ
salts_left salt_pool refills = length salt_pool + batch_size * length refills

abbrev pub IsRandom : Bytes → Type 0
IsRandom random_bytes = batch_size * 30 ≤ length random_bytes

record IsDrawn (salt_pool refills : List Bytes) : Type 0 where
  salt : Bytes
  pool' : List Bytes
  refills' : List Bytes
  nexts : next_salt salt_pool refills ≡ some ((salt, pool'), refills')
  good : IsSalt salt
  others : All IsSalt pool'
  random : All IsRandom refills'
  one_less : salts_left salt_pool refills ≡ suc (salts_left pool' refills')

next_salt-IsDrawn :
    (salt_pool refills : List Bytes)
    → All IsSalt salt_pool
    → All IsRandom refills
    → 0 < salts_left salt_pool refills
    → IsDrawn salt_pool refills
unfolding next_salt with_refills
next_salt-IsDrawn [] [] h r some_left = absurd (omega (arith, some_left))
next_salt-IsDrawn [] (random_bytes ∷ refills) h (r, rs) some_left =
    let batch = generate_salt_batch random_bytes in
    let many : length batch ≡ batch_size = length-salts_from batch_size random_bytes in
    let p = popped_lem batch (salts_from-IsSalt batch_size random_bytes r) (omega (arith, many)) in
    record {
      salt = p.salt;
      pool' = p.rest;
      refills' = refills;
      nexts = ap (λ o. with_refills o refills) p.pops;
      good = p.good;
      others = p.others;
      random = rs;
      one_less = omega (arith, p.one_less, many);
    }
next_salt-IsDrawn (x ∷ xs) refills h r some_left =
    let p = pop-IsPopped x xs h in
    record {
      salt = p.salt;
      pool' = p.rest;
      refills' = refills;
      nexts = ap (λ o. with_refills o refills) p.pops;
      good = p.good;
      others = p.others;
      random = r;
      one_less = omega (arith, p.one_less);
    }

-- What the client makes of a packet.
abbrev pub open_reply : Aead → Bytes → Bytes → Option Bytes
open_reply aead cipher packet = elim (decrypt_in_place aead cipher packet) [
  | ok opened ↦ some (drop salt_len opened)
  | err e ↦ none
]

module _ (aead : Aead) (laws : AeadLaws aead) (cipher : Bytes)
    (seals : (plain : Bytes)
      → (c : Bytes × Bytes) × (aead.encrypt_detached cipher plain ≡ some c)) where
  -- Every reply becomes a packet.
  reply-IsSealed :
      (salt reply : Bytes)
      → IsSalt salt
      → is_empty reply ≡ false
      → (packet : Bytes) × IsSealed aead cipher salt reply packet
  reply-IsSealed salt reply h nonempty =
      let ((ct, tag), e) = seals reply in
      (
        salt ++ (ct ++ tag),
        record {
          salted = h.size;
          nonempty = nonempty;
          seals =
              encrypt_in_place-sealed aead laws cipher salt reply ct tag h.size e
                (replicate salt_len 0) refl;
        },
      )

  not_quic :
      (salt reply packet : Bytes)
      → IsSalt salt
      → IsSealed aead cipher salt reply packet
      → is_probably_quic_packet packet ≡ false
  unfolding is_probably_quic_packet
  not_quic salt reply packet h s =
      let (rest, e) = sealed-behind aead laws cipher salt reply packet s in
      let zeroed = h.zeroed in rw (e, zeroed) refl

  opens_reply :
      (salt reply packet : Bytes)
      → IsSealed aead cipher salt reply packet
      → open_reply aead cipher packet ≡ some reply
  opens_reply salt reply packet s =
      let salted = s.salted in
      rw (open_reply, sealed-opens aead laws cipher salt reply packet s)
        (ap some (drop-append salt_len salt reply salted))

  relay_round :
      (salt_pool refills salt_pool' refills' : List Bytes) (salt packet reply : Bytes)
      (replies : List Bytes)
      → next_salt salt_pool refills ≡ some ((salt, salt_pool'), refills')
      → encrypt_in_place aead cipher (replicate salt_len 0 ++ reply) salt ≡ ok packet
      → relay_back aead cipher salt_pool refills (reply ∷ replies)
        ≡ packet ∷ relay_back aead cipher salt_pool' refills' replies
  unfolding relay_back
  relay_round salt_pool refills salt_pool' refills' salt packet reply replies nexts sealing =
      rw (relay_back, nexts, sealing) refl

  -- The packets open to the replies, and none looks like QUIC.
  abbrev Returns : List Bytes → List Bytes → Type 0
  Returns replies packets =
      (map (open_reply aead cipher) packets ≡ map some replies)
      × All (λ packet. is_probably_quic_packet packet ≡ false) packets

  cons-Returns :
      (reply packet : Bytes) (replies packets : List Bytes)
      → open_reply aead cipher packet ≡ some reply
      → is_probably_quic_packet packet ≡ false
      → Returns replies packets
      → Returns (reply ∷ replies) (packet ∷ packets)
  cons-Returns reply packet replies packets opens quiet (same, rest) = (
    ap (λ r. r ∷ map (open_reply aead cipher) packets) opens ∙ ap (λ r. some reply ∷ r) same,
    (quiet, rest),
  )

  -- Where the cipher seals every plaintext, and the pool and the batches to come have a salt for
  -- each reply: the packets that the task sends for replies, none of them empty, open at the client
  -- to the replies, each of them and in order, and none of them looks like a QUIC packet.
  pub relay_back-open_reply :
      (replies salt_pool refills : List Bytes)
      → All (λ reply. is_empty reply ≡ false) replies
      → All IsSalt salt_pool
      → All IsRandom refills
      → length replies ≤ salts_left salt_pool refills
      → (let packets = relay_back aead cipher salt_pool refills replies in
          (map (open_reply aead cipher) packets ≡ map some replies)
          × All (λ packet. is_probably_quic_packet packet ≡ false) packets)
  unfolding relay_back
  relay_back-open_reply [] salt_pool refills h salts random enough = (refl, tt)
  relay_back-open_reply (reply ∷ replies) salt_pool refills (h, hs) salts random enough =
      let n = next_salt-IsDrawn salt_pool refills salts random (omega (arith, enough)) in
      let (packet, s) = reply-IsSealed n.salt reply n.good h in
      let round =
        relay_round salt_pool refills n.pool' n.refills' n.salt packet reply replies n.nexts
          s.seals in
      let returns =
        relay_back-open_reply replies n.pool' n.refills' hs n.others n.random
          (omega (arith, enough, n.one_less)) in
      subst (Returns (reply ∷ replies)) (sym round) (
        cons-Returns reply packet replies (relay_back aead cipher n.pool' n.refills' replies)
          (opens_reply n.salt reply packet s) (not_quic n.salt reply packet n.good s) returns)
