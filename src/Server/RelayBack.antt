-- ===== src/Server/RelayBack.antt =====
-- server/src/server.rs: the relay-back task of an underlay session, on the packets that its socket
-- receives, each at most as long as its buffer; `refills` are the random bytes of the batches of
-- salts to come.
pub mod RoundTrip
use juicity_rs.Base.{
  ℕ, zero, suc, ◌≡◌, List, [], ◌∷◌, ◌++◌, Option, none, some, Bytes, Result, ok, err, take, drop,
  replicate,
}
use juicity_rs.Crypto.{Aead, salt_len, encrypt_in_place}

abbrev pub batch_size : ℕ
batch_size = 64

-- The loop over the batch.
unfoldable pub salts_from : ℕ → Bytes → List Bytes
salts_from zero random_bytes = []
salts_from (suc n) random_bytes =
    (0 ∷ (0 ∷ take 30 random_bytes)) ∷ salts_from n (drop 30 random_bytes)

unfoldable pub generate_salt_batch : Bytes → List Bytes
unfolding salts_from
generate_salt_batch random_bytes = salts_from batch_size random_bytes

-- `Vec::pop`
unfoldable pub pop : List Bytes → Option (Bytes × List Bytes)
pop [] = none
pop (x ∷ xs) = elim (pop xs) [ none ↦ some (x, []) | some (y, ys) ↦ some (y, x ∷ ys) ]

unfoldable pub with_refills :
    Option (Bytes × List Bytes) → List Bytes → Option ((Bytes × List Bytes) × List Bytes)
with_refills none refills = none
with_refills (some popped) refills = some (popped, refills)

-- The next salt, from a new batch if the pool is empty.
unfoldable pub next_salt : List Bytes → List Bytes → Option ((Bytes × List Bytes) × List Bytes)
unfolding pop generate_salt_batch with_refills
next_salt [] [] = none
next_salt [] (random_bytes ∷ refills) =
    with_refills (pop (generate_salt_batch random_bytes)) refills
next_salt (salt ∷ salt_pool) refills = with_refills (pop (salt ∷ salt_pool)) refills

-- The packets sent to the client until the task ends.
unfoldable pub relay_back : Aead → Bytes → List Bytes → List Bytes → List Bytes → List Bytes
unfolding next_salt encrypt_in_place
relay_back aead cipher salt_pool refills [] = []
relay_back aead cipher salt_pool refills (reply ∷ replies) = elim (next_salt salt_pool refills) [
  | none ↦ []
  | some ((salt, salt_pool'), refills') ↦
      elim (encrypt_in_place aead cipher (replicate salt_len 0 ++ reply) salt) [
        | err e ↦ []
        | ok packet ↦ packet ∷ relay_back aead cipher salt_pool' refills' replies
      ]
]
