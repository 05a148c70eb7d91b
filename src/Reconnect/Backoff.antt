-- ===== src/Reconnect/Backoff.antt =====
-- client/src/client.rs: the addresses that one attempt tries.
use juicity_rs.Base.{◌≡◌, refl, ap, List, [], ◌∷◌, ◌++◌, Option, some, ◌⊎◌, inl, inr, arith, All}
use juicity_rs.Reconnect.{try_addresses}

module _ {A E T : Type 0} (connect : A → T ⊎ E) where
  abbrev pub Fails : A → Type 0
  Fails a = (e : E) × (connect a ≡ inr e)

  -- Where the addresses split: the first that answers, behind those that failed.
  pub record First (addresses : List A) (t : T) : Type 0 where
    before : List A
    after : List A
    addr : A
    splits : addresses ≡ before ++ (addr ∷ after)
    earlier : All Fails before
    answers : connect addr ≡ inl t

  try_addresses_from :
      (a : A) (answer : T ⊎ E) (addresses : List A) (error : Option E) (t : T)
      → connect a ≡ answer
      → ((o : Option E) → try_addresses connect o addresses ≡ inl t → First addresses t)
      → try_addresses connect error (a ∷ addresses) ≡ inl t
      → First (a ∷ addresses) t
  unfolding try_addresses
  try_addresses_from a (inl u) addresses error t e ih h = record {
    before = [];
    after = addresses;
    addr = a;
    splits = refl;
    earlier = tt;
    answers = ground (arith, e, h);
  }
  try_addresses_from a (inr f) addresses error t e ih h =
      let rest = ih (some f) (ground (arith, e, h)) in
      record {
        before = a ∷ rest.before;
        after = rest.after;
        addr = rest.addr;
        splits = ap (λ more. a ∷ more) rest.splits;
        earlier = ((f, e), rest.earlier);
        answers = rest.answers;
      }

  -- The connection that comes out is that of the first address that answers: every address before
  -- it was tried and failed.
  pub try_addresses-First :
      (addresses : List A) (error : Option E) (t : T)
      → try_addresses connect error addresses ≡ inl t
      → First addresses t
  unfolding try_addresses
  try_addresses-First [] error t h = absurd (ground arith)
  try_addresses-First (a ∷ addresses) error t h =
      try_addresses_from a (connect a) addresses error t refl
        (λ o. try_addresses-First addresses o t) h
