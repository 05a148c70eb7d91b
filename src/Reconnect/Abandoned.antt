-- ===== src/Reconnect/Abandoned.antt =====
-- client/src/client.rs: a leader that is dropped while another task holds the lock.
use juicity_rs.Base.{ℕ, ◌+◌, ◌≡◌, ap, ◌∙◌, ◌∷◌, none, Bool, true, map, arith}
use juicity_rs.Reconnect.{
  Client, Phase, Event, goes_on, dial_succeeds, dial_fails, is_dropped, System, Step, calls, closes,
  acts, Reach, here, next, advance, go_on, decide, fire, looking, deciding, woken, judging, dropped,
  subscribed, rechecking, parked, clearing, clearing_auth, dialing, publishing, connected, failed,
}
use juicity_rs.Reconnect.SingleFlight.{
  leads, leaders, leaders-append, leaders-fire, leads-recheck, leads-failed_or_retry,
}

-- An attempt is said to be in flight, nobody leads it, and there is no connection.
pub record IsAbandoned (s : System) : Type 0 where
  pub in_flight : s.client.reconnect.in_flight ≡ true
  pub nobody : leaders s.tasks ≡ 0
  pub connection : s.client.connection ≡ none

abbrev Blocked : Client → Type 0
Blocked c = (c.reconnect.in_flight ≡ true) × (c.connection ≡ none)

decide-Blocked :
    (now id : ℕ) (rf : Bool) (c : Client)
    → Blocked c
    → Blocked (decide now id rf c).0 × (leads (decide now id rf c).1 ≡ 0)
unfolding leads decide
decide-Blocked now id rf c (h, e) = ground arith

go_on-Blocked :
    (now id : ℕ) (rf : Bool) (c : Client) (ph : Phase)
    → Blocked c
    → leads ph ≡ 0
    → Blocked (go_on now id rf c ph).0.0 × (leads (go_on now id rf c ph).0.1 ≡ 0)
unfolding leads go_on
go_on-Blocked now id rf c looking b h = ground arith
go_on-Blocked now id rf c deciding b h = decide-Blocked now id rf c b
go_on-Blocked now id rf c (subscribed n fired) b h = ground arith
go_on-Blocked now id rf c (rechecking n fired) b h = (b, leads-recheck n fired c)
go_on-Blocked now id rf c (parked n fired) b h = ground arith
go_on-Blocked now id rf c woken b h = ground arith
go_on-Blocked now id rf c judging b h = (b, leads-failed_or_retry c)
go_on-Blocked now id rf c (clearing n) b h = absurd (omega arith)
go_on-Blocked now id rf c (clearing_auth n) b h = absurd (omega arith)
go_on-Blocked now id rf c (publishing n conn) b h = absurd (omega arith)
go_on-Blocked now id rf c (dialing n) b h = absurd (omega arith)
go_on-Blocked now id rf c (connected conn) b h = (b, h)
go_on-Blocked now id rf c (failed error) b h = (b, h)
go_on-Blocked now id rf c dropped b h = (b, h)

advance-Blocked :
    (e : Event) (rf : Bool) (c : Client) (ph : Phase)
    → Blocked c
    → leads ph ≡ 0
    → Blocked (advance e rf c ph).0.0 × (leads (advance e rf c ph).0.1 ≡ 0)
unfolding leads advance
advance-Blocked (goes_on now id) rf c ph b h = go_on-Blocked now id rf c ph b h
advance-Blocked (is_dropped locked) rf c ph b h = ground arith
advance-Blocked (dial_succeeds conn) rf c ph b h = ground arith
advance-Blocked (dial_fails now error) rf c ph b h = ground arith

Step-IsAbandoned : {s u : System} → Step s u → IsAbandoned s → IsAbandoned u
unfolding leaders
Step-IsAbandoned (calls rf e) b = rw e (record {
  in_flight = b.in_flight;
  nobody = omega (arith, b.nobody);
  connection = b.connection;
})
Step-IsAbandoned (closes conn e) b =
    rw e (record { in_flight = b.in_flight; nobody = b.nobody; connection = b.connection })
Step-IsAbandoned {s} (acts e before after t h eq) b =
    let r = advance e t.record_failure s.client t.phase in
    let total : leaders s.tasks ≡ leaders before + (leads t.phase + leaders after) =
      ap leaders h ∙ leaders-append before (t ∷ after) in
    let kept =
      advance-Blocked e t.record_failure s.client t.phase (b.in_flight, b.connection)
        (omega (arith, total, b.nobody)) in
    rw eq (record {
      in_flight = kept.0.0;
      connection = kept.0.1;
      nobody = omega (
        arith,
        kept.1,
        total,
        b.nobody,
        leaders-append (map (fire r.1) before)
            ((record t { phase = r.0.1 }) ∷ map (fire r.1) after),
        leaders-fire r.1 before,
        leaders-fire r.1 after,
      );
    })

-- Once an attempt is said to be in flight, nobody leads it and there is no connection, this stays so
-- whatever callers, dials and cancellations follow: no later caller dials or gets a connection.
pub Reach-IsAbandoned : {s u : System} → Reach s u → IsAbandoned s → IsAbandoned u
Reach-IsAbandoned here b = b
Reach-IsAbandoned (next r st) b = Step-IsAbandoned st (Reach-IsAbandoned r b)
