-- ===== src/Reconnect/SingleFlight.antt =====
-- client/src/client.rs: callers share one dial.
use juicity_rs.Base.{
  ℕ, ◌+◌, ◌≤◌, ◌≡◌, ap, ◌∙◌, List, [], ◌∷◌, ◌++◌, Option, none, some, Bool, map, if◌then◌else◌,
  arith,
}
use juicity_rs.Reconnect.{
  Client, Phase, Task, Event, goes_on, dial_succeeds, dial_fails, is_dropped, System, Step, calls,
  closes, acts, Reach, here, next, start, advance, go_on, end_dial, drop_task, decide, recheck,
  failed_or_retry, fire, fire_phase, looking, deciding, woken, judging, dropped, subscribed,
  rechecking, parked, clearing, clearing_auth, dialing, publishing, connected, failed,
}

-- Whether a task leads an attempt.
unfoldable pub leads : Phase → ℕ
leads (clearing n) = 1
leads (clearing_auth n) = 1
leads (dialing n) = 1
leads (publishing n conn) = 1
leads _ = 0

unfoldable pub leaders : List Task → ℕ
unfolding leads
leaders [] = 0
leaders (t ∷ ts) = leads t.phase + leaders ts

unfoldable pub flights : Client → ℕ
flights c = if c.reconnect.in_flight then 1 else 0

leads-fire_phase : (o : Option ℕ) (ph : Phase) → leads (fire_phase o ph) ≡ leads ph
unfolding leads fire_phase
leads-fire_phase none ph = ground arith
leads-fire_phase (some n) ph = ground arith

pub leaders-fire : (o : Option ℕ) (ts : List Task) → leaders (map (fire o) ts) ≡ leaders ts
unfolding leaders fire
leaders-fire o [] = omega arith
leaders-fire o (t ∷ ts) = omega (arith, leads-fire_phase o t.phase, leaders-fire o ts)

pub leaders-append : (ts us : List Task) → leaders (ts ++ us) ≡ leaders ts + leaders us
unfolding leaders
leaders-append [] us = omega arith
leaders-append (t ∷ ts) us = omega (arith, leaders-append ts us)

pub leads-failed_or_retry : (c : Client) → leads (failed_or_retry c.reconnect) ≡ 0
unfolding leads failed_or_retry
leads-failed_or_retry c = ground arith

pub leads-recheck : (n : ℕ) (fired : Bool) (c : Client) → leads (recheck n fired c) ≡ 0
unfolding leads recheck
leads-recheck n fired c = ground (arith, leads-failed_or_retry c)

decide_once :
    (now id : ℕ) (rf : Bool) (c : Client) (others : ℕ)
    → others ≤ flights c
    → leads (decide now id rf c).1 + others ≤ flights (decide now id rf c).0
unfolding leads decide flights
decide_once now id rf c others h = ground arith

go_on_once :
    (now id : ℕ) (rf : Bool) (c : Client) (ph : Phase) (others : ℕ)
    → leads ph + others ≤ flights c
    → leads (go_on now id rf c ph).0.1 + others ≤ flights (go_on now id rf c ph).0.0
unfolding leads go_on flights
go_on_once now id rf c looking others h = ground arith
go_on_once now id rf c deciding others h = decide_once now id rf c others (omega (arith, h))
go_on_once now id rf c (subscribed n fired) others h = ground arith
go_on_once now id rf c (rechecking n fired) others h = omega (arith, leads-recheck n fired c)
go_on_once now id rf c (parked n fired) others h = ground arith
go_on_once now id rf c woken others h = ground arith
go_on_once now id rf c judging others h = omega (arith, leads-failed_or_retry c)
go_on_once now id rf c (clearing n) others h = ground arith
go_on_once now id rf c (clearing_auth n) others h = ground arith
go_on_once now id rf c (publishing n conn) others h = ground arith
go_on_once now id rf c (dialing n) others h = h
go_on_once now id rf c (connected conn) others h = h
go_on_once now id rf c (failed error) others h = h
go_on_once now id rf c dropped others h = h

end_dial_once :
    (e : Event) (c : Client) (ph : Phase) (others : ℕ)
    → leads ph + others ≤ flights c
    → leads (end_dial e c ph).0.1 + others ≤ flights (end_dial e c ph).0.0
unfolding leads end_dial flights
end_dial_once e c ph others h = ground arith

drop_task_once :
    (locked : Bool) (c : Client) (ph : Phase) (others : ℕ)
    → leads ph + others ≤ flights c
    → leads (drop_task locked c ph).0.1 + others ≤ flights (drop_task locked c ph).0.0
unfolding leads drop_task flights
drop_task_once locked c ph others h = ground arith

advance_once :
    (e : Event) (rf : Bool) (c : Client) (ph : Phase) (others : ℕ)
    → leads ph + others ≤ flights c
    → leads (advance e rf c ph).0.1 + others ≤ flights (advance e rf c ph).0.0
unfolding advance
advance_once (goes_on now id) rf c ph others h = go_on_once now id rf c ph others h
advance_once (is_dropped locked) rf c ph others h = drop_task_once locked c ph others h
advance_once (dial_succeeds conn) rf c ph others h =
    end_dial_once (dial_succeeds conn) c ph others h
advance_once (dial_fails now error) rf c ph others h =
    end_dial_once (dial_fails now error) c ph others h

abbrev Shares : System → Type 0
Shares s = leaders s.tasks ≤ flights s.client

Step-Shares : {s u : System} → Step s u → Shares s → Shares u
unfolding leaders flights
Step-Shares (calls rf e) b = rw e (omega (arith, b))
Step-Shares (closes conn e) b = rw e b
Step-Shares {s} (acts e before after t h eq) b =
    let r = advance e t.record_failure s.client t.phase in
    let total : leaders s.tasks ≡ leaders before + (leads t.phase + leaders after) =
      ap leaders h ∙ leaders-append before (t ∷ after) in
    rw eq (
      omega (
        arith,
        advance_once e t.record_failure s.client t.phase (leaders before + leaders after)
            (omega (arith, total, b)),
        leaders-append (map (fire r.1) before)
            ((record t { phase = r.0.1 }) ∷ map (fire r.1) after),
        leaders-fire r.1 before,
        leaders-fire r.1 after,
      ))

-- However callers, connection losses, failures and cancellations interleave, at most one task
-- leads an attempt to connect, and none unless the shared state says that one is in flight.
pub Reach-leaders-le-flights : {s : System} → Reach start s → leaders s.tasks ≤ flights s.client
unfolding leaders
Reach-leaders-le-flights here = omega arith
Reach-leaders-le-flights (next r st) = Step-Shares st (Reach-leaders-le-flights r)
