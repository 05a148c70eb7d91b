-- ===== src/Server/TcpRelay/Watchdog.antt =====
-- server/src/tcp.rs: when the idle watchdog of the relay expires.
use juicity_rs.Base.{
  ℕ, zero, suc, ◌+◌, ◌≤◌, ◌<◌, ◌≡◌, refl, ◌∙◌, sym, ap, List, [], ◌∷◌, some, length, arith, true,
  false, Bool-cases, inl, inr, leb, ◌==◌, if◌then◌else◌,
}
use juicity_rs.Server.TcpRelay.{activity_at, idle}

-- The end of the first pause in the activity of the length of the timeout.
unfoldable pub first_pause : ℕ → ℕ → List ℕ → ℕ
first_pause idle_timeout last [] = last + idle_timeout
first_pause idle_timeout last (v ∷ vs) =
    if leb v (last + idle_timeout) then first_pause idle_timeout v vs else last + idle_timeout

-- In the order of time, none before the first.
abbrev pub IsAscending : ℕ → List ℕ → Type 0
IsAscending last [] = Unit
IsAscending last (v ∷ vs) = (last ≤ v) × IsAscending v vs

-- What is stored after an instant.
unfoldable later : ℕ → List ℕ → List ℕ
later now [] = []
later now (v ∷ vs) = if leb v now then later now vs else v ∷ vs

first_pause-later :
    (idle_timeout now last : ℕ) (vs : List ℕ)
    → IsAscending last vs
    → now ≤ last + idle_timeout
    → first_pause idle_timeout last vs
      ≡ first_pause idle_timeout (activity_at now last vs) (later now vs)
unfolding first_pause activity_at later
first_pause-later i now last [] asc h = refl
first_pause-later i now last (v ∷ vs) (lv, asc) h =
    ground (arith, first_pause-later i now v vs asc (omega (arith, lv, h)))

activity_at-later :
    (now next last : ℕ) (vs : List ℕ)
    → now ≤ next
    → activity_at next last vs ≡ activity_at next (activity_at now last vs) (later now vs)
unfolding activity_at later
activity_at-later now next last [] h = refl
activity_at-later now next last (v ∷ vs) h = ground (arith, activity_at-later now next v vs h)

le-activity_at : (now last : ℕ) (vs : List ℕ) → IsAscending last vs → last ≤ activity_at now last vs
unfolding activity_at
le-activity_at now last [] asc = omega arith
le-activity_at now last (v ∷ vs) (lv, asc) = ground (arith, le-activity_at now v vs asc)

later-IsAscending :
    (now last : ℕ) (vs : List ℕ)
    → IsAscending last vs
    → IsAscending (activity_at now last vs) (later now vs)
unfolding activity_at later
later-IsAscending now last [] asc = tt
later-IsAscending now last (v ∷ vs) (lv, asc) =
    elim (leb v now)
      as (λ t.
        IsAscending (if t then activity_at now v vs else last)
          (if t then later now vs else v ∷ vs)) [
            | true ↦ later-IsAscending now v vs asc
            | false ↦ (lv, asc)
          ]

length-later-le : (now : ℕ) (vs : List ℕ) → length (later now vs) ≤ length vs
unfolding later
length-later-le now [] = omega arith
length-later-le now (v ∷ vs) = ground (arith, length-later-le now vs)

-- Activity that moved is no longer ahead.
length-later-lt :
    (now last : ℕ) (vs : List ℕ)
    → (activity_at now last vs == last) ≡ false
    → length (later now vs) < length vs
unfolding activity_at later
length-later-lt now last [] h = ground (arith, h)
length-later-lt now last (v ∷ vs) h = ground (arith, h, length-later-le now vs)

-- Nothing is stored until after the instant.
first_pause-past :
    (idle_timeout last : ℕ) (vs : List ℕ)
    → first_pause idle_timeout last (later (last + idle_timeout) vs) ≡ last + idle_timeout
unfolding first_pause later
first_pause-past i last [] = refl
first_pause-past i last (v ∷ vs) = ground (arith, first_pause-past i last vs)

-- What is left to be stored, on each round.
idle-rounds :
    (idle_timeout last now fuel : ℕ) (activity ahead : List ℕ)
    → length ahead < fuel
    → IsAscending last ahead
    → now ≤ last + idle_timeout
    → ((t : ℕ) → now ≤ t → activity_at t 1 activity ≡ activity_at t last ahead)
    → idle idle_timeout activity fuel last ≡ some (first_pause idle_timeout last ahead)
unfolding idle
idle-rounds i last now zero activity ahead hf asc h same = ground (arith, hf)
idle-rounds i last now (suc fuel) activity ahead hf asc h same =
    let deadline = last + i in
    let current = activity_at deadline last ahead in
    let now_current : activity_at deadline 1 activity ≡ current = same deadline h in
    let pause = first_pause-later i deadline last ahead asc (omega arith) in
    elim (Bool-cases (current == last)) [
      | inl e ↦
          let same_value : current ≡ last = ground (arith, e) in
          rw (now_current, e)
            (ap some (sym (pause ∙ rw same_value (first_pause-past i last ahead))))
      | inr e ↦
          rw (now_current, e)
            (idle-rounds i current deadline fuel activity (later deadline ahead)
                (omega (arith, length-later-lt deadline last ahead e, hf))
                (later-IsAscending deadline last ahead asc)
                (omega (arith, le-activity_at deadline last ahead asc))
                (λ t ht. same t (omega (arith, h, ht)) ∙ activity_at-later deadline t last ahead ht)
              ∙ ap some (sym pause))
    ]

-- Where the values in `activity` grow from 1 on, the watchdog ends, in at most one round more than
-- there are stores, and expires at the end of the first pause as long as the timeout: never while
-- a byte was read or written within the timeout before, and no later.
pub idle-first_pause :
    (idle_timeout : ℕ) (activity : List ℕ)
    → IsAscending 1 activity
    → idle idle_timeout activity (suc (length activity)) 1
      ≡ some (first_pause idle_timeout 1 activity)
idle-first_pause i activity asc =
    idle-rounds i 1 1 (suc (length activity)) activity activity (omega arith) asc (omega arith)
      (λ t h. refl)
