-- ===== src/Tests/TcpRelay.antt =====
-- The relay of a TCP stream at concrete answers.
use juicity_rs.Base.{ℕ, ◌≡◌, refl, List, [], ◌∷◌, some, arith}
use juicity_rs.Server.TcpRelay.{
  Read, bytes, read_fails, Write, took, write_fails, shut_down, broke, failed, write_zero, idle,
  copy_direction,
}
use juicity_rs.Server.TcpRelay.Watchdog.{first_pause, idle-first_pause}
use juicity_rs.Server.TcpRelay.Copy.{received}
use juicity_rs.Server.TcpRelay.Finish.{copy_direction-closed}

-- Two stores in time, a pause of more than 100 milliseconds, and one store too late.
abbrev stores : List ℕ
stores = 40 ∷ 120 ∷ 300 ∷ []

idle-first_pause_example : idle 100 stores 4 1 ≡ some (first_pause 100 1 stores)
idle-first_pause_example =
    idle-first_pause 100 stores (omega arith, (omega arith, (omega arith, tt)))

pause_at_220 : first_pause 100 1 stores ≡ 220
unfolding first_pause
pause_at_220 = refl

abbrev reads : List Read
reads = bytes 5 (1 ∷ 2 ∷ 3 ∷ []) ∷ bytes 9 (4 ∷ []) ∷ bytes 12 [] ∷ []

abbrev writes : List Write
writes = took 6 2 ∷ took 7 1 ∷ took 10 1 ∷ took 12 1 ∷ took 13 1 ∷ []

copy_direction-closed_example :
    ((copy_direction reads writes).outcome ≡ shut_down)
    × ((copy_direction reads writes).written ≡ received reads)
unfolding received juicity_rs.Server.TcpRelay.Copy.is_closed
copy_direction-closed_example =
    copy_direction-closed reads writes refl
      (omega arith, (omega arith, (omega arith, (omega arith, (omega arith, tt))))) (omega arith)

copied_bytes : (copy_direction reads writes).written ≡ 1 ∷ 2 ∷ 3 ∷ 4 ∷ []
unfolding copy_direction
copied_bytes = refl

stalled_writer : (copy_direction reads (took 6 0 ∷ [])).outcome ≡ broke write_zero
unfolding copy_direction
stalled_writer = refl
