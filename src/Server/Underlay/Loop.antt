-- ===== src/Server/Underlay/Loop.antt =====
-- server/src/server.rs: `run_underlay_packet_loop` with the handlers that it spawns. A handler whose
-- turn comes runs as one step; how long it waits in `evict` is in Server.InFlight.
use native.Mathlib.Decide.{ℕ_discrete}
use juicity_rs.Base.{
  ℕ, ◌+◌, List, [], ◌∷◌, ◌++◌, none, some, Bool, Bytes, length, take, drop, ltb, find, get_elem?,
  if◌then◌else◌,
}
use juicity_rs.Crypto.{Aead, salt_len}
use juicity_rs.Server.Underlay.{World, Underlay, fast_path, handle_non_quic_underlay_packet}

-- The server and the handlers that are spawned and have not run, each with its packet and source.
pub record UnderlayServer : Type 0 where
  pub state : Underlay
  pub tasks : List (ℕ × Bytes)

-- The loop receives a packet, with whether there is a permit; or a spawned handler runs.
pub data Turn : Type 0 where
  received : ℕ → Bool → Bytes → Turn
  handled : ℕ → Turn

-- `try_acquire_owned` and `tokio::spawn`
unfoldable pub spawn_handler : ℕ → Bool → Bytes → UnderlayServer → UnderlayServer
spawn_handler source permit payload s =
    if permit then record s { tasks = s.tasks ++ ((source, payload) ∷ []) } else s

module _ (aead : Aead) (world : World) (disable_udp_443 : Bool) where
  -- A round of the loop.
  unfoldable pub receive_or_spawn : ℕ → Bool → Bytes → UnderlayServer → UnderlayServer
  unfolding spawn_handler fast_path
  receive_or_spawn source permit payload s =
      if ltb (length payload) salt_len then s else (elim (find ℕ_discrete source s.state.sessions) [
        | none ↦ spawn_handler source permit payload s
        | some session ↦ elim (find ℕ_discrete source s.state.udp_pool) [
          | none ↦ spawn_handler source permit payload s
          | some endpoint ↦ record s {
            state = (fast_path aead world source session endpoint payload s.state).0;
          }
        ]
      ])

  unfoldable pub run_handler : ℕ → UnderlayServer → UnderlayServer
  unfolding handle_non_quic_underlay_packet
  run_handler n s = elim (get_elem? s.tasks n) [
    | none ↦ s
    | some (source, payload) ↦ record {
      state = (handle_non_quic_underlay_packet aead world source disable_udp_443 payload s.state).0;
      tasks = take n s.tasks ++ drop (n + 1) s.tasks;
    }
  ]

  unfoldable pub run_underlay_packet_loop : List Turn → UnderlayServer → UnderlayServer
  unfolding receive_or_spawn run_handler
  run_underlay_packet_loop [] s = s
  run_underlay_packet_loop (received source permit payload ∷ turns) s =
      run_underlay_packet_loop turns (receive_or_spawn source permit payload s)
  run_underlay_packet_loop (handled n ∷ turns) s = run_underlay_packet_loop turns (run_handler n s)
