-- ===== src/Session.antt =====
-- client/src/client.rs and server/src/server.rs: the authentication of a QUIC connection, and the
-- underlay authentications that follow on the same stream.
pub mod Authenticated
use juicity_rs.Base.{
  ℕ, zero, suc, ◌≡◌, List, [], ◌∷◌, ◌++◌, Option, none, some, Bool, true, false, Bytes, Result, ok,
  err, ok_or, ensure, length, ◌==◌, bytes_eq, Bytes-discrete, find,
}
use juicity_rs.Base
use juicity_rs.Protocol.Wire.{
  Hosts, Error, UnderlayAuth, protocol_version, authenticate_type, unsupported_version,
  unexpected_command, unknown_user, token_mismatch, export_failed,
}
use juicity_rs.Protocol.Header.{read_command_head, read_authenticate}
use juicity_rs.Protocol.Underlay.{write_underlay_auth, read_underlay_auth}

-- `export_keying_material` of one end of a TLS connection: 32 bytes for a label and a context.
abbrev pub Exporter : Type 0
Exporter = Bytes → Bytes → Option Bytes

unfoldable pub gen_token_via_connection : Exporter → Bytes → Bytes → Result Error Bytes
gen_token_via_connection conn uuid password = ok_or (conn uuid password) export_failed

-- The message that `connect_to_address` writes on the new stream.
unfoldable pub auth_buf : Exporter → Bytes → Bytes → Result Error Bytes
unfolding gen_token_via_connection
auth_buf conn uuid password =
    Base.◌>>=◌ (gen_token_via_connection conn uuid password)
      λ token. ok (protocol_version ∷ (authenticate_type ∷ (uuid ++ token)))

-- `handle_auth`: the user, and what is left of the stream.
unfoldable pub handle_auth : Exporter → List (Bytes × Bytes) → Bytes → Result Error (Bytes × Bytes)
unfolding gen_token_via_connection
handle_auth conn users s = Base.◌>>=◌ (read_command_head s) λ ((version, cmd_type), rest).
    Base.◌>>=◌ (ensure (version == protocol_version) (unsupported_version version)) λ _.
      Base.◌>>=◌ (ensure (cmd_type == authenticate_type) (unexpected_command cmd_type)) λ _.
        Base.◌>>=◌ (read_authenticate rest) λ ((uuid, received_token), rest').
          Base.◌>>=◌ (ok_or (find Bytes-discrete uuid users) unknown_user) λ password.
            Base.◌>>=◌ (gen_token_via_connection conn uuid password) λ expected_token.
              Base.◌>>=◌ (ensure (bytes_eq expected_token received_token) token_mismatch)
                λ _. ok (uuid, rest')

-- The task that goes on reading the stream: the authentications that it hands to `store` of
-- Server.InFlight, in order, which may still refuse one or replace an older one. Each takes at least
-- a byte off the stream.
unfoldable pub stored_entries : Hosts → ℕ → Bytes → List UnderlayAuth
stored_entries net zero s = []
stored_entries net (suc fuel) s = elim (read_underlay_auth net s) [
  | ok (auth, rest) ↦ auth ∷ stored_entries net fuel rest
  | err e ↦ []
]
