-- ===== src/Session/Authenticated.antt =====
-- client/src/client.rs and server/src/server.rs: who is authenticated.
use juicity_rs.Base.{
  ℕ, ◌≡◌, refl, ap, ◌∙◌, List, ◌∷◌, ◌++◌, Option, some, Bool, true, Bytes, Result, ok, ok_or,
  ensure, length, arith, ◌==◌, bytes_eq, bytes_eq_refl, bytes_eq→eq, Bytes-discrete, find,
  >>=-eq-ok, append_assoc,
}
use juicity_rs.Protocol.Wire.{Error}
use juicity_rs.Protocol.Reader.{read_exact, read_exact-append, read_exact_two, read_exact-eq-ok}
use juicity_rs.Protocol.Header.{read_command_head, read_authenticate}
use juicity_rs.Session.{Exporter, gen_token_via_connection, auth_buf, handle_auth}

-- Where both ends export the same 32 bytes for a user of 16 bytes and the password that the server
-- knows, the server accepts the client's message and leaves the rest of the stream.
pub handle_auth-auth_buf :
    (client server : Exporter) (users : List (Bytes × Bytes)) (uuid password token rest : Bytes)
    → length uuid ≡ 16
    → length token ≡ 32
    → find Bytes-discrete uuid users ≡ some password
    → client uuid password ≡ some token
    → server uuid password ≡ some token
    → (message : Bytes) × (auth_buf client uuid password ≡ ok message)
      × (handle_auth server users (message ++ rest) ≡ ok (uuid, rest))
unfolding auth_buf handle_auth read_command_head read_authenticate
handle_auth-auth_buf client server users uuid password token rest hu ht user hc hs = (
  0 ∷ (0 ∷ (uuid ++ token)),
  rw hc refl,
  rw
      (
        append_assoc uuid token rest,
        read_exact_two 0 0 (uuid ++ (token ++ rest)),
        read_exact-append 16 uuid (token ++ rest) hu,
        read_exact-append 32 token rest ht,
        user,
        hs,
        bytes_eq_refl token,
      )
      refl,
)

ensure-eq-ok : (b : Bool) (e : Error) {u : Unit {0}} → ensure b e ≡ ok u → b ≡ true
ensure-eq-ok b e h = ground arith

ok_or-eq-ok : (o : Option Bytes) (e : Error) {a : Bytes} → ok_or o e ≡ ok a → o ≡ some a
ok_or-eq-ok o e h = ground arith

read_authenticate-eq-ok :
    (s : Bytes) {uuid token rest : Bytes}
    → read_authenticate s ≡ ok ((uuid, token), rest)
    → s ≡ uuid ++ (token ++ rest)
unfolding read_authenticate
read_authenticate-eq-ok s h =
    let ((u, r), e, h') = >>=-eq-ok (read_exact 16 s) _ h in
    let ((t, r'), e', h'') = >>=-eq-ok (read_exact 32 r) _ h' in
    let first = (read_exact-eq-ok 16 s e).0 in
    let second = (read_exact-eq-ok 32 r e').0 in ground (arith, first, second, h'')

ensure-eq : (v : ℕ) (e : Error) {u : Unit {0}} → ensure (v == 0) e ≡ ok u → v ≡ 0
ensure-eq v e h = ground arith

-- The stream starts with the command, the user and the token that the server's end exports for the
-- user and a password that it knows.
abbrev pub Accepted : Exporter → List (Bytes × Bytes) → Bytes → Bytes → Bytes → Type 0
Accepted server users s uuid rest =
    (password token tail : Bytes) × (find Bytes-discrete uuid users ≡ some password)
    × (server uuid password ≡ some token)
    × (read_command_head s ≡ ok ((0, 0), tail))
    × (tail ≡ uuid ++ (token ++ rest))

accepted :
    (users : List (Bytes × Bytes)) (server : Exporter) (s uuid rest : Bytes)
    {u r password token t tail : Bytes}
    → Path (Result Error (Bytes × Bytes)) (ok (u, r)) (ok (uuid, rest))
    → find Bytes-discrete u users ≡ some password
    → server u password ≡ some token
    → token ≡ t
    → tail ≡ u ++ (t ++ r)
    → read_command_head s ≡ ok ((0, 0), tail)
    → Accepted server users s uuid rest
accepted users server s uuid rest {u} {r} {password} {token} {t} {tail} e known exported same whole
      head =
    (password, token, tail, cc, cc, head, cc)

-- Whom the server accepts: a user that it knows, whose message carries the token that the server's
-- end exports for the user and the password; the rest of the stream is what follows the message's
-- command, user and token.
pub handle_auth-eq-ok :
    (server : Exporter) (users : List (Bytes × Bytes)) (s uuid rest : Bytes)
    → handle_auth server users s ≡ ok (uuid, rest)
    → Accepted server users s uuid rest
unfolding handle_auth gen_token_via_connection
handle_auth-eq-ok server users s uuid rest h =
    let (((version, cmd_type), tail), e0, h0) = >>=-eq-ok (read_command_head s) _ h in
    let (u1, e1, h1) = >>=-eq-ok (ensure (version == 0) _) _ h0 in
    let (u2, e2, h2) = >>=-eq-ok (ensure (cmd_type == 0) _) _ h1 in
    let (((u, t), r), e3, h3) = >>=-eq-ok (read_authenticate tail) _ h2 in
    let (password, e4, h4) = >>=-eq-ok (ok_or (find Bytes-discrete u users) _) _ h3 in
    let (token, e5, h5) = >>=-eq-ok (ok_or (server u password) _) _ h4 in
    let (u6, e6, h6) = >>=-eq-ok (ensure (bytes_eq token t) _) _ h5 in
    let same = bytes_eq→eq token t (ensure-eq-ok (bytes_eq token t) _ e6) in
    let known = ok_or-eq-ok (find Bytes-discrete u users) _ e4 in
    let exported = ok_or-eq-ok (server u password) _ e5 in
    let whole = read_authenticate-eq-ok tail e3 in
    accepted users server s uuid rest h6 known exported same whole (
      e0
      ∙ ap (λ v. ok ((v, cmd_type), tail)) (ensure-eq version _ e1)
      ∙ ap (λ v. ok ((0, v), tail)) (ensure-eq cmd_type _ e2))
