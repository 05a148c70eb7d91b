-- ===== src/Http.antt =====
-- client/src/local.rs: the HTTP inbound. A string is the list of its characters; the parser and the
-- printer of a 16-bit number are parameters.
pub mod Text
pub mod Target
pub mod Lines
pub mod Rewritten
pub mod Brackets
use juicity_rs.Base.{
  ℕ, zero, suc, ◌+◌, ◌≡◌, List, [], ◌∷◌, ◌++◌, Option, none, some, Bool, true, false, not, ◌&&◌,
  ◌||◌, Bytes, Result, ok, err, ◌>>=◌, length, contains, is_empty, map, bytes_eq, leb, ltb,
  if◌then◌else◌, ◌==◌,
}
use juicity_rs.Protocol.Wire.{colon}
use juicity_rs.Link.{
  ParseU16, open_bracket, close_bracket, split_first, split_last, parse_host_port,
}
use juicity_rs.Http.Text.{
  slash, at_sign, space, crlf, byte_len, trim, trim_line_end, eq_ignore_ascii_case, strip_prefix,
  take_line, split_whitespace, http_scheme, connect, name_host, name_proxy_connection,
  name_proxy_authorization, name_connection, host_field, connection_close,
}

abbrev pub max_http_line_len : ℕ
max_http_line_len = 8192

abbrev pub max_http_headers : ℕ
max_http_headers = 100

pub data HttpError : Type 0 where
  line_too_long incomplete_head too_many_headers invalid_request_line unsupported_target : HttpError

-- The line with its line feed, and what follows it on the stream.
unfoldable pub read_http_line : Bytes → Result HttpError (Bytes × Bytes)
unfolding take_line byte_len
read_http_line s = elim (take_line s) [
  | none ↦ err incomplete_head
  | some (line, rest) ↦
      if leb (byte_len line) max_http_line_len then ok (line, rest) else err line_too_long
]

abbrev with_line : Bytes → List Bytes × Bytes → List Bytes × Bytes
with_line line (lines, rest) = (line ∷ lines, rest)

-- The loop over the headers, with how many more there may be.
unfoldable pub read_headers : ℕ → Bytes → Result HttpError (List Bytes × Bytes)
unfolding read_http_line trim
read_headers zero s = read_http_line s >>= λ (line, rest).
    if is_empty (trim line) then ok ([], rest) else err too_many_headers
read_headers (suc more) s = read_http_line s >>= λ (line, rest).
    if is_empty (trim line)
    then ok ([], rest)
    else (read_headers more rest >>= λ r. ok (with_line line r))

-- The method, the target, the version and the headers of a request.
pub record Head : Type 0 where
  pub method : Bytes
  pub target : Bytes
  pub version : Bytes
  pub headers : List Bytes

unfoldable pub request_line_parts : List Bytes → Result HttpError (Bytes × (Bytes × Bytes))
request_line_parts (method ∷ (target ∷ (version ∷ parts))) = ok (method, (target, version))
request_line_parts _ = err invalid_request_line

-- The head of a request, in `handle_http_proxy`.
unfoldable pub read_request_head : Bytes → Result HttpError (Head × Bytes)
unfolding read_http_line split_whitespace request_line_parts read_headers
read_request_head s = read_http_line s >>= λ (request_line, rest).
    request_line_parts (split_whitespace request_line) >>= λ (method, (target, version)).
    read_headers max_http_headers rest >>= λ (headers, rest').
    ok (record { method = method; target = target; version = version; headers = headers }, rest')

-- The authority and the path behind the scheme.
unfoldable pub split_path : Bytes → Bytes × Bytes
unfolding split_first
split_path rest = elim (split_first slash rest) [
  | some (authority, path) ↦ (authority, slash ∷ path)
  | none ↦ (rest, slash ∷ [])
]

-- `rsplit('@').next()`
unfoldable pub drop_userinfo : Bytes → Bytes
unfolding split_last
drop_userinfo authority = elim (split_last at_sign authority) [
  | some (user, host) ↦ host
  | none ↦ authority
]

-- The value of a header, if it is the host.
unfoldable pub host_value : Bytes → Option Bytes
unfolding split_first trim eq_ignore_ascii_case
host_value header = elim (split_first colon header) [
  | none ↦ none
  | some (name, value) ↦
      if eq_ignore_ascii_case (trim name) name_host then some (trim value) else none
]

unfoldable pub find_host : List Bytes → Option Bytes
unfolding host_value
find_host [] = none
find_host (header ∷ headers) = elim (host_value header) [
  | some value ↦ some value
  | none ↦ find_host headers
]

-- The name of a header.
unfoldable pub header_name : Bytes → Bytes
unfolding split_first trim
header_name header = elim (split_first colon header) [
  | some (name, value) ↦ trim name
  | none ↦ trim header
]

unfoldable pub is_dropped : Bytes → Bool
unfolding header_name eq_ignore_ascii_case
is_dropped header =
    eq_ignore_ascii_case (header_name header) name_proxy_connection
    || eq_ignore_ascii_case (header_name header) name_proxy_authorization
    || eq_ignore_ascii_case (header_name header) name_connection

unfoldable pub is_host : Bytes → Bool
unfolding header_name eq_ignore_ascii_case
is_host header = eq_ignore_ascii_case (header_name header) name_host

-- The loop of `build_origin_request`: what it appends, and `has_host`.
unfoldable pub copy_headers : List Bytes → Bytes × Bool
unfolding is_dropped is_host trim_line_end
copy_headers [] = ([], false)
copy_headers (header ∷ headers) =
    let (copied, has_host) = copy_headers headers in
    if is_dropped header
    then (copied, has_host)
    else (trim_line_end header ++ (crlf ++ copied), is_host header || has_host)

module _ (show_port : ℕ → Bytes) where
  unfoldable pub host_line : Bytes → ℕ → Bytes
  host_line host port =
      if contains colon host
      then host_field ++ (open_bracket ∷ (host ++ (close_bracket ∷ (colon ∷ show_port port))))
      else host_field ++ (host ++ (colon ∷ show_port port))

  unfoldable pub build_origin_request : Bytes → Bytes → Bytes → List Bytes → Bytes → ℕ → Bytes
  unfolding copy_headers host_line
  build_origin_request method path version headers host port =
      let (copied, has_host) = copy_headers headers in
      (method ++ (space ∷ (path ++ (space ∷ (version ++ crlf)))))
      ++ (copied
          ++ ((if has_host then [] else host_line host port ++ crlf)
              ++ (connection_close ++ (crlf ++ crlf))))

module _ (parse_u16 : ParseU16) where
  -- `parse_host_port(..).unwrap_or_else(..)`
  unfoldable pub host_and_port : Bytes → ℕ → Bytes × ℕ
  unfolding parse_host_port
  host_and_port authority default_port = elim (parse_host_port parse_u16 authority) [
    | ok target ↦ target
    | err e ↦ (authority, default_port)
  ]

  unfoldable pub with_authority : Bytes → Bytes → Option (Bytes × (ℕ × Bytes))
  unfolding host_and_port
  with_authority authority path =
      if is_empty authority
      then none
      else (let (host, port) = host_and_port authority 80 in some (host, (port, path)))

  unfoldable pub split_proxy_target : Bytes → List Bytes → Option (Bytes × (ℕ × Bytes))
  unfolding strip_prefix split_path drop_userinfo with_authority find_host
  split_proxy_target target headers = elim (strip_prefix http_scheme target) [
    | some rest ↦
        let (authority, path) = split_path rest in with_authority (drop_userinfo authority) path
    | none ↦ elim (find_host headers) [
      | some authority ↦ with_authority authority target
      | none ↦ none
    ]
  ]

-- What is done about a request: a tunnel, or a request that is sent on, each to a host and port.
pub data Action : Type 0 where
  tunnel : Bytes → ℕ → Action
  forward : Bytes → ℕ → Bytes → Action

module _ (parse_u16 : ParseU16) (show_port : ℕ → Bytes) where
  unfoldable pub handle_head : Head → Result HttpError Action
  unfolding host_and_port split_proxy_target build_origin_request
  handle_head h =
      if bytes_eq h.method connect
      then (let (host, port) = host_and_port parse_u16 h.target 443 in ok (tunnel host port))
      else (elim (split_proxy_target parse_u16 h.target h.headers) [
        | none ↦ err unsupported_target
        | some (host, (port, path)) ↦ ok (
            forward host port
              (build_origin_request show_port h.method path h.version h.headers host port))
      ])

  -- `handle_http_proxy`, up to the connection; the rest of the stream goes to the target.
  unfoldable pub handle_http_proxy : Bytes → Result HttpError (Action × Bytes)
  unfolding read_request_head handle_head
  handle_http_proxy s =
      read_request_head s >>= λ (h, rest). handle_head h >>= λ action. ok (action, rest)
