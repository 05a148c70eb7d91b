-- ===== src/Http/Rewritten.antt =====
-- client/src/local.rs: the request that is sent on, read as a server reads it.
use juicity_rs.Base.{
  ℕ, ◌≤◌, ◌≡◌, refl, sym, ap, ◌∙◌, List, [], ◌∷◌, ◌++◌, append_assoc, map, Bool, true, false, not,
  ◌||◌, Bytes, ok, arith, length, contains, contains-append, leb, if◌then◌else◌, retain, All,
  Bool-cases, inl, inr,
}
use juicity_rs.Http.Text.{
  line_feed, space, crlf, eq_ignore_ascii_case, byte_len, is_whitespace, with_word, words,
  split_whitespace, connection_close,
}
use juicity_rs.Http.{
  max_http_line_len, max_http_headers, request_line_parts, read_request_head, is_dropped, is_host,
  header_name, copy_headers, host_line, build_origin_request,
}
use juicity_rs.Protocol.Wire.{colon}
use juicity_rs.Gui.Profile.{codes}
use juicity_rs.Http.Lines.{
  IsLine, IsWord, ended, joined_lines, read_http_line-ended, trim_line_end-ended,
  read_headers-joined_lines, words-append,
}

-- The names of the headers that speak of this connection or of the proxy.
abbrev own_names : List Bytes
own_names = codes "connection" ∷ (codes "proxy-connection" ∷ (codes "proxy-authorization" ∷ []))

abbrev one_of : List Bytes → Bytes → Bool
one_of [] name = false
one_of (n ∷ names) name = eq_ignore_ascii_case name n || one_of names name

-- A header of another name is for the origin.
abbrev is_passed : Bytes → Bool
is_passed line = not (one_of own_names (header_name (ended line)))

unfoldable pub kept : List Bytes → List Bytes
kept lines = retain is_passed lines

unfoldable pub any_host : List Bytes → Bool
any_host [] = false
any_host (line ∷ lines) =
    eq_ignore_ascii_case (header_name (ended line)) (codes "host") || any_host lines

-- "Host: ", and the address with brackets around an IPv6 host.
abbrev pub host_text : (ℕ → Bytes) → Bytes → ℕ → Bytes
host_text show_port host port =
    if contains colon host
    then codes "Host: [" ++ (host ++ (codes "]:" ++ show_port port))
    else codes "Host: " ++ (host ++ (codes ":" ++ show_port port))

-- The headers that are sent on: the client's, a host if it has none, and the connection's end.
abbrev pub sent_lines : (ℕ → Bytes) → List Bytes → Bytes → ℕ → List Bytes
sent_lines show_port lines host port =
    kept lines
    ++ ((if any_host (kept lines) then [] else host_text show_port host port ∷ [])
        ++ (codes "Connection: close" ∷ []))

dropped_lem : (line : Bytes) → is_dropped (ended line) ≡ one_of own_names (header_name (ended line))
unfolding is_dropped
dropped_lem line = ground arith

host_line_lem :
    (show_port : ℕ → Bytes) (host : Bytes) (port : ℕ)
    → host_line show_port host port ≡ host_text show_port host port
unfolding host_line
host_line_lem show_port host port = elim (Bool-cases (contains colon host)) [
  | inl e ↦ rw e refl
  | inr e ↦ rw e refl
]

abbrev pub request_line : Bytes → Bytes → Bytes → Bytes
request_line method path version = method ++ (space ∷ (path ++ (space ∷ version)))

joined_lines-append :
    (xs ys : List Bytes) → joined_lines (xs ++ ys) ≡ joined_lines xs ++ joined_lines ys
unfolding joined_lines
joined_lines-append [] ys = refl
joined_lines-append (x ∷ xs) ys =
    ap (λ r. x ++ (crlf ++ r)) (joined_lines-append xs ys)
    ∙ sym (append_assoc x (crlf ++ joined_lines xs) (joined_lines ys))

copy_headers-ended :
    (lines : List Bytes)
    → All IsLine lines
    → copy_headers (map ended lines) ≡ (joined_lines (kept lines), any_host (kept lines))
unfolding copy_headers kept retain joined_lines any_host is_host
copy_headers-ended [] h = refl
copy_headers-ended (line ∷ lines) (h, hs) =
    let bare = trim_line_end-ended line h.no_return h.no_feed in
    let rest = copy_headers-ended lines hs in
    elim (Bool-cases (one_of own_names (header_name (ended line)))) [
      | inl e ↦ rw (dropped_lem line, e, rest) refl
      | inr e ↦ rw (dropped_lem line, e, bare, rest) refl
    ]

black_no_feed :
    (word : Bytes) → All (λ c. is_whitespace c ≡ false) word → contains line_feed word ≡ false
unfolding is_whitespace
black_no_feed [] h = refl
black_no_feed (c ∷ cs) (h, hs) = ground (arith, black_no_feed cs hs, h)

tail_lem :
    (has_host : Bool) (line : Bytes)
    → (if has_host then [] else line ++ crlf) ++ (connection_close ++ (crlf ++ crlf))
      ≡ joined_lines ((if has_host then [] else line ∷ []) ++ (connection_close ∷ [])) ++ crlf
unfolding joined_lines
tail_lem true line = refl
tail_lem false line =
    append_assoc line crlf (connection_close ++ (crlf ++ crlf))
    ∙ sym (append_assoc line (crlf ++ (connection_close ++ crlf)) crlf)

module _ (method path version : Bytes) (wm : IsWord method) (wp : IsWord path)
    (wv : IsWord version) where
  request_line_no_feed : contains line_feed (request_line method path version) ≡ false
  request_line_no_feed =
      contains-append line_feed method (space ∷ (path ++ (space ∷ version)))
        (black_no_feed method wm.black)
        (contains-append line_feed path (space ∷ version) (black_no_feed path wp.black)
          (black_no_feed version wv.black))

  request_line-ended :
      ended (request_line method path version)
      ≡ method ++ (space ∷ (path ++ (space ∷ (version ++ crlf))))
  request_line-ended =
      append_assoc method (space ∷ (path ++ (space ∷ version))) crlf
      ∙ ap (λ r. method ++ (space ∷ r)) (append_assoc path (space ∷ version) crlf)

  words_lem :
      words (method ++ (space ∷ (path ++ (space ∷ (version ++ crlf)))))
      ≡ (method, path ∷ (version ∷ []))
  unfolding words is_whitespace
  words_lem =
      let filled = wp.filled in
      let filled' = wv.filled in
      words-append method (path ++ (space ∷ (version ++ crlf))) space wm.black refl
      ∙ ap (λ r. (method, with_word r))
          (words-append path (version ++ crlf) space wp.black refl
            ∙ ap (λ r. (path, with_word r))
                (words-append version (line_feed ∷ []) 13 wv.black refl))
      ∙ rw (filled', filled) refl

  split_request_line :
      split_whitespace (ended (request_line method path version)) ≡ method ∷ (path ∷ (version ∷ []))
  unfolding split_whitespace
  split_request_line =
      let filled = wm.filled in
      ap (λ r. with_word (words r)) request_line-ended ∙ ap with_word words_lem ∙ rw filled refl

  module _ (show_port : ℕ → Bytes) (lines : List Bytes) (host : Bytes) (port : ℕ) where
    abbrev request : Bytes
    request = build_origin_request show_port method path version (map ended lines) host port

    build_lem :
        All IsLine lines
        → request
          ≡ (method ++ (space ∷ (path ++ (space ∷ (version ++ crlf)))))
            ++ (joined_lines (sent_lines show_port lines host port) ++ crlf)
    unfolding build_origin_request
    build_lem h =
        let line = host_text show_port host port in
        let head = method ++ (space ∷ (path ++ (space ∷ (version ++ crlf)))) in
        let tail = (if any_host (kept lines) then [] else line ∷ []) ++ (connection_close ∷ []) in
        ap
          (λ r.
            head
            ++ (r.0
                ++ ((if r.1 then [] else host_line show_port host port ++ crlf)
                    ++ (connection_close ++ (crlf ++ crlf)))))
          (copy_headers-ended lines h)
        ∙ ap
            (λ l.
              head
              ++ (joined_lines (kept lines)
                  ++ ((if any_host (kept lines) then [] else l ++ crlf)
                      ++ (connection_close ++ (crlf ++ crlf)))))
            (host_line_lem show_port host port)
        ∙ ap (λ r. head ++ r)
            (ap (λ r. joined_lines (kept lines) ++ r) (tail_lem (any_host (kept lines)) line)
              ∙ sym (append_assoc (joined_lines (kept lines)) (joined_lines tail) crlf)
              ∙ ap (λ r. r ++ crlf) (sym (joined_lines-append (kept lines) tail)))

    -- Where the request line has words, the client's headers and those that are sent are lines that
    -- are not blank nor too long, and there are not too many: the request that is sent on is read as
    -- the same method and version, the path, and exactly the client's headers other than Connection,
    -- Proxy-Connection and Proxy-Authorization, in order, a host with its port if there was none, in
    -- brackets if it is an IPv6 address, and "Connection: close"; what follows on the stream is the body, as it was.
    pub read_request_head-build_origin_request :
        (body : Bytes)
        → All IsLine lines
        → All IsLine (sent_lines show_port lines host port)
        → length (sent_lines show_port lines host port) ≤ max_http_headers
        → leb (byte_len (ended (request_line method path version))) max_http_line_len ≡ true
        → read_request_head (request ++ body)
          ≡ ok (
            record {
              method = method;
              target = path;
              version = version;
              headers = map ended (sent_lines show_port lines host port);
            },
            body,
          )
    unfolding read_request_head request_line_parts
    read_request_head-build_origin_request body h sent few fits =
        let lines' = sent_lines show_port lines host port in
        let first = request_line method path version in
        let as_lines : request ++ body
            ≡ first ++ (crlf ++ (joined_lines lines' ++ (crlf ++ body))) =
          ap (λ r. r ++ body)
            (build_lem h ∙ ap (λ r. r ++ (joined_lines lines' ++ crlf)) (sym request_line-ended))
          ∙ append_assoc (first ++ crlf) (joined_lines lines' ++ crlf) body
          ∙ append_assoc first crlf ((joined_lines lines' ++ crlf) ++ body)
          ∙ ap (λ r. first ++ (crlf ++ r)) (append_assoc (joined_lines lines') crlf body) in
        let line =
          read_http_line-ended first (joined_lines lines' ++ (crlf ++ body)) request_line_no_feed
            fits in
        let rest = read_headers-joined_lines lines' max_http_headers body sent few in
        rw (as_lines, line, split_request_line, rest) refl
