-- ===== src/Tests/Http.antt =====
-- The HTTP inbound at concrete requests, with a parser for one digit.
use juicity_rs.Base.{ℕ, ◌+◌, ◌≡◌, refl, List, [], ◌∷◌, ◌++◌, map, Bytes, ok, arith, retain}
use juicity_rs.Link.{all_digits}
use juicity_rs.Http.Text.{slash, http_scheme, trim, connection_close}
use juicity_rs.Http.{
  Head, read_request_head, build_origin_request, split_proxy_target, tunnel, handle_http_proxy,
}
use juicity_rs.Http.Lines.{IsLine, IsWord, ended}
use juicity_rs.Http.Rewritten.{kept, any_host, sent_lines, read_request_head-build_origin_request}
use juicity_rs.Tests.Link.{one_digit}

abbrev ipv6 : Bytes
ipv6 = b':' ∷ b':' ∷ b'1' ∷ []

abbrev get : Bytes
get = b'G' ∷ b'E' ∷ b'T' ∷ []

abbrev version : Bytes
version = b'V' ∷ []

-- "Host: a" and "connection: x"
abbrev host_header : Bytes
host_header = b'H' ∷ b'o' ∷ b's' ∷ b't' ∷ b':' ∷ b' ' ∷ b'a' ∷ []

abbrev connection_header : Bytes
connection_header =
    b'c' ∷ b'o' ∷ b'n' ∷ b'n' ∷ b'e' ∷ b'c' ∷ b't' ∷ b'i' ∷ b'o' ∷ b'n' ∷ b':' ∷ b' ' ∷ b'x' ∷ []

abbrev headers : List Bytes
headers = host_header ∷ connection_header ∷ []

abbrev show_digit : ℕ → Bytes
show_digit n = (48 + n) ∷ []

abbrev host_IsLine : IsLine host_header
unfolding trim juicity_rs.Http.Text.byte_len
host_IsLine = record { no_return = refl; no_feed = refl; not_blank = refl; fits = refl }

abbrev connection_IsLine : IsLine connection_header
unfolding trim juicity_rs.Http.Text.byte_len
connection_IsLine = record { no_return = refl; no_feed = refl; not_blank = refl; fits = refl }

abbrev close_IsLine : IsLine connection_close
unfolding trim juicity_rs.Http.Text.byte_len
close_IsLine = record { no_return = refl; no_feed = refl; not_blank = refl; fits = refl }

abbrev get_IsWord : IsWord get
unfolding juicity_rs.Http.Text.is_whitespace
get_IsWord = record { filled = refl; black = (refl, (refl, (refl, tt))) }

abbrev slash_IsWord : IsWord (slash ∷ [])
unfolding juicity_rs.Http.Text.is_whitespace
slash_IsWord = record { filled = refl; black = (refl, tt) }

abbrev version_IsWord : IsWord version
unfolding juicity_rs.Http.Text.is_whitespace
version_IsWord = record { filled = refl; black = (refl, tt) }

sent_headers : sent_lines show_digit headers (b'a' ∷ []) 8 ≡ host_header ∷ connection_close ∷ []
unfolding kept any_host retain juicity_rs.Http.Text.eq_ignore_ascii_case juicity_rs.Http.header_name
sent_headers = refl

read_request_head-build_origin_request_example :
    read_request_head (
      build_origin_request show_digit get (slash ∷ []) version (map ended headers) (b'a' ∷ []) 8
      ++ (1 ∷ []))
    ≡ ok (
      record {
        method = get;
        target = slash ∷ [];
        version = version;
        headers = map ended (sent_lines show_digit headers (b'a' ∷ []) 8);
      },
      1 ∷ [],
    )
unfolding kept any_host retain juicity_rs.Http.Text.byte_len
    juicity_rs.Http.Text.eq_ignore_ascii_case juicity_rs.Http.header_name
read_request_head-build_origin_request_example =
    read_request_head-build_origin_request get (slash ∷ []) version get_IsWord slash_IsWord
      version_IsWord show_digit headers (b'a' ∷ []) 8 (1 ∷ [])
      (host_IsLine, (connection_IsLine, tt)) (host_IsLine, (close_IsLine, tt)) (omega arith) refl

-- "CONNECT a:7 V" opens a tunnel, and the bytes behind the head are the tunnel's.
abbrev connect_request : Bytes
connect_request =
    (b'C' ∷ b'O' ∷ b'N' ∷ b'N' ∷ b'E' ∷ b'C' ∷ b'T' ∷ b' ' ∷ b'a' ∷ b':' ∷ b'7' ∷ b' ' ∷ b'V' ∷ 13
      ∷ 10 ∷ [])
    ++ (13 ∷ 10 ∷ 22 ∷ [])

connects :
    handle_http_proxy one_digit show_digit connect_request ≡ ok (tunnel (b'a' ∷ []) 7, 22 ∷ [])
unfolding handle_http_proxy all_digits
connects = refl
