-- ===== src/Http/Text.antt =====
-- client/src/local.rs: the methods of `str` that the HTTP inbound calls, on lists of characters.
use juicity_rs.Base.{
  ℕ, ◌+◌, List, [], ◌∷◌, Option, none, some, Bool, ◌&&◌, ◌||◌, Bytes, map, is_empty, bytes_eq, leb,
  if◌then◌else◌, ◌==◌,
}

abbrev pub slash : ℕ
slash = 47

abbrev pub at_sign : ℕ
at_sign = 64

abbrev pub space : ℕ
space = 32

abbrev pub carriage_return : ℕ
carriage_return = 13

abbrev pub line_feed : ℕ
line_feed = 10

abbrev pub crlf : Bytes
crlf = carriage_return ∷ (line_feed ∷ [])

-- "http://"
abbrev pub http_scheme : Bytes
http_scheme = 104 ∷ 116 ∷ 116 ∷ 112 ∷ 58 ∷ 47 ∷ 47 ∷ []

-- "CONNECT"
abbrev pub connect : Bytes
connect = 67 ∷ 79 ∷ 78 ∷ 78 ∷ 69 ∷ 67 ∷ 84 ∷ []

-- "host", "proxy-connection", "proxy-authorization" and "connection"
abbrev pub name_host : Bytes
name_host = 104 ∷ 111 ∷ 115 ∷ 116 ∷ []

abbrev pub name_connection : Bytes
name_connection = 99 ∷ 111 ∷ 110 ∷ 110 ∷ 101 ∷ 99 ∷ 116 ∷ 105 ∷ 111 ∷ 110 ∷ []

abbrev pub name_proxy_connection : Bytes
name_proxy_connection = 112 ∷ 114 ∷ 111 ∷ 120 ∷ 121 ∷ 45 ∷ name_connection

abbrev pub name_proxy_authorization : Bytes
name_proxy_authorization =
    112 ∷ 114 ∷ 111 ∷ 120 ∷ 121 ∷ 45 ∷ 97 ∷ 117 ∷ 116 ∷ 104 ∷ 111 ∷ 114 ∷ 105 ∷ 122 ∷ 97 ∷ 116 ∷ 105
    ∷ 111 ∷ 110 ∷ []

-- "Host: " and "Connection: close"
abbrev pub host_field : Bytes
host_field = 72 ∷ 111 ∷ 115 ∷ 116 ∷ 58 ∷ 32 ∷ []

abbrev pub connection_close : Bytes
connection_close =
    67 ∷ 111 ∷ 110 ∷ 110 ∷ 101 ∷ 99 ∷ 116 ∷ 105 ∷ 111 ∷ 110 ∷ 58 ∷ 32 ∷ 99 ∷ 108 ∷ 111 ∷ 115 ∷ 101
    ∷ []

-- `str::len`, the bytes of the UTF-8 form.
unfoldable pub byte_len : Bytes → ℕ
byte_len [] = 0
byte_len (c ∷ cs) =
    (if leb c 127 then 1 else if leb c 2047 then 2 else if leb c 65535 then 3 else 4) + byte_len cs

-- `char::is_whitespace`
unfoldable pub is_whitespace : ℕ → Bool
is_whitespace c =
    (leb 9 c && leb c 13)
    || c == 32
    || c == 133
    || c == 160
    || c == 5760
    || (leb 8192 c && leb c 8202)
    || c == 8232
    || c == 8233
    || c == 8239
    || c == 8287
    || c == 12288

unfoldable pub trim_start : Bytes → Bytes
unfolding is_whitespace
trim_start [] = []
trim_start (c ∷ cs) = let trimmed = trim_start cs in if is_whitespace c then trimmed else c ∷ cs

-- `trim_end_matches`
unfoldable pub trim_end_by : (ℕ → Bool) → Bytes → Bytes
trim_end_by p [] = []
trim_end_by p (c ∷ cs) = elim (trim_end_by p cs) [
  | [] ↦ if p c then [] else c ∷ []
  | d ∷ ds ↦ c ∷ (d ∷ ds)
]

unfoldable pub trim : Bytes → Bytes
unfolding trim_start trim_end_by is_whitespace
trim s = trim_start (trim_end_by is_whitespace s)

unfoldable pub is_line_end : ℕ → Bool
is_line_end c = c == carriage_return || c == line_feed

-- `trim_end_matches(['\r', '\n'])`
unfoldable pub trim_line_end : Bytes → Bytes
unfolding trim_end_by is_line_end
trim_line_end s = trim_end_by is_line_end s

unfoldable pub to_ascii_lowercase : ℕ → ℕ
to_ascii_lowercase c = if leb 65 c && leb c 90 then c + 32 else c

unfoldable pub eq_ignore_ascii_case : Bytes → Bytes → Bool
unfolding to_ascii_lowercase
eq_ignore_ascii_case s t = bytes_eq (map to_ascii_lowercase s) (map to_ascii_lowercase t)

unfoldable pub strip_prefix : Bytes → Bytes → Option Bytes
strip_prefix [] s = some s
strip_prefix (p ∷ ps) [] = none
strip_prefix (p ∷ ps) (c ∷ cs) = let rest = strip_prefix ps cs in if p == c then rest else none

abbrev with_front : ℕ → Option (Bytes × Bytes) → Option (Bytes × Bytes)
with_front c none = none
with_front c (some (line, rest)) = some (c ∷ line, rest)

-- A line up to and with its line feed, and the rest.
unfoldable pub take_line : Bytes → Option (Bytes × Bytes)
take_line [] = none
take_line (c ∷ cs) =
    let more = with_front c (take_line cs) in if c == line_feed then some (c ∷ [], cs) else more

abbrev pub with_word : Bytes × List Bytes → List Bytes
with_word (word, words) = if is_empty word then words else word ∷ words

abbrev into_word : ℕ → Bytes × List Bytes → Bytes × List Bytes
into_word c (word, words) = (c ∷ word, words)

-- The word that the text begins with, which may be empty, and the words behind it.
unfoldable pub words : Bytes → Bytes × List Bytes
unfolding is_whitespace
words [] = ([], [])
words (c ∷ cs) =
    let rest = words cs in if is_whitespace c then ([], with_word rest) else into_word c rest

unfoldable pub split_whitespace : Bytes → List Bytes
unfolding words
split_whitespace s = with_word (words s)
