-- ===== src/Http/Lines.antt =====
-- client/src/local.rs: how the lines of a request are read.
use juicity_rs.Base.{
  ℕ, zero, suc, ◌≤◌, ◌≡◌, refl, List, [], ◌∷◌, ◌++◌, append_assoc, map, some, true, false, Bytes,
  ok, arith, length, contains, is_empty, leb, All,
}
use juicity_rs.Http.Text.{
  carriage_return, line_feed, space, crlf, byte_len, is_whitespace, trim, trim_end_by, is_line_end,
  trim_line_end, take_line, with_word, words, split_whitespace,
}
use juicity_rs.Http.{max_http_line_len, HttpError, read_http_line, read_headers}

-- A line without its end: no line end within, not blank, and not too long.
pub record IsLine (line : Bytes) : Type 0 where
  pub no_return : contains carriage_return line ≡ false
  pub no_feed : contains line_feed line ≡ false
  pub not_blank : is_empty (trim (line ++ crlf)) ≡ false
  pub fits : leb (byte_len (line ++ crlf)) max_http_line_len ≡ true

abbrev pub ended : Bytes → Bytes
ended line = line ++ crlf

-- Lines, each with its end.
unfoldable pub joined_lines : List Bytes → Bytes
joined_lines [] = []
joined_lines (line ∷ lines) = line ++ (crlf ++ joined_lines lines)

take_line-ended :
    (line rest : Bytes)
    → contains line_feed line ≡ false
    → take_line (line ++ (crlf ++ rest)) ≡ some (ended line, rest)
unfolding take_line
take_line-ended [] rest h = refl
take_line-ended (c ∷ cs) rest h = ground (arith, take_line-ended cs rest)

pub read_http_line-ended :
    (line rest : Bytes)
    → contains line_feed line ≡ false
    → leb (byte_len (line ++ crlf)) max_http_line_len ≡ true
    → read_http_line (line ++ (crlf ++ rest)) ≡ ok (ended line, rest)
unfolding read_http_line
read_http_line-ended line rest no_feed fits =
    rw (read_http_line, take_line-ended line rest no_feed, fits) refl

pub trim_line_end-ended :
    (line : Bytes)
    → contains carriage_return line ≡ false
    → contains line_feed line ≡ false
    → trim_line_end (ended line) ≡ line
unfolding trim_line_end trim_end_by is_line_end
trim_line_end-ended [] h h' = refl
trim_line_end-ended (c ∷ []) h h' = ground arith
trim_line_end-ended (c ∷ (d ∷ ds)) h h' = ground (arith, trim_line_end-ended (d ∷ ds))

-- The headers that were written line by line, and a blank line, are read again.
pub read_headers-joined_lines :
    (lines : List Bytes) (more : ℕ) (body : Bytes)
    → All IsLine lines
    → length lines ≤ more
    → read_headers more (joined_lines lines ++ (crlf ++ body)) ≡ ok (map ended lines, body)
unfolding read_headers joined_lines trim trim_end_by juicity_rs.Http.Text.trim_start
read_headers-joined_lines [] zero body h few = refl
read_headers-joined_lines [] (suc more) body h few = refl
read_headers-joined_lines (line ∷ lines) zero body h few = absurd (omega (arith, few))
read_headers-joined_lines (line ∷ lines) (suc more) body (h, hs) few =
    let read = read_http_line-ended line (joined_lines lines ++ (crlf ++ body)) h.no_feed h.fits in
    let not_blank = h.not_blank in
    let rest = read_headers-joined_lines lines more body hs (omega (arith, few)) in
    rw (append_assoc line (crlf ++ joined_lines lines) (crlf ++ body), read, not_blank, rest) refl

-- A word of a request line.
pub record IsWord (word : Bytes) : Type 0 where
  pub filled : is_empty word ≡ false
  pub black : All (λ c. is_whitespace c ≡ false) word

pub words-append :
    (word rest : Bytes) (c : ℕ)
    → All (λ d. is_whitespace d ≡ false) word
    → is_whitespace c ≡ true
    → words (word ++ (c ∷ rest)) ≡ (word, with_word (words rest))
unfolding words
words-append [] rest c h blank = rw blank refl
words-append (d ∷ ds) rest c (h, hs) blank = rw (h, words-append ds rest c hs blank) refl
