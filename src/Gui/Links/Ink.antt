-- ===== src/Gui/Links/Ink.antt =====
-- Texts without blanks, which `trim` leaves as they are; gui/src/link.rs trims what it imports.
use juicity_rs.Base.{
  ℕ, ◌≡◌, refl, ap, ◌∙◌, List, [], ◌∷◌, ◌++◌, Bool, true, false, not, ◌&&◌, ◌||◌, Bytes, contains,
  ◌==◌, leb, arith, All, All-joined,
}
use juicity_rs.Protocol.Wire.{colon}
use juicity_rs.Link.Share.{ampersand, equals_sign}
use juicity_rs.Http.Text.{trim, trim_start, trim_end_by, is_whitespace}
use juicity_rs.Gui.Links.Types.{Codecs}
use juicity_rs.Gui.Links.Export.{joined_params, query_text}

abbrev pub IsInk : ℕ → Type 0
IsInk b = is_whitespace b ≡ false

-- The same, as a test.
abbrev no_blanks : Bytes → Bool
no_blanks [] = true
no_blanks (b ∷ s) = not (is_whitespace b) && no_blanks s

pub inked : (s : Bytes) → no_blanks s ≡ true → All IsInk s
inked [] h = tt
inked (b ∷ s) h = ground (arith, inked s)

-- A text without blanks is left by `trim`.
trim_start-ink : (s : Bytes) → All IsInk s → trim_start s ≡ s
unfolding trim_start
trim_start-ink [] h = refl
trim_start-ink (x ∷ xs) (h, hs) = rw h refl

trim_end_by-ink : (s : Bytes) → All IsInk s → trim_end_by is_whitespace s ≡ s
unfolding trim_end_by
trim_end_by-ink [] h = refl
trim_end_by-ink (x ∷ []) (h, hs) = rw h refl
trim_end_by-ink (x ∷ (y ∷ ys)) (h, hs) = rw (trim_end_by, trim_end_by-ink (y ∷ ys) hs) refl

pub trim-ink : (s : Bytes) → All IsInk s → trim s ≡ s
unfolding trim
trim-ink s h = ap trim_start (trim_end_by-ink s h) ∙ trim_start-ink s h

abbrev pub IsInkPair : Bytes × Bytes → Type 0
IsInkPair (k, v) = All IsInk k × All IsInk v

joined_params-ink :
    (c : Codecs) (ps : List (Bytes × Bytes)) → All IsInkPair ps → All IsInk (joined_params c ps)
unfolding joined_params is_whitespace
joined_params-ink c [] h = tt
joined_params-ink c ((k, v) ∷ []) ((hk, hv), h) = All-joined IsInk k (equals_sign ∷ v) hk (refl, hv)
joined_params-ink c ((k, v) ∷ (p ∷ ps)) ((hk, hv), h) =
    All-joined IsInk (k ++ (equals_sign ∷ v)) (ampersand ∷ joined_params c (p ∷ ps))
      (All-joined IsInk k (equals_sign ∷ v) hk (refl, hv)) (refl, joined_params-ink c (p ∷ ps) h)

pub query_text-ink :
    (c : Codecs) (ps : List (Bytes × Bytes)) → All IsInkPair ps → All IsInk (query_text c ps)
unfolding query_text is_whitespace
query_text-ink c [] h = tt
query_text-ink c (p ∷ ps) h = (refl, joined_params-ink c (p ∷ ps) h)

-- A name of a server: letters, digits, '-' and '.'.
abbrev pub is_domain_char : ℕ → Bool
is_domain_char x =
    (leb 97 x && leb x 122)
    || (leb 65 x && leb x 90)
    || (leb 48 x && leb x 57)
    || x == 45
    || x == 46

abbrev pub is_domain : Bytes → Bool
is_domain [] = true
is_domain (x ∷ xs) = is_domain_char x && is_domain xs

pub domain_lem : (s : Bytes) → is_domain s ≡ true → (contains colon s ≡ false) × All IsInk s
unfolding is_whitespace
domain_lem [] h = (refl, tt)
domain_lem (x ∷ xs) h = ground (arith, domain_lem xs)
