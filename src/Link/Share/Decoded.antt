-- ===== src/Link/Share/Decoded.antt =====
-- common/src/link.rs: a share link, read by the marks between its parts.
use juicity_rs.Base.{
  if◌then◌else◌, sym, append_assoc, All-joined, ℕ, ◌≡◌, refl, ap, ◌∙◌, List, [], ◌∷◌, ◌++◌, Option,
  none, some, Bool, true, false, Bytes, ok, contains, contains-append, map, All, arith, ◌==◌,
}
use juicity_rs.Protocol.Wire.{colon}
use juicity_rs.Gui.Profile.{codes}
use juicity_rs.Link.{ParseU16, split_first}
use juicity_rs.Link.RoundTrip.{split_first-append}
use juicity_rs.Link.Share.{
  Config, at_sign, question_mark, ampersand, equals_sign, scheme, key_congestion_control,
  key_pinned, credentials, or_value, filled, unwrap_or, optional, query_parts, joined_query,
  link_text, server_host_port, generate_share_link,
}

-- The parts of a link behind its scheme: the user and the password, the address, and the query.
pub record Parts : Type 0 where
  pub uuid : Bytes
  pub password : Bytes
  pub address : Bytes
  pub query : Bytes

unfoldable pub cut : Bytes → Option Parts
unfolding split_first
cut s = elim (split_first at_sign s) [
  | none ↦ none
  | some (user, rest) ↦ elim (split_first colon user) [
    | none ↦ none
    | some (uuid, password) ↦ elim (split_first question_mark rest) [
      | none ↦ none
      | some (address, query) ↦
          some (record { uuid = uuid; password = password; address = address; query = query })
    ]
  ]
]

-- The parts between the occurrences of a mark.
abbrev in_first : ℕ → List Bytes → List Bytes
in_first x [] = []
in_first x (part ∷ parts) = (x ∷ part) ∷ parts

unfoldable pub split_all : ℕ → Bytes → List Bytes
split_all c [] = [] ∷ []
split_all c (x ∷ xs) = let rest = split_all c xs in if x == c then [] ∷ rest else in_first x rest

-- The parameters of a query.
unfoldable pub parameters : Bytes → List (Option (Bytes × Bytes))
unfolding split_all split_first
parameters query = map (split_first equals_sign) (split_all ampersand query)

split_all-one : (c : ℕ) (part : Bytes) → contains c part ≡ false → split_all c part ≡ part ∷ []
unfolding split_all
split_all-one c [] h = refl
split_all-one c (x ∷ xs) h = ground (arith, split_all-one c xs)

split_all-append :
    (c : ℕ) (part rest : Bytes)
    → contains c part ≡ false
    → split_all c (part ++ (c ∷ rest)) ≡ part ∷ split_all c rest
unfolding split_all
split_all-append c [] rest h = ground arith
split_all-append c (x ∷ xs) rest h = ground (arith, split_all-append c xs rest)

-- A text without the marks of a link.
pub record IsClean (s : Bytes) : Type 0 where
  pub no_at : contains at_sign s ≡ false
  pub no_colon : contains colon s ≡ false
  pub no_question : contains question_mark s ≡ false
  pub no_ampersand : contains ampersand s ≡ false
  pub no_equals : contains equals_sign s ≡ false

abbrev pub IsCleanPart : Bytes × Bytes → Type 0
IsCleanPart (key, value) = IsClean key × IsClean value

-- What a link says: the name of the server is the override, else that of the configuration, else the
-- host; the rest is the override, if it is there and not empty, else what the configuration has.
abbrev pub sni_value : Option Bytes → Bytes → Bytes → Bytes
sni_value (some name) configured host = name
sni_value none [] host = host
sni_value none (x ∷ xs) host = x ∷ xs

abbrev pub stated : Bytes → Option Bytes
stated [] = none
stated (x ∷ xs) = some (x ∷ xs)

abbrev pub pinned_value : Option Bytes → Bytes → Option Bytes
pinned_value (some (x ∷ xs)) configured = some (x ∷ xs)
pinned_value _ configured = stated configured

module _ (encode : Bytes → Bytes) (show_port : ℕ → Bytes) (parse_u16 : ParseU16) where
  -- The parameters are the four, those that have no value left out.
  abbrev pub with_value : Bytes → Option Bytes → List (Bytes × Bytes)
  with_value key none = []
  with_value key (some value) = (key, encode value) ∷ []

  abbrev pub stated_parts : Config → Bytes → Option Bytes → Option Bytes → List (Bytes × Bytes)
  stated_parts c host sni cert =
      (codes "sni", encode (sni_value sni c.sni host))
      ∷ (with_value (codes "congestion_control") (stated c.congestion_control)
          ++ ((codes "allow_insecure", (if c.allow_insecure then codes "1" else codes "0"))
              ∷ with_value (codes "pinned_certchain_sha256")
                  (pinned_value cert c.pinned_certchain_sha256)))

  sni_lem :
      (o : Option Bytes) (configured host : Bytes)
      → unwrap_or (or_value o configured) host ≡ sni_value o configured host
  unfolding or_value
  sni_lem none [] host = refl
  sni_lem none (x ∷ xs) host = refl
  sni_lem (some s) configured host = refl

  stated_lem : (s : Bytes) → or_value none s ≡ stated s
  unfolding or_value
  stated_lem [] = refl
  stated_lem (x ∷ xs) = refl

  pinned_lem : (o : Option Bytes) (s : Bytes) → or_value (filled o) s ≡ pinned_value o s
  unfolding or_value filled
  pinned_lem none s = stated_lem s
  pinned_lem (some []) s = stated_lem s
  pinned_lem (some (x ∷ xs)) s = refl

  optional_lem :
      (key : Bytes) (o : Option Bytes)
      → optional encode show_port parse_u16 key o ≡ with_value key o
  optional_lem key none = refl
  optional_lem key (some v) = refl

  query_parts-stated_parts :
      (c : Config) (host : Bytes) (sni cert : Option Bytes)
      → query_parts encode show_port parse_u16 c host sni cert ≡ stated_parts c host sni cert
  unfolding query_parts
  query_parts-stated_parts c host sni cert =
      rw
        (
          query_parts,
          sni_lem sni c.sni host,
          stated_lem c.congestion_control,
          pinned_lem cert c.pinned_certchain_sha256,
        )
        (λ i.
          (codes "sni", encode (sni_value sni c.sni host))
          ∷ (optional_lem (codes "congestion_control") (stated c.congestion_control) i
              ++ ((codes "allow_insecure", (if c.allow_insecure then codes "1" else codes "0"))
                  ∷ optional_lem (codes "pinned_certchain_sha256")
                      (pinned_value cert c.pinned_certchain_sha256) i)))

  part_lem :
      (key value : Bytes)
      → IsClean key
      → IsClean value
      → contains ampersand (key ++ (equals_sign ∷ value)) ≡ false
  part_lem key value k v =
      contains-append ampersand key (equals_sign ∷ value) k.no_ampersand v.no_ampersand

  parameters-joined_query :
      (part : Bytes × Bytes) (parts : List (Bytes × Bytes))
      → All IsCleanPart (part ∷ parts)
      → parameters (joined_query encode show_port parse_u16 (part ∷ parts))
        ≡ map some (part ∷ parts)
  unfolding parameters joined_query
  parameters-joined_query (key, value) [] ((k, v), hs) =
      rw
        (
          parameters,
          split_all-one ampersand (key ++ (equals_sign ∷ value)) (part_lem key value k v),
          split_first-append equals_sign key value k.no_equals,
        )
        refl
  parameters-joined_query (key, value) (part ∷ parts) ((k, v), hs) =
      let rest = parameters-joined_query part parts hs in
      ap (map (split_first equals_sign)) (
        split_all-append ampersand (key ++ (equals_sign ∷ value))
          (joined_query encode show_port parse_u16 (part ∷ parts)) (part_lem key value k v))
      ∙ ap (λ r. r ∷ parameters (joined_query encode show_port parse_u16 (part ∷ parts)))
          (split_first-append equals_sign key value k.no_equals)
      ∙ ap (λ r. some (key, value) ∷ r) rest

  cut_lem :
      (uuid password address query : Bytes)
      → IsClean uuid
      → IsClean password
      → contains question_mark address ≡ false
      → cut (uuid ++ (colon ∷ (password ++ (at_sign ∷ (address ++ (question_mark ∷ query))))))
        ≡ some (record { uuid = uuid; password = password; address = address; query = query })
  unfolding cut
  cut_lem uuid password address query u p a =
      let user = contains-append at_sign uuid (colon ∷ password) u.no_at p.no_at in
      let rest = address ++ (question_mark ∷ query) in
      ap cut (sym (append_assoc uuid (colon ∷ password) (at_sign ∷ rest)))
      ∙ rw
          (
            cut,
            split_first-append at_sign (uuid ++ (colon ∷ password)) rest user,
            split_first-append colon uuid password u.no_colon,
            split_first-append question_mark address query a,
          )
          refl

  module _ (clean : (s : Bytes) → IsClean (encode s)) where
    optional-IsCleanPart :
        (key : Bytes) (value : Option Bytes)
        → IsClean key
        → All IsCleanPart (optional encode show_port parse_u16 key value)
    optional-IsCleanPart key none h = tt
    optional-IsCleanPart key (some value) h = ((h, clean value), tt)

    flag-IsClean : (b : Bool) → IsClean (if b then b'1' ∷ [] else b'0' ∷ [])
    flag-IsClean true = record {
      no_at = refl;
      no_colon = refl;
      no_question = refl;
      no_ampersand = refl;
      no_equals = refl;
    }
    flag-IsClean false = record {
      no_at = refl;
      no_colon = refl;
      no_question = refl;
      no_ampersand = refl;
      no_equals = refl;
    }

    query_parts-IsCleanPart :
        (c : Config) (host : Bytes) (sni cert : Option Bytes)
        → All IsCleanPart (query_parts encode show_port parse_u16 c host sni cert)
    unfolding query_parts
    query_parts-IsCleanPart c host sni cert = (
      (
        record {
          no_at = refl;
          no_colon = refl;
          no_question = refl;
          no_ampersand = refl;
          no_equals = refl;
        },
        clean (unwrap_or (or_value sni c.sni) host),
      ),
      All-joined IsCleanPart
          (optional encode show_port parse_u16 key_congestion_control
            (or_value none c.congestion_control))
          _
          (optional-IsCleanPart key_congestion_control (or_value none c.congestion_control)
            (record {
              no_at = refl;
              no_colon = refl;
              no_question = refl;
              no_ampersand = refl;
              no_equals = refl;
            }))
          (
            (
              record {
                no_at = refl;
                no_colon = refl;
                no_question = refl;
                no_ampersand = refl;
                no_equals = refl;
              },
              flag-IsClean c.allow_insecure,
            ),
            optional-IsCleanPart key_pinned (or_value (filled cert) c.pinned_certchain_sha256)
                (record {
                  no_at = refl;
                  no_colon = refl;
                  no_question = refl;
                  no_ampersand = refl;
                  no_equals = refl;
                }),
          ),
    )

    -- Where the encoder leaves no '@', ':', '?', '&' nor '=', and neither the host nor the printed
    -- port has a '?': for a configuration with these credentials and this address a link is
    -- generated, the scheme and a text that the marks cut into the encoded user and password, the
    -- host (the override, if there is one) with the port, and a query whose parameters are exactly,
    -- whatever characters the values have: the name of the server (the override, else that of the
    -- configuration, else the host), the congestion control unless it is empty, "1" or "0" for
    -- insecure connections, and the hash of the certificate chain (the override unless it is empty,
    -- else that of the configuration) unless it is empty.
    pub generate_share_link-cut :
        (c : Config) (host_override sni cert : Option Bytes) (uuid password base_host : Bytes)
        (port : ℕ)
        → credentials c ≡ some (uuid, password)
        → server_host_port encode show_port parse_u16 c ≡ ok (base_host, port)
        → contains question_mark (unwrap_or host_override base_host ++ (colon ∷ show_port port))
          ≡ false
        → (rest query : Bytes) × (generate_share_link encode show_port parse_u16 c host_override sni
              cert
            ≡ ok (scheme ++ rest))
          × (cut rest
              ≡ some (record {
                uuid = encode uuid;
                password = encode password;
                address = unwrap_or host_override base_host ++ (colon ∷ show_port port);
                query = query;
              }))
          × (parameters query
              ≡ map some (stated_parts c (unwrap_or host_override base_host) sni cert))
    unfolding generate_share_link link_text query_parts
    generate_share_link-cut c host_override sni cert uuid password base_host port user target
          no_question =
        let host = unwrap_or host_override base_host in
        let parts = query_parts encode show_port parse_u16 c host sni cert in
        let query = joined_query encode show_port parse_u16 parts in
        let behind = question_mark ∷ query in
        let address = host ++ (colon ∷ show_port port) in
        (
          encode uuid
              ++ (colon
                  ∷ (encode password
                      ++ (at_sign ∷ (host ++ (colon ∷ (show_port port ++ behind)))))),
          query,
          rw (generate_share_link, user, target) refl,
          ap (λ t. cut (encode uuid ++ (colon ∷ (encode password ++ (at_sign ∷ t)))))
                (sym (append_assoc host (colon ∷ show_port port) behind))
              ∙ cut_lem (encode uuid) (encode password) address query (clean uuid) (clean password)
                  no_question,
          parameters-joined_query _ _ (query_parts-IsCleanPart c host sni cert)
              ∙ ap (map some) (query_parts-stated_parts c host sni cert),
        )
