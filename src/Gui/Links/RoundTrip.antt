-- ===== src/Gui/Links/RoundTrip.antt =====
-- gui/src/link.rs: a node that is exported as a link and imported again.
use juicity_rs.Base.{
  ℕ, ◌≡◌, refl, ◌∙◌, [], ◌∷◌, ◌++◌, Option, none, some, true, false, Bytes, map, is_empty, ok,
  if◌then◌else◌, arith, Bool-cases, inl, inr, All,
}
use juicity_rs.Http.Text.{strip_prefix}
use juicity_rs.Gui.Profile.{codes, juicity, ProxyProfile}
use juicity_rs.Gui.Links.Types.{Codecs, Url, ImportedShareLink, is_named, present}
use juicity_rs.Gui.Links.Import.{host_colon_port, link_name, parse_juicity_link, import_share_link}
use juicity_rs.Gui.Links.Export.{export_params, export_juicity_link, export_share_link}
use juicity_rs.Gui.Links.Percent.{SerializerLaws, plus_for_space, percent_decode-byte_serialize}
use juicity_rs.Gui.Links.Ink.{IsInk, trim-ink, is_domain}
use juicity_rs.Gui.Links.Fields.{UrlLaws, normalized, fields_lem}
use juicity_rs.Gui.Links.Written.{juicity_text, byte_serialize-ink, juicity_text-ink}

nonempty_append : (s t : Bytes) → is_empty s ≡ false → is_empty (s ++ t) ≡ false
nonempty_append [] t h = cc
nonempty_append (x ∷ s) t h = refl

-- A pair whose key and value have no blanks.
abbrev pub named_fragment : Codecs → Bytes → Option Bytes
named_fragment c name = if is_named name then some (c.byte_serialize name) else none

abbrev pub juicity_url : Codecs → (Bytes → Bytes) → ProxyProfile → Url
juicity_url c form_decode p = record {
  scheme = codes "juicity";
  username = c.byte_serialize p.uuid;
  password = some (c.byte_serialize p.password);
  host_str = some p.server;
  port = some p.server_port;
  query_pairs = map (λ (kv : Bytes × Bytes). (kv.0, form_decode kv.1)) (export_params c p);
  fragment = named_fragment c p.name;
}

module _ (c : Codecs) (serial : SerializerLaws c) (laws : UrlLaws c serial) where
  byte_serialize-nonempty : (s : Bytes) → is_empty s ≡ false → is_empty (c.byte_serialize s) ≡ false
  byte_serialize-nonempty [] h = cc
  byte_serialize-nonempty (b ∷ s) h =
      rw (serial.serialize-cons b s) (
        nonempty_append (serial.serialize_byte b) (c.byte_serialize s) (laws.serialize_byte-cons b))

  name_lem :
      (name host : Bytes) (port : ℕ)
      → c.is_utf8 (map plus_for_space name) ≡ true
      → link_name c (named_fragment c name) host port
        ≡ (if is_named name then map plus_for_space name else host_colon_port c host port)
  unfolding link_name
  name_lem name host port u = elim (Bool-cases (is_named name)) [
    | inr e ↦ rw e refl
    | inl e ↦
        let there : is_empty name ≡ false = ground (arith, e) in
        rw
          (
            e,
            trim-ink (c.byte_serialize name) (byte_serialize-ink c serial laws name),
            byte_serialize-nonempty name there,
          )
          (percent_decode-byte_serialize c serial name u)
  ]

  abbrev pub plussed : Bytes → Bytes
  plussed = map plus_for_space

  -- The node that is imported.
  abbrev pub reimported : ProxyProfile → ImportedShareLink
  reimported p = record {
    protocol = juicity;
    name = if is_named p.name then plussed p.name else host_colon_port c p.server p.server_port;
    server = p.server;
    server_port = p.server_port;
    password = plussed p.password;
    uuid = plussed p.uuid;
    sni = present p.sni;
    allow_insecure = p.allow_insecure;
    pinned_certchain_sha256 = present p.pinned_certchain_sha256;
    congestion_control = normalized (present p.congestion_control);
    method = [];
    plugin = none;
    plugin_opts = none;
  }

  abbrev pub IsComplete : ProxyProfile → Type 0
  IsComplete p =
      (is_empty p.server ≡ false) × (is_empty p.uuid ≡ false) × (is_empty p.password ≡ false)

  abbrev pub IsText : ProxyProfile → Type 0
  IsText p =
      (c.is_utf8 (plussed p.name) ≡ true)
      × (c.is_utf8 (plussed p.uuid) ≡ true)
      × (c.is_utf8 (plussed p.password) ≡ true)

  exported_lem :
      (p : ProxyProfile)
      → p.protocol ≡ juicity
      → IsComplete p
      → export_share_link c p ≡ ok (juicity_text c p)
  unfolding export_share_link export_juicity_link
  exported_lem p j (s, u, w) = rw (export_share_link, j, export_juicity_link, s, u, w) refl

  imported_lem :
      (p : ProxyProfile)
      → IsComplete p
      → IsText p
      → c.parse_url (juicity_text c p) ≡ some (juicity_url c laws.form_decode p)
      → parse_juicity_link c (juicity_text c p) ≡ ok (reimported p)
  unfolding parse_juicity_link
  imported_lem p (s, u, w) (n, tu, tw) url =
      rw
        (
          parse_juicity_link,
          url,
          byte_serialize-nonempty p.uuid u,
          byte_serialize-nonempty p.password w,
          fields_lem c serial laws p,
          name_lem p.name p.server p.server_port n,
          percent_decode-byte_serialize c serial p.uuid tu,
          percent_decode-byte_serialize c serial p.password tw,
        )
        refl

  link_lem :
      (s : Bytes)
      → All IsInk (codes "juicity://" ++ s)
      → import_share_link c (codes "juicity://" ++ s)
        ≡ parse_juicity_link c (codes "juicity://" ++ s)
  unfolding import_share_link strip_prefix
  link_lem s h = rw (import_share_link, trim-ink (codes "juicity://" ++ s) h) refl

  -- A juicity node with a server, a UUID and a password, whose server is a domain name, whose port is
  -- printed without blanks and whose name, UUID and password are UTF-8 text, is exported as a link;
  -- where the parser of URLs takes this link apart at its delimiters, decoding the values of the query
  -- only, the import of the link gives the node again, with a '+' for every space of its name, UUID and
  -- password, with its host and port for a name that is empty or "New Server", with empty options
  -- left out and the congestion control normalized.
  pub import_share_link-export_share_link :
      (p : ProxyProfile)
      → p.protocol ≡ juicity
      → IsComplete p
      → IsText p
      → is_domain p.server ≡ true
      → All IsInk (c.show_port p.server_port)
      → c.parse_url (juicity_text c p) ≡ some (juicity_url c laws.form_decode p)
      → (export_share_link c p ≡ ok (juicity_text c p))
        × (import_share_link c (juicity_text c p) ≡ ok (reimported p))
  import_share_link-export_share_link p j full text d shown url = (
    exported_lem p j full,
    link_lem _ (juicity_text-ink c serial laws p d shown) ∙ imported_lem p full text url,
  )
