-- ===== src/Gui/Links/Written.antt =====
-- gui/src/link.rs: the text of an exported link has no blanks.
use juicity_rs.Base.{
  ℕ, ◌≡◌, refl, [], ◌∷◌, ◌++◌, Option, none, some, Bool, true, Bytes, if◌then◌else◌, arith,
  Bool-cases, inl, inr, All, All-joined,
}
use juicity_rs.Protocol.Wire.{colon}
use juicity_rs.Link.Share.{at_sign}
use juicity_rs.Http.Text.{is_whitespace}
use juicity_rs.Gui.Profile.{codes, ProxyProfile}
use juicity_rs.Gui.Address.{format_host_port}
use juicity_rs.Gui.Links.Types.{Codecs, is_named, present}
use juicity_rs.Gui.Links.Export.{param, fragment_text, query_text, serialized, export_params}
use juicity_rs.Gui.Links.Percent.{SerializerLaws}
use juicity_rs.Gui.Links.Ink.{IsInk, inked, IsInkPair, query_text-ink, is_domain, domain_lem}
use juicity_rs.Gui.Links.Fields.{UrlLaws}

-- The text of a link, and its parts as the parser of URLs gives them.
abbrev pub juicity_text : Codecs → ProxyProfile → Bytes
juicity_text c p =
    codes "juicity://"
    ++ ((c.byte_serialize p.uuid ++ (colon ∷ c.byte_serialize p.password))
        ++ (at_sign
            ∷ (format_host_port c.show_port p.server p.server_port
                ++ (query_text c (export_params c p) ++ fragment_text c p.name))))

module _ (c : Codecs) (serial : SerializerLaws c) (laws : UrlLaws c serial) where
  pub byte_serialize-ink : (s : Bytes) → All IsInk (c.byte_serialize s)
  byte_serialize-ink [] = rw serial.serialize-nil tt
  byte_serialize-ink (b ∷ s) = rw (serial.serialize-cons b s) (
      All-joined IsInk (serial.serialize_byte b) (c.byte_serialize s) (laws.serialize_byte-ink b)
        (byte_serialize-ink s))

  param-ink :
      (key : Bytes) (o : Option Bytes) → All IsInk key → All IsInkPair (param key (serialized c o))
  param-ink key none h = tt
  param-ink key (some v) h = ((h, byte_serialize-ink v), tt)

  allow-ink :
      (b : Bool)
      → All IsInkPair (param (codes "allowInsecure") (if b then some (codes "1") else none))
  unfolding is_whitespace
  allow-ink b = ground arith

  export_params-ink : (p : ProxyProfile) → All IsInkPair (export_params c p)
  unfolding export_params is_whitespace
  export_params-ink p =
      All-joined IsInkPair (param (codes "sni") (serialized c (present p.sni))) _
        (param-ink (codes "sni") (present p.sni) (inked (codes "sni") refl))
        (All-joined IsInkPair _ _ (allow-ink p.allow_insecure) (
          All-joined IsInkPair _ _
            (param-ink (codes "congestion_control") (present p.congestion_control)
              (inked (codes "congestion_control") refl))
            (param-ink (codes "pinned_certchain_sha256") (present p.pinned_certchain_sha256)
              (inked (codes "pinned_certchain_sha256") refl))))

  fragment_text-ink : (name : Bytes) → All IsInk (fragment_text c name)
  unfolding is_whitespace
  fragment_text-ink name = elim (Bool-cases (is_named name)) [
    | inl e ↦ rw e (refl, byte_serialize-ink name)
    | inr e ↦ rw e tt
  ]

  format_host_port-ink :
      (host : Bytes) (port : ℕ)
      → is_domain host ≡ true
      → All IsInk (c.show_port port)
      → All IsInk (format_host_port c.show_port host port)
  unfolding format_host_port is_whitespace
  format_host_port-ink host port d h =
      let (plain, ink) = domain_lem host d in
      rw (format_host_port, plain) (All-joined IsInk host _ ink (refl, h))

  pub juicity_text-ink :
      (p : ProxyProfile)
      → is_domain p.server ≡ true
      → All IsInk (c.show_port p.server_port)
      → All IsInk (juicity_text c p)
  unfolding is_whitespace
  juicity_text-ink p d h =
      All-joined IsInk (codes "juicity://") _ (inked (codes "juicity://") refl) (
        All-joined IsInk _ _
          (All-joined IsInk (c.byte_serialize p.uuid) _ (byte_serialize-ink p.uuid)
            (refl, byte_serialize-ink p.password))
          (
            refl,
            All-joined IsInk _ _ (format_host_port-ink p.server p.server_port d h) (
                All-joined IsInk _ _ (query_text-ink c (export_params c p) (export_params-ink p))
                  (fragment_text-ink p.name)),
          ))
