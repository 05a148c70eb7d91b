-- ===== src/Gui/Links/Export.antt =====
-- gui/src/link.rs: the export of a node as a link.
use juicity_rs.Base.{
  List, [], ◌∷◌, ◌++◌, Option, none, some, ◌||◌, Bytes, is_empty, if◌then◌else◌, Result, ok, err,
}
use juicity_rs.Protocol.Wire.{colon}
use juicity_rs.Link.Share.{at_sign, question_mark, ampersand, equals_sign}
use juicity_rs.Gui.Profile.{codes, juicity, shadowsocks, ProxyProfile}
use juicity_rs.Gui.Address.{format_host_port}
use juicity_rs.Gui.Links.Types.{
  Codecs, ExportError, incomplete, is_named, semicolon, hash_mark, present,
}

-- `if let Some(v) = .. { params.push(format!("{key}={}", ..)) }`, by the key and the value.
abbrev pub param : Bytes → Option Bytes → List (Bytes × Bytes)
param key none = []
param key (some value) = (key, value) ∷ []

module _ (c : Codecs) where
  -- The name behind a '#'.
  abbrev pub fragment_text : Bytes → Bytes
  fragment_text name = if is_named name then hash_mark ∷ c.byte_serialize name else []

  -- The parameters of the query, `key=value` each, behind a '?'.
  unfoldable pub joined_params : List (Bytes × Bytes) → Bytes
  joined_params [] = []
  joined_params ((k, v) ∷ []) = k ++ (equals_sign ∷ v)
  joined_params ((k, v) ∷ (p ∷ ps)) =
      (k ++ (equals_sign ∷ v)) ++ (ampersand ∷ joined_params (p ∷ ps))

  unfoldable pub query_text : List (Bytes × Bytes) → Bytes
  unfolding joined_params
  query_text ps = if is_empty ps then [] else question_mark ∷ joined_params ps

  abbrev pub serialized : Option Bytes → Option Bytes
  serialized none = none
  serialized (some value) = some (c.byte_serialize value)

  -- Each parameter with its encoded value.
  unfoldable pub export_params : ProxyProfile → List (Bytes × Bytes)
  export_params p =
      param (codes "sni") (serialized (present p.sni))
      ++ (param (codes "allowInsecure") (if p.allow_insecure then some (codes "1") else none)
          ++ (param (codes "congestion_control") (serialized (present p.congestion_control))
              ++ param (codes "pinned_certchain_sha256")
                  (serialized (present p.pinned_certchain_sha256))))

  unfoldable pub export_juicity_link : ProxyProfile → Result ExportError Bytes
  unfolding format_host_port export_params query_text
  export_juicity_link p =
      if is_empty p.server || (is_empty p.uuid || is_empty p.password)
      then err incomplete
      else ok (
          codes "juicity://"
          ++ ((c.byte_serialize p.uuid ++ (colon ∷ c.byte_serialize p.password))
              ++ (at_sign
                  ∷ (format_host_port c.show_port p.server p.server_port
                      ++ (query_text (export_params p) ++ fragment_text p.name)))))

  -- The plugin with its options behind a ';'.
  unfoldable pub plugin_text : Option Bytes → Option Bytes → Bytes
  plugin_text plugin opts = elim (present plugin) [
    | none ↦ []
    | some prog ↦
        question_mark
        ∷ (codes "plugin="
            ++ c.byte_serialize
                (elim (present opts) [ none ↦ prog | some rest ↦ prog ++ (semicolon ∷ rest) ]))
  ]

  unfoldable pub export_ss_link : ProxyProfile → Result ExportError Bytes
  unfolding format_host_port plugin_text
  export_ss_link p =
      if is_empty p.server || is_empty p.password
      then err incomplete
      else ok (
          codes "ss://"
          ++ (c.url_safe_no_pad_encode (p.method ++ (colon ∷ p.password))
              ++ (at_sign
                  ∷ (format_host_port c.show_port p.server p.server_port
                      ++ (plugin_text p.plugin p.plugin_opts ++ fragment_text p.name)))))

  unfoldable pub export_share_link : ProxyProfile → Result ExportError Bytes
  unfolding export_juicity_link export_ss_link
  export_share_link p = elim p.protocol [
    | juicity ↦ export_juicity_link p
    | shadowsocks ↦ export_ss_link p
  ]
