-- ===== src/Http/Brackets.antt =====
-- client/src/local.rs: an IPv6 address without a port as the target of a request.
use juicity_rs.Base.{
  ℕ, ◌≡◌, refl, ap, ◌∙◌, List, [], ◌∷◌, ◌++◌, none, some, true, false, Bytes, err, arith, contains,
}
use juicity_rs.Protocol.Wire.{Hosts, colon, address_parse}
use juicity_rs.Protocol.Header.{build_proxy_header, proxy_addr_type, proxy_addr_bytes}
use juicity_rs.Relay.{open_tcp_stream}
use juicity_rs.Link.{
  LinkError, invalid_ipv6_format, ParseU16, open_bracket, close_bracket, parse_host_port,
  parse_bracketed,
}
use juicity_rs.Link.RoundTrip.{split_first-append}
use juicity_rs.Http.Text.{slash, at_sign, http_scheme, strip_prefix}
use juicity_rs.Http.{drop_userinfo, host_and_port, with_authority, split_proxy_target}
use juicity_rs.Http.Target.{split_path_lem, drop_userinfo_lem}

abbrev pub bracketed : Bytes → Bytes
bracketed host = open_bracket ∷ (host ++ (close_bracket ∷ []))

contains-bracketed :
    (c : ℕ) (host : Bytes)
    → contains c host ≡ true
    → contains c (host ++ (close_bracket ∷ [])) ≡ true
contains-bracketed c [] h = ground (arith, h)
contains-bracketed c (x ∷ xs) h = ground (arith, contains-bracketed c xs)

module _ (parse_u16 : ParseU16) (host : Bytes) (closed : contains close_bracket host ≡ false) where
  bracketed_authority :
      (path : Bytes)
      → with_authority parse_u16 (bracketed host) path ≡ some (bracketed host, (80, path))
  unfolding with_authority host_and_port parse_host_port parse_bracketed juicity_rs.Link.parse_ipv6
  bracketed_authority path =
      rw
        (
          with_authority,
          host_and_port,
          parse_host_port,
          split_first-append close_bracket host [] closed,
        )
        refl

  -- An IPv6 address in brackets, whose text has no '/' nor '@', without a port: the target is the
  -- text with its brackets at port 80. Where this text is no IPv6 address for the standard library,
  -- no stream can be opened for it, so that the request fails.
  pub split_proxy_target-bracketed :
      (net : Hosts) (path : Bytes) (headers : List Bytes)
      → contains colon host ≡ true
      → contains slash (bracketed host) ≡ false
      → contains at_sign (bracketed host) ≡ false
      → net.parse_v6 (bracketed host) ≡ none
      → (split_proxy_target parse_u16 (http_scheme ++ (bracketed host ++ (slash ∷ path))) headers
          ≡ some (bracketed host, (80, slash ∷ path)))
        × (open_tcp_stream net (bracketed host) 80 ≡ err address_parse)
  unfolding split_proxy_target strip_prefix open_tcp_stream build_proxy_header proxy_addr_type
      proxy_addr_bytes
  split_proxy_target-bracketed net path headers has_colon no_slash no_at no_parse = (
    ap (λ r. with_authority parse_u16 (drop_userinfo r.0) r.1)
          (split_path_lem (bracketed host) path no_slash)
        ∙ ap (λ a. with_authority parse_u16 a (slash ∷ path))
            (drop_userinfo_lem none (bracketed host) no_at)
        ∙ bracketed_authority (slash ∷ path),
    rw (contains-bracketed colon host has_colon, no_parse) refl,
  )
