-- ===== src/Http/Target.antt =====
-- client/src/local.rs: the target of an absolute-form request.
use juicity_rs.Base.{
  ℕ, ◌≡◌, refl, ap, ◌∙◌, List, [], ◌∷◌, ◌++◌, append_assoc, Option, none, some, true, false, Bytes,
  ok, arith, contains, is_empty,
}
use juicity_rs.Link.{ParseU16, open_bracket, close_bracket, all_digits, parse_host_port}
use juicity_rs.Link.RoundTrip.{
  host_port, split_first-append, split_last-none, split_last-append, parse_host_port-host_port,
}
use juicity_rs.Http.Text.{slash, at_sign, http_scheme, strip_prefix}
use juicity_rs.Http.{split_path, drop_userinfo, host_and_port, with_authority, split_proxy_target}

-- User information, if there is any.
abbrev pub userinfo : Option Bytes → Bytes
userinfo none = []
userinfo (some user) = user ++ (at_sign ∷ [])

pub drop_userinfo_lem :
    (user : Option Bytes) (authority : Bytes)
    → contains at_sign authority ≡ false
    → drop_userinfo (userinfo user ++ authority) ≡ authority
unfolding drop_userinfo
drop_userinfo_lem none authority h = rw (drop_userinfo, split_last-none at_sign authority h) refl
drop_userinfo_lem (some user) authority h =
    rw
      (
        append_assoc user (at_sign ∷ []) authority,
        drop_userinfo,
        split_last-append at_sign user authority h,
      )
      refl

host_port-nonempty : (host port_str : Bytes) → is_empty (host_port host port_str) ≡ false
unfolding host_port
host_port-nonempty [] port_str = ground arith
host_port-nonempty (c ∷ host) port_str = ground arith

pub split_path_lem :
    (authority path : Bytes)
    → contains slash authority ≡ false
    → split_path (authority ++ (slash ∷ path)) ≡ (authority, slash ∷ path)
unfolding split_path
split_path_lem authority path h = rw (split_path, split_first-append slash authority path h) refl

module _ (parse_u16 : ParseU16) where
  with_authority_lem :
      (authority path host : Bytes) (port : ℕ)
      → is_empty authority ≡ false
      → parse_host_port parse_u16 authority ≡ ok (host, port)
      → with_authority parse_u16 authority path ≡ some (host, (port, path))
  unfolding with_authority host_and_port
  with_authority_lem authority path host port filled parses =
      rw (with_authority, filled, host_and_port, parses) refl

  -- Where a host without brackets and a port in digits, that the parser of `u16` accepts, are
  -- written with no '/' nor '@', and the user information has no '/': the absolute form with the
  -- user information, if any, the host and port (in brackets if the host has a colon) and a path
  -- from a '/' on gives the host, the port and the path.
  pub split_proxy_target-host_port :
      (user : Option Bytes) (host port_str path : Bytes) (port : ℕ) (headers : List Bytes)
      → parse_u16 port_str ≡ some port
      → contains open_bracket host ≡ false
      → contains close_bracket host ≡ false
      → all_digits port_str ≡ true
      → is_empty port_str ≡ false
      → contains slash (userinfo user ++ host_port host port_str) ≡ false
      → contains at_sign (host_port host port_str) ≡ false
      → split_proxy_target parse_u16
          (http_scheme ++ ((userinfo user ++ host_port host port_str) ++ (slash ∷ path)))
          headers
        ≡ some (host, (port, slash ∷ path))
  unfolding split_proxy_target strip_prefix
  split_proxy_target-host_port user host port_str path port headers parses no_open no_close digits
        some_digit no_slash no_at =
      let authority = host_port host port_str in
      ap (λ r. with_authority parse_u16 (drop_userinfo r.0) r.1)
        (split_path_lem (userinfo user ++ authority) path no_slash)
      ∙ ap (λ a. with_authority parse_u16 a (slash ∷ path)) (drop_userinfo_lem user authority no_at)
      ∙ with_authority_lem authority (slash ∷ path) host port (host_port-nonempty host port_str) (
          parse_host_port-host_port parse_u16 port_str port parses host no_open no_close digits
            some_digit)
