-- ===== src/Gui/Address/RoundTrip.antt =====
-- gui/src/util.rs: an address that was written is split into its parts, and which text panics.
use juicity_rs.Base.{
  ℕ, ◌≡◌, refl, ap, ◌∙◌, [], ◌∷◌, ◌++◌, some, Bool, false, Bytes, contains, if◌then◌else◌, ◌==◌,
  arith, Bool-cases, inl, inr,
}
use juicity_rs.Protocol.Wire.{colon}
use juicity_rs.Link.{ParseU16, open_bracket, close_bracket}
use juicity_rs.Link.RoundTrip.{split_last-append}
use juicity_rs.Gui.Address.{split_pair, split_ipv6, split_plain, split_host_port, format_host_port}

-- Whether a text begins with a bracket.
abbrev pub opens : Bytes → Bool
opens [] = false
opens (c ∷ cs) = c == open_bracket

split_pair-append :
    (a b : ℕ) (host rest : Bytes)
    → contains a host ≡ false
    → split_pair a b (host ++ (a ∷ (b ∷ rest))) ≡ some (host, rest)
unfolding split_pair
split_pair-append a b [] rest h = ground arith
split_pair-append a b (x ∷ []) rest h = ground (arith, split_pair-append a b [] rest)
split_pair-append a b (x ∷ (y ∷ ys)) rest h = ground (arith, split_pair-append a b (y ∷ ys) rest)

module _ (parse_u16 : ParseU16) where
  split_plain-append :
      (host port_str : Bytes) (port : ℕ)
      → contains colon port_str ≡ false
      → parse_u16 port_str ≡ some port
      → split_plain parse_u16 (host ++ (colon ∷ port_str)) ≡ (host, port)
  unfolding split_plain
  split_plain-append host port_str port c p =
      rw (split_plain, split_last-append colon host port_str c, p) refl

  split_host_port-plain :
      (addr : Bytes)
      → opens addr ≡ false
      → split_host_port parse_u16 addr ≡ some (split_plain parse_u16 addr)
  unfolding split_host_port
  split_host_port-plain [] h = refl
  split_host_port-plain (c ∷ cs) h = rw h refl

  opens-append : (host rest : Bytes) → opens host ≡ false → opens (host ++ (colon ∷ rest)) ≡ false
  opens-append [] rest h = refl
  opens-append (c ∷ cs) rest h = h

  -- Where the printed port has no colon and parses to the port, and the host has no ']' if it is an
  -- IPv6 address and does not begin with '[' otherwise: what `format_host_port` writes,
  -- `split_host_port` splits into the host and the port.
  pub split_host_port-format_host_port :
      (show_port : ℕ → Bytes) (host : Bytes) (port : ℕ)
      → contains colon (show_port port) ≡ false
      → parse_u16 (show_port port) ≡ some port
      → (if contains colon host then contains close_bracket host else opens host) ≡ false
      → split_host_port parse_u16 (format_host_port show_port host port) ≡ some (host, port)
  unfolding format_host_port split_host_port split_ipv6
  split_host_port-format_host_port show_port host port c p h =
      elim (Bool-cases (contains colon host)) [
        | inl e ↦
            let clean : contains close_bracket host ≡ false = ground (arith, e, h) in
            rw (e, split_ipv6, split_pair-append close_bracket colon host (show_port port) clean, p)
              refl
        | inr e ↦
            let plain : opens host ≡ false = ground (arith, e, h) in
            rw e (
              split_host_port-plain (host ++ (colon ∷ show_port port))
                (opens-append host (show_port port) plain)
              ∙ ap some (split_plain-append host (show_port port) port c p))
      ]
