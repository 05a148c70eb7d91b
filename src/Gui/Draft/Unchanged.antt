-- ===== src/Gui/Draft/Unchanged.antt =====
-- gui/src/ui/controller/nodes.rs: what a loaded editor and a second commit leave as it is.
use juicity_rs.Base.{
  ℕ, ◌≡◌, refl, ◌<◌, ◌^◌, List, [], ◌∷◌, Option, none, some, Bool, true, false, Bytes, bytes_eq,
  bytes_eq_refl, if◌then◌else◌, Bool-cases, inl, inr, arith, ap, ◌||◌,
}
use juicity_rs.Http.Text.{trim}
use juicity_rs.Gui.Profile.{ProxyProfile, non_empty_text, normalize_congestion_control, codes}
use juicity_rs.Gui.Draft.{
  Numbers, DraftData, text_or, any, is_server, is_uuid, is_password, checked_text, edited, kept_or,
  parse_port, parse_timeout, from_profile, missing, errors, unapplied, apply_to,
}

-- The printed form of a number parses to it, and has no blanks.
pub record NumbersLaws (numbers : Numbers) : Type 0 where
  pub parse_u16-show : (n : ℕ) → n < 65536 → numbers.parse_u16 (trim (numbers.show n)) ≡ some n
  pub parse_u32-show : (n : ℕ) → n < 2 ^ 32 → numbers.parse_u32 (trim (numbers.show n)) ≡ some n

-- The numbers of a profile are those of their types.
pub record IsSized (p : ProxyProfile) : Type 0 where
  pub port_lt : p.server_port < 65536
  pub timeout_lt : p.timeout < 2 ^ 32

any-none {ℓ} :
    {A : Type ℓ} (p : A → Bool) (xs : List A) → ((x : A) → p x ≡ false) → any p xs ≡ false
any-none p [] h = refl
any-none p (x ∷ xs) h = rw (h x) (any-none p xs h)

edited_same {ℓ} :
    {A : Type ℓ} (old : Bytes) (change : Bytes → A) (kept : A) → edited old old change kept ≡ kept
edited_same old change kept = rw (bytes_eq_refl old)

-- `shown` is how the editor shows the value.
edited_idem {ℓ} :
    {A : Type ℓ} (new : Bytes) (shown : A → Bytes) (change : Bytes → A) (x : A)
    → edited new (shown (edited new (shown x) change x)) change (edited new (shown x) change x)
      ≡ edited new (shown x) change x
edited_idem new shown change x = elim (Bool-cases (bytes_eq new (shown x))) [
  | inl e ↦ rw (e, e)
  | inr e ↦ elim (Bool-cases (bytes_eq new (shown (change new)))) [
    | inl e' ↦ rw (e, e')
    | inr e' ↦ rw (e, e')
  ]
]

trimmed_idem :
    (new old : Bytes) (absent : Bool)
    → (if bytes_eq new (if bytes_eq new old || absent then old else trim new) || absent
        then (if bytes_eq new old || absent then old else trim new)
        else trim new)
      ≡ (if bytes_eq new old || absent then old else trim new)
trimmed_idem new old absent = ground arith

kept_or_idem {ℓ} : {A : Type ℓ} (o : Option A) (x : A) → kept_or o (kept_or o x) ≡ kept_or o x
kept_or_idem none x = refl
kept_or_idem (some y) x = refl

if_same {ℓ} : {A : Type ℓ} (b : Bool) (x : A) → (if b then x else x) ≡ x
if_same true x = refl
if_same false x = refl

if_idem {ℓ} :
    {A : Type ℓ} (b : Bool) (x y : A)
    → (if b then (if b then x else y) else y) ≡ (if b then x else y)
if_idem true x y = refl
if_idem false x y = refl

module _ (numbers : Numbers) where
  pub unapplied-from_profile :
      (p : ProxyProfile) → unapplied numbers (from_profile numbers p) p ≡ false
  unfolding unapplied
  unapplied-from_profile p =
      any-none _ (errors numbers (from_profile numbers p))
        λ e. rw (bytes_eq_refl (checked_text (from_profile numbers p) e.0))

  -- Committing the same text a second time writes nothing.
  pub apply_to_idem :
      (d : DraftData) (p : ProxyProfile)
      → apply_to numbers d (apply_to numbers d p) ≡ apply_to numbers d p
  unfolding apply_to from_profile
  apply_to_idem d p = λ i. record (apply_to numbers d p) {
    name = edited_idem d.name (λ t. t) trim p.name i;
    server = trimmed_idem d.server p.server (any is_server (missing d)) i;
    server_port = kept_or_idem (parse_port numbers d.port) p.server_port i;
    uuid = trimmed_idem d.uuid p.uuid (any is_uuid (missing d)) i;
    password = if_idem (any is_password (missing d)) p.password d.password i;
    sni = edited_idem d.sni (λ t. text_or t []) non_empty_text p.sni i;
    pinned_certchain_sha256 =
        edited_idem d.pinned_certchain_sha256 (λ t. text_or t []) non_empty_text
          p.pinned_certchain_sha256 i;
    congestion_control =
        edited_idem d.congestion_control (λ t. text_or t (codes "bbr")) normalize_congestion_control
          p.congestion_control i;
    plugin = edited_idem d.plugin (λ t. text_or t []) non_empty_text p.plugin i;
    plugin_opts = edited_idem d.plugin_options (λ t. text_or t []) non_empty_text p.plugin_opts i;
    plugin_args = edited_idem d.plugin_args (λ t. text_or t []) non_empty_text p.plugin_args i;
    timeout = kept_or_idem (parse_timeout numbers d.timeout) p.timeout i;
    group = edited_idem d.group (λ t. text_or t []) non_empty_text p.group i;
  }

  module _ (laws : NumbersLaws numbers) where
    port_lem : (n : ℕ) → n < 65536 → kept_or (parse_port numbers (numbers.show n)) n ≡ n
    unfolding parse_port
    port_lem n h = ground (arith, laws.parse_u16-show n)

    timeout_lem : (n : ℕ) → n < 2 ^ 32 → kept_or (parse_timeout numbers (numbers.show n)) n ≡ n
    unfolding parse_timeout
    timeout_lem n h = rw (laws.parse_u32-show n h)

    -- Committing an editor as it was loaded writes nothing, whatever the profile holds.
    pub apply_to-from_profile :
        (p : ProxyProfile) → IsSized p → apply_to numbers (from_profile numbers p) p ≡ p
    unfolding apply_to from_profile
    apply_to-from_profile p h = λ i. record p {
      name = edited_same p.name trim p.name i;
      server =
          ap
            (λ b.
              if b || any is_server (missing (from_profile numbers p))
              then p.server
              else trim p.server)
            (bytes_eq_refl p.server) i;
      server_port = port_lem p.server_port h.port_lt i;
      uuid =
          ap
            (λ b.
              if b || any is_uuid (missing (from_profile numbers p)) then p.uuid else trim p.uuid)
            (bytes_eq_refl p.uuid) i;
      password = if_same (any is_password (missing (from_profile numbers p))) p.password i;
      sni = edited_same (text_or p.sni []) non_empty_text p.sni i;
      pinned_certchain_sha256 =
          edited_same (text_or p.pinned_certchain_sha256 []) non_empty_text
            p.pinned_certchain_sha256 i;
      congestion_control =
          edited_same (text_or p.congestion_control (codes "bbr")) normalize_congestion_control
            p.congestion_control i;
      plugin = edited_same (text_or p.plugin []) non_empty_text p.plugin i;
      plugin_opts = edited_same (text_or p.plugin_opts []) non_empty_text p.plugin_opts i;
      plugin_args = edited_same (text_or p.plugin_args []) non_empty_text p.plugin_args i;
      timeout = timeout_lem p.timeout h.timeout_lt i;
      group = edited_same (text_or p.group []) non_empty_text p.group i;
    }
