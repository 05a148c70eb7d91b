-- ===== src/Gui/Save/Written.antt =====
-- gui/src/ui/controller/save.rs: what Save does to the list, the saved state and the disk.
use juicity_rs.Base.{
  ◌≡◌, refl, ◌<◌, ◌-◌, sym, ap, ◌∙◌, List, none, ◌⊎◌, Bool, true, false, length, is_empty, min,
  if◌then◌else◌, Bool-cases, Option-cases, inl, inr, arith,
}
use juicity_rs.Gui.Profile.{ProxyProfile}
use juicity_rs.Gui.Draft.{Numbers, errors}
use juicity_rs.Gui.Controller.{Saved, Notice, Controller, Effects, set_notice}
use juicity_rs.Gui.Nodes.InRange.{IsInRange}
use juicity_rs.Gui.Save.{
  same_profiles, clamp_active, nodes_dirty, write_profiles, write_runtime, clear_save_notice,
  save_failed, write_active, write_both, save_refusal, write_nodes,
}

pub same_profiles→eq : (ps qs : List ProxyProfile) → same_profiles ps qs ≡ true → ps ≡ qs
same_profiles→eq ps qs h = ground arith

pub same_profiles_refl : (ps : List ProxyProfile) → same_profiles ps ps ≡ true
same_profiles_refl ps = ground arith

-- The working list, the indices and the editor are those of before.
pub record KeepsWork (c c' : Controller) : Type 0 where
  pub profiles : c'.profiles ≡ c.profiles
  pub active : c'.active ≡ c.active
  pub selected : c'.selected ≡ c.selected
  pub draft : c'.draft ≡ c.draft

-- What profiles.json holds is what the saved state says.
abbrev pub IsOnDisk : Controller → Type 0
IsOnDisk c = c.disk.profiles_json ≡ c.saved.profiles

module _ (effects : Effects) (next : Saved) where
  -- When the list is written and the index is not.
  abbrev listed : Controller → Controller
  listed c =
      write_profiles effects next
        (record c { saved = clamp_active (record c.saved { profiles = next.profiles }) })

  write_active-KeepsWork : (c : Controller) → KeepsWork c (write_active effects next c).0
  unfolding write_active clear_save_notice set_notice write_runtime save_failed
  write_active-KeepsWork c = ground arith

  write_active-IsOnDisk : (c : Controller) → IsOnDisk c → IsOnDisk (write_active effects next c).0
  unfolding write_active clear_save_notice set_notice write_runtime save_failed
  write_active-IsOnDisk c h = ground arith

  write_active-saved :
      (c : Controller)
      → (write_active effects next c).0.saved ≡ (
          if (write_active effects next c).1
          then record c.saved { active = next.active }
          else c.saved)
  unfolding write_active clear_save_notice set_notice write_runtime save_failed
  write_active-saved c = ground arith

  pub write_both-KeepsWork : (c : Controller) → KeepsWork c (write_both effects next c).0
  unfolding write_both write_profiles save_failed set_notice
  write_both-KeepsWork c =
      ground (arith, write_active-KeepsWork c, write_active-KeepsWork (listed c))

  pub write_both-IsOnDisk : (c : Controller) → IsOnDisk c → IsOnDisk (write_both effects next c).0
  unfolding write_both write_profiles save_failed set_notice clamp_active
  write_both-IsOnDisk c h =
      ground (arith, write_active-IsOnDisk c, write_active-IsOnDisk (listed c))

  -- After a success the saved state is the one that was to be saved.
  pub write_both-saved :
      (c : Controller)
      → (write_both effects next c).1 ≡ true
      → (write_both effects next c).0.saved ≡ next
  unfolding write_both write_profiles save_failed set_notice clamp_active
  write_both-saved c h = ground (
    arith,
    same_profiles→eq next.profiles c.saved.profiles,
    write_active-saved c,
    write_active-saved (listed c),
  )

  pub write_both-saved_lt :
      (c : Controller)
      → next.active < length next.profiles
      → c.saved.active < length c.saved.profiles
      → (write_both effects next c).0.saved.active
        < length (write_both effects next c).0.saved.profiles
  unfolding write_both write_profiles save_failed set_notice clamp_active
  write_both-saved_lt c n s = ground (
    arith,
    same_profiles→eq next.profiles c.saved.profiles,
    write_active-saved c,
    write_active-saved (listed c),
  )

refusal_lem :
    (numbers : Numbers) (c : Controller) → save_refusal numbers c ≡ none → is_empty c.errors ≡ true
unfolding save_refusal
refusal_lem numbers c h = elim (Bool-cases (is_empty c.errors)) [
  | inl e ↦ e
  | inr e ↦ ground (arith, e)
]

module _ (numbers : Numbers) (effects : Effects) where
  -- The state on which Save decides, and what it saves.
  abbrev pub checked : Controller → Controller
  checked c = record c { errors = errors numbers c.draft }

  abbrev pub wanted : Controller → Saved
  wanted c = clamp_active (record { profiles = c.profiles; active = c.active })

  pub write_nodes-idle :
      (c : Controller) → nodes_dirty numbers c ≡ false → write_nodes numbers effects c ≡ (c, true)
  unfolding write_nodes
  write_nodes-idle c d = rw (write_nodes, d) refl

  -- A call of Save has nothing to do, is refused, or writes.
  pub write_nodes-cases :
      (c : Controller)
      → ((nodes_dirty numbers c ≡ false) × (write_nodes numbers effects c ≡ (c, true)))
        ⊎ (((n : Notice) × (write_nodes numbers effects c
                ≡ (set_notice n (record (checked c) { leave = none }), false)))
            ⊎ ((is_empty (errors numbers c.draft) ≡ true)
                × (write_nodes numbers effects c ≡ write_both effects (wanted c) (checked c))))
  unfolding write_nodes save_refusal
  write_nodes-cases c = elim (Bool-cases (nodes_dirty numbers c)) [
    | inr d ↦ inl (d, write_nodes-idle c d)
    | inl d ↦ elim (Option-cases (save_refusal numbers (checked c))) [
      | inl e ↦ inr (inr (refusal_lem numbers (checked c) e, rw (write_nodes, d, e) refl))
      | inr (n, e) ↦ inr (inl (n, rw (write_nodes, d, e) refl))
    ]
  ]

  pub write_nodes-KeepsWork : (c : Controller) → KeepsWork c (write_nodes numbers effects c).0
  unfolding set_notice
  write_nodes-KeepsWork c = elim (write_nodes-cases c) [
    | inl (d, e) ↦ rw e (record { profiles = refl; active = refl; selected = refl; draft = refl })
    | inr (inl (n, e)) ↦
        rw e (record { profiles = refl; active = refl; selected = refl; draft = refl })
    | inr (inr (valid, e)) ↦
        let k = write_both-KeepsWork effects (wanted c) (checked c) in
        rw e (record {
          profiles = k.profiles;
          active = k.active;
          selected = k.selected;
          draft = k.draft;
        })
  ]

  pub write_nodes-IsOnDisk :
      (c : Controller) → IsOnDisk c → IsOnDisk (write_nodes numbers effects c).0
  unfolding set_notice
  write_nodes-IsOnDisk c h = elim (write_nodes-cases c) [
    | inl (d, e) ↦ rw e h
    | inr (inl (n, e)) ↦ rw e h
    | inr (inr (valid, e)) ↦ rw e (write_both-IsOnDisk effects (wanted c) (checked c) h)
  ]

  write_nodes-saved_lt :
      (c : Controller)
      → IsInRange c
      → (write_nodes numbers effects c).0.saved.active
        < length (write_nodes numbers effects c).0.saved.profiles
  unfolding set_notice clamp_active
  write_nodes-saved_lt c v = elim (write_nodes-cases c) [
    | inl (d, e) ↦ rw e v.saved_lt
    | inr (inl (n, e)) ↦ rw e v.saved_lt
    | inr (inr (valid, e)) ↦
        rw e (write_both-saved_lt effects (wanted c) (checked c) (omega arith) v.saved_lt)
  ]

  pub write_nodes-IsInRange :
      (c : Controller) → IsInRange c → IsInRange (write_nodes numbers effects c).0
  write_nodes-IsInRange c v =
      let k = write_nodes-KeepsWork c in
      record {
        active_lt = rw (k.active, k.profiles) v.active_lt;
        selected_lt = rw (k.selected, k.profiles) v.selected_lt;
        saved_lt = write_nodes-saved_lt c v;
      }

  -- After a success the saved state is the working one.
  pub write_nodes-saved :
      (c : Controller)
      → IsInRange c
      → (write_nodes numbers effects c).1 ≡ true
      → nodes_dirty numbers c ≡ true
      → ((write_nodes numbers effects c).0.saved
          ≡ record { profiles = c.profiles; active = c.active })
        × (is_empty (errors numbers c.draft) ≡ true)
  unfolding clamp_active
  write_nodes-saved c v h d = elim (write_nodes-cases c) [
    | inl (d', e) ↦ cc
    | inr (inl (n, e)) ↦ cc
    | inr (inr (valid, e)) ↦
        let in_place : min c.active (length c.profiles - 1) ≡ c.active =
          omega (arith, v.active_lt) in
        (
          ap (λ (r : Controller × Bool). r.0.saved) e
              ∙ write_both-saved effects (wanted c) (checked c)
                  (sym (ap (λ (r : Controller × Bool). r.1) e) ∙ h)
              ∙ (λ i. record { profiles = c.profiles; active = in_place i }),
          valid,
        )
  ]
