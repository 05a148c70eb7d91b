-- ===== src/Gui/Save/Stale.antt =====
-- gui/src/ui/controller/save.rs: the index on the disk after the list became shorter.
use juicity_rs.Base.{
  refl, min, ◌==◌, ◌≡◌, ◌≤◌, ◌-◌, sym, ap, ◌∙◌, Bool, true, false, length, Bool-cases, inl, inr,
  arith,
}
use juicity_rs.Gui.Draft.{Numbers}
use juicity_rs.Gui.Controller.{Controller, Effects, set_notice}
use juicity_rs.Gui.Nodes.InRange.{IsInRange}
use juicity_rs.Gui.Save.{
  same_profiles, list_dirty, nodes_dirty, clamp_active, write_profiles, write_active, write_both,
  save_failed, clear_save_notice, write_nodes,
}
use juicity_rs.Gui.Save.Written.{same_profiles→eq, wanted, checked, write_nodes-cases}

-- The active node was saved beyond the end of the working list, whose last node is active now.
pub record IsCutShort (c : Controller) : Type 0 where
  pub in_step : c.disk.runtime_index ≡ c.saved.active
  pub beyond : length c.profiles ≤ c.saved.active
  pub last : c.active ≡ length c.profiles - 1

-- The list was written, the index was not, and it points past the list.
abbrev IsPast : Controller → Controller → Type 0
IsPast c c' =
    (c'.disk.profiles_json ≡ c.profiles)
    × (c'.disk.runtime_index ≡ c.disk.runtime_index)
    × (length c'.disk.profiles_json ≤ c'.disk.runtime_index)

module _ (numbers : Numbers) (effects : Effects) (c : Controller) (v : IsInRange c)
    (h : IsCutShort c) where
  lists_differ : same_profiles c.profiles c.saved.profiles ≡ false
  lists_differ = elim (Bool-cases (same_profiles c.profiles c.saved.profiles)) [
    | inl e ↦ absurd (
        omega
          (arith, ap length (same_profiles→eq c.profiles c.saved.profiles e), v.saved_lt, h.beyond))
    | inr e ↦ e
  ]

  clear_save_notice-disk : (c' : Controller) → (clear_save_notice c').disk ≡ c'.disk
  unfolding clear_save_notice set_notice
  clear_save_notice-disk c' = ground arith

  -- Both indices are clamped to the last node.
  same_index :
      (min c.active (length c.profiles - 1) == min c.saved.active (length c.profiles - 1)) ≡ true
  same_index = ground (arith, h.beyond, h.last)

  past_lem : length c.profiles ≤ c.disk.runtime_index
  past_lem = omega (arith, h.beyond, h.in_step)

  write_both-IsPast :
      (write_both effects (wanted numbers effects c) (checked numbers effects c)).1 ≡ true
      → IsPast c (write_both effects (wanted numbers effects c) (checked numbers effects c)).0
  unfolding write_both write_active write_profiles clamp_active save_failed
  write_both-IsPast w = elim (Bool-cases effects.write_profiles) [
    | inl t ↦ rw (lists_differ, t, same_index, clear_save_notice-disk) (refl, refl, past_lem)
    | inr f ↦
        let failed : (write_both effects (wanted numbers effects c) (checked numbers effects c)).1
            ≡ false =
          rw (write_both, lists_differ, f) refl in
        absurd (cc (failed, w))
  ]

  -- Where the indices are in range, runtime.json holds the saved active index, the working list is so
  -- short that this index is past its end, and its last node is the active one: if Save reports
  -- success, profiles.json holds the working list, but runtime.json keeps the old index, which points
  -- past this list.
  pub write_nodes-IsPast :
      (write_nodes numbers effects c).1 ≡ true
      → ((write_nodes numbers effects c).0.disk.profiles_json ≡ c.profiles)
        × ((write_nodes numbers effects c).0.disk.runtime_index ≡ c.disk.runtime_index)
        × (length (write_nodes numbers effects c).0.disk.profiles_json
            ≤ (write_nodes numbers effects c).0.disk.runtime_index)
  unfolding nodes_dirty list_dirty
  write_nodes-IsPast w = elim (write_nodes-cases numbers effects c) [
    | inl (d, e) ↦
        let dirty : nodes_dirty numbers c ≡ true = rw lists_differ refl in absurd (cc (dirty, d))
    | inr (inl (n, e)) ↦ absurd (cc)
    | inr (inr (valid, e)) ↦
        rw e (write_both-IsPast (sym (ap (λ (r : Controller × Bool). r.1) e) ∙ w))
  ]
