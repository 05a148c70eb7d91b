-- ===== src/Tests/Gui.antt =====
-- The node list at a concrete state, with numbers of one character.
use juicity_rs.Base.{
  ℕ, ◌≡◌, refl, ◌+◌, ◌-◌, ◌≤◌, List, [], ◌∷◌, Option, none, some, true, false, Bytes, length, arith,
}
use juicity_rs.Http.Text.{trim}
use juicity_rs.Gui.Profile.{ProxyProfile, default_profile, codes}
use juicity_rs.Gui.Draft.{Numbers, from_profile, apply_to, port_field}
use juicity_rs.Gui.Draft.Unchanged.{NumbersLaws, apply_to-from_profile}
use juicity_rs.Gui.Controller.{Controller, Effects, quit, no_notice, duplicate}
use juicity_rs.Gui.Nodes.{node_command}
use juicity_rs.Gui.Nodes.InRange.{IsInRange}
use juicity_rs.Gui.Save.{same_profiles, save, discard, nodes_dirty, write_nodes}
use juicity_rs.Gui.Save.Stale.{write_nodes-IsPast}
use juicity_rs.Gui.Steps

-- A number is the character that lies so far behind the blanks.
abbrev far : ℕ
far = 20000

abbrev one_character : Bytes → Option ℕ
one_character (c ∷ []) = some (c - far)
one_character _ = none

abbrev numbers : Numbers
numbers = record {
  show = λ n. (n + far) ∷ [];
  parse_u16 = one_character;
  parse_u32 = one_character;
}

not_blank : (n : ℕ) → one_character (trim ((n + far) ∷ [])) ≡ some n
unfolding trim
not_blank n = ground arith

numbers-NumbersLaws : NumbersLaws numbers
numbers-NumbersLaws = record {
  parse_u16-show = λ n h. not_blank n;
  parse_u32-show = λ n h. not_blank n;
}

abbrev node : Bytes → ProxyProfile
node name = record {
  name = name;
  protocol = juicity_rs.Gui.Profile.juicity;
  server = codes "a.example";
  server_port = 443;
  password = codes "p";
  uuid = codes "u";
  sni = some [];
  allow_insecure = false;
  pinned_certchain_sha256 = none;
  congestion_control = none;
  method = [];
  plugin = none;
  plugin_opts = none;
  plugin_args = none;
  timeout = 5;
  group = none;
  config_path = none;
  link = none;
}

apply_to-from_profile_example :
    apply_to numbers (from_profile numbers (node (codes " A "))) (node (codes " A "))
    ≡ node (codes " A ")
apply_to-from_profile_example =
    apply_to-from_profile numbers numbers-NumbersLaws (node (codes " A "))
      (record { port_lt = omega arith; timeout_lt = omega arith })

abbrev a : ProxyProfile
a = node (codes "A")

abbrev b : ProxyProfile
b = node (codes "B")

-- Two nodes, the second one active and saved so.
abbrev two_nodes : Controller
two_nodes = record {
  profiles = a ∷ (b ∷ []);
  active = 1;
  was_running = false;
  connected = false;
  notice = no_notice;
  notice_seq = 0;
  selected = 1;
  draft = from_profile numbers b;
  errors = [];
  advanced = none;
  advanced_errors = [];
  started_with = none;
  saved = record { profiles = a ∷ (b ∷ []); active = 1 };
  leave = none;
  runtime_dirty = false;
  disk = record { profiles_json = a ∷ (b ∷ []); runtime_index = 1 };
}

abbrev working : Effects
working = record { write_profiles = true; write_runtime = true; start_core = true }

-- A node is duplicated, text is typed that is no port, the list is saved, and the prompt is answered.
abbrev calls : List (Effects × Steps.Op)
calls =
    (working, Steps.node_command 0 duplicate)
    ∷ ((working, Steps.import_nodes (b ∷ []) 1)
        ∷ ((working, Steps.edit_node port_field (codes "x"))
            ∷ ((working, Steps.save_nodes)
                ∷ ((working, Steps.request_leave quit)
                    ∷ ((working, Steps.answer_prompt discard) ∷ [])))))

-- The second node is removed, and the prompt is open.
abbrev asked : Controller
asked = record two_nodes {
  profiles = a ∷ [];
  active = 0;
  selected = 0;
  draft = from_profile numbers a;
  leave = some quit;
}

asked-IsInRange : IsInRange asked
asked-IsInRange = record {
  active_lt = omega arith;
  selected_lt = omega arith;
  saved_lt = omega arith;
}

lists_differ : same_profiles (a ∷ []) (a ∷ (b ∷ [])) ≡ false
lists_differ = ground arith

asked-written : (write_nodes numbers working asked).1 ≡ true
unfolding write_nodes
asked-written = rw lists_differ refl

write_nodes-IsPast_example :
    ((write_nodes numbers working asked).0.disk.profiles_json ≡ a ∷ [])
    × ((write_nodes numbers working asked).0.disk.runtime_index ≡ 1)
    × (length (write_nodes numbers working asked).0.disk.profiles_json
        ≤ (write_nodes numbers working asked).0.disk.runtime_index)
write_nodes-IsPast_example =
    write_nodes-IsPast numbers working asked asked-IsInRange
      (record { in_step = refl; beyond = omega arith; last = refl }) asked-written
