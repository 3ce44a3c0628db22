-- ===== src/Tests/Units.antt =====
-- Units, their writes and what they grant.
use mlpal_memory.Prelude.{
  ℕ, ◌≡◌, ◌↔◌, ◌⊎◌, inr, or_else, refl, true, false, some, none, Option, String, List, [], ◌∷◌,
  arith,
}
use mlpal_memory.Prelude.Texts.{strip}
use mlpal_memory.Json.{Props, str}
use mlpal_memory.Units.{
  members, admins, UnitPolicy, OrgUnit, Role, UnitMember, get_unit, has, has_unit, children,
  push_all, visit, descend, descendants, ascend, ancestors, depth,
}
use mlpal_memory.Units.Writes.{
  Tables, fail, own_descendant, name_taken, has_children, has_members, and_then, need, refuse,
  load_tree, set_row, move, rename, set_kind, create_unit, set_policy, save_unit, update_unit,
  delete_unit, role_of, write_role, set_member, remove_member,
}
use mlpal_memory.Units.Access.{
  add_new, add_all, own_units, note_parent, climb_round, climb, add_subtrees, readable_units,
  add_writable, add_lines, is_admin_below, writable_units, hop_closed_units, administered_units,
  access_of, invalidate, cache_hit, cache_put, compute_access, resolve, no_access,
}
use mlpal_memory.Units.Descends.{Below, child}
use mlpal_memory.Units.Trees.{IsTree}
use mlpal_memory.Units.Safe.{
  UnitWrite, create, place, run_write, run_writes, IsSound, IsSound-run_writes, move-refuses,
}
use mlpal_memory.Units.Reaches.{InLine}
use mlpal_memory.Units.Publishing.{AdministersOnly, MayPublish, writable_units_in_line}
use mlpal_memory.Units.Grants.{Exists, ReadsDown, Publishes, readable_units_iff, writable_units_iff}

program : Unit {0}
unfolding children push_all visit descend descendants ascend ancestors depth and_then need refuse
    load_tree set_row move rename set_kind create_unit set_policy save_unit update_unit delete_unit
    role_of write_role set_member remove_member add_new add_all own_units note_parent climb_round
    climb add_subtrees readable_units add_writable add_lines writable_units hop_closed_units
    administered_units access_of invalidate cache_hit cache_put compute_access resolve run_write
    run_writes strip
program = tt

-- A policy that only admins may publish through, if the writer asks for one.
abbrev validate : Props → Option UnitPolicy
validate [] =
    some (record {
      read_descendants = false;
      publish_up = members;
      hops_may_write = true;
      lift = none;
    })
validate (_ ∷ _) =
    some
      (record { read_descendants = true; publish_up = admins; hops_may_write = false; lift = none })

abbrev bare : Tables
bare = record { units = []; members = []; next_id = 0 }

bare-IsSound : IsSound bare
unfolding load_tree
bare-IsSound = record {
  drawn = tt;
  trees = λ org. record {
    keyed = tt;
    rooted = λ n u found. ground arith;
    named = λ n m u v hu hv same. ground arith;
  };
}

abbrev closed : Props
closed = ("publish_up", str "admins") ∷ []

-- Engineering (0, closed), Platform (1) and Storage (2) below it, and Sales (3).
abbrev writes : List (String × UnitWrite)
writes =
    ("acme", create "Engineering" none "" (some closed))
    ∷ ("acme", create " Platform " (some 0) "team" none)
    ∷ ("acme", create "Storage" (some 1) "team" none)
    ∷ ("acme", create "Sales" none "" none)
    ∷ ("acme", place 1 "ann" "member")
    ∷ ("acme", place 3 "ann" "admin")
    ∷ ("acme", place 0 "bob" "admin")
    ∷ []

abbrev tables : Tables
tables = run_writes validate bare writes

abbrev acme : List OrgUnit
acme = load_tree "acme" tables.units

abbrev role_in : String → ℕ → Role → UnitMember
role_in user unit_id role = record {
  unit_id = unit_id;
  org_id = "acme";
  user_id = user;
  role = role;
}

abbrev of_ann : List UnitMember
of_ann = role_in "ann" 1 Role.member ∷ role_in "ann" 3 Role.admin ∷ []

abbrev of_cy : List UnitMember
of_cy = role_in "cy" 1 Role.member ∷ []

abbrev of_bob : List UnitMember
of_bob = role_in "bob" 0 Role.admin ∷ []

stored : tables.next_id ≡ 4
unfolding program
stored = refl

down : descendants acme 0 ≡ 2 ∷ 1 ∷ []
unfolding program
down = refl

up : ancestors acme 2 ≡ 1 ∷ 0 ∷ []
unfolding program
up = refl

deep : depth acme 2 ≡ 2
unfolding program
deep = refl

ann_reads : readable_units acme of_ann ≡ 1 ∷ 3 ∷ 0 ∷ []
unfolding program
ann_reads = refl

bob_reads : readable_units acme of_bob ≡ 0 ∷ 1 ∷ 2 ∷ []
unfolding program
bob_reads = refl

-- Only admins publish to Engineering; ann administers Sales alone, and yet may.
ann_writes : writable_units acme of_ann ≡ some (1 ∷ 3 ∷ 0 ∷ [])
unfolding program
ann_writes = refl

cy_writes : writable_units acme of_cy ≡ some (1 ∷ [])
unfolding program
cy_writes = refl

kept_child : delete_unit "acme" 1 tables ≡ fail has_children
unfolding program
kept_child = refl

kept_member : delete_unit "acme" 3 tables ≡ fail has_members
unfolding program
kept_member = refl

same_name : create_unit validate "acme" "Sales " none "" none tables ≡ fail name_taken
unfolding program
same_name = refl

under_self :
    update_unit validate "acme" 0
      (record { name = none; kind = none; parent_id = some (some 2); policy = none })
      tables
    ≡ fail own_descendant
unfolding program
under_self = refl

cached_answer :
    resolve 40
      (some "acme")
      (some "cy")
      tables
      (record { org_id = "acme"; user_id = "cy"; lapses = 41; access = no_access } ∷ [])
    ≡ some (
      no_access,
      record { org_id = "acme"; user_id = "cy"; lapses = 41; access = no_access } ∷ [],
    )
unfolding program
cached_answer = refl

IsSound-run_writes_example : IsSound tables
IsSound-run_writes_example = IsSound-run_writes validate bare writes bare-IsSound

acme-IsTree : IsTree acme
acme-IsTree = IsSound.trees IsSound-run_writes_example "acme"

abbrev engineering : OrgUnit
engineering = record {
  id = 0;
  org_id = "acme";
  parent_id = none;
  name = "Engineering";
  kind = "unit";
  policy = record {
    read_descendants = true;
    publish_up = admins;
    hops_may_write = false;
    lift = none;
  };
}

storage_there : has_unit acme 2 ≡ true
unfolding program
storage_there = refl

move-refuses_example :
    (move acme (some (some 2)) engineering ≡ fail own_descendant)
    ↔ (◌≡◌ {A = ℕ} 2 0 ⊎ Below acme 0 2)
move-refuses_example = move-refuses acme engineering 2 acme-IsTree storage_there

readable_units_iff_example :
    (has 2 (readable_units acme of_bob) ≡ true)
    ↔ (InLine acme (own_units acme of_bob) 2 ⊎ Exists (ReadsDown acme 2) of_bob)
readable_units_iff_example = readable_units_iff acme of_bob 2 acme-IsTree

-- Ann publishes to Engineering, which is closed to members, since she administers Sales.
ann_by_code :
    (out : List ℕ) × (writable_units acme of_ann ≡ some out)
    × ((n : ℕ)
        → (has n out ≡ true) ↔ (
            (has n (own_units acme of_ann) ≡ true)
            ⊎ Publishes acme (is_admin_below acme of_ann) (own_units acme of_ann) n))
ann_by_code = writable_units_iff acme of_ann acme-IsTree

-- Dee is a member of Storage and administers Platform, which are below Engineering.
abbrev of_dee : List UnitMember
of_dee = role_in "dee" 2 Role.member ∷ role_in "dee" 1 Role.admin ∷ []

abbrev no_unit : OrgUnit
no_unit = record {
  id = 9;
  org_id = "";
  parent_id = none;
  name = "";
  kind = "";
  policy = record {
    read_descendants = false;
    publish_up = members;
    hops_may_write = true;
    lift = none;
  };
}

dee-AdministersOnly : AdministersOnly acme 0 of_dee
unfolding program
dee-AdministersOnly =
    (λ h. ground (arith, h), (λ h. inr (child (or_else (get_unit acme 1) no_unit) refl refl), tt))

writable_units_in_line_example :
    (out : List ℕ) × (writable_units acme of_dee ≡ some out)
    × ((has 0 out ≡ true) ↔ (
        (has 0 (own_units acme of_dee) ≡ true)
        ⊎ (Exists (λ o. Below acme 0 o) (own_units acme of_dee) × MayPublish acme of_dee 0)))
writable_units_in_line_example =
    writable_units_in_line acme of_dee 0 acme-IsTree dee-AdministersOnly
