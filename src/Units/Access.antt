-- ===== src/Units/Access.antt =====
-- What the tree grants a person: readable_units, writable_units, hop_closed_units, administered_units
-- and the cached resolve of services/units.py.
use mlpal_memory.Prelude.{
  ℕ, zero, suc, ◌+◌, Bool, true, false, not, ◌&&◌, Option, none, some, List, [], ◌∷◌, ◌++◌, String,
  map, if◌then◌else◌, length, filter, any, leb, ltb, str_eq, sort_by, is_empty,
}
use mlpal_memory.Units.{
  PublishUp, OrgUnit, Role, UnitMember, has, get_unit, has_unit, descendants, ancestors,
}
use mlpal_memory.Units.Writes.{Tables, load_tree}

-- `if n not in ordered: ordered.append(n)`
unfoldable pub add_new : List ℕ → ℕ → List ℕ
add_new ordered n = if has n ordered then ordered else ordered ++ n ∷ []

unfoldable pub add_all : List ℕ → List ℕ → List ℕ
add_all ordered [] = ordered
add_all ordered (n ∷ ns) = add_all (add_new ordered n) ns

-- The rows of a person in the tenant.
abbrev pub memberships_of : String → String → List UnitMember → List UnitMember
memberships_of org user = filter (λ m. str_eq m.org_id org && str_eq m.user_id user)

-- The units of the rows that the tree has, each once.
unfoldable pub own_units : List OrgUnit → List UnitMember → List ℕ
own_units us ms = add_all [] (filter (has_unit us) (map (λ m. m.unit_id) ms))

abbrev pub parent_of : List OrgUnit → ℕ → Option ℕ
parent_of us n = elim (get_unit us n) [ none ↦ none | some u ↦ u.parent_id ]

-- A parent that is not in the list yet joins it and the next frontier.
unfoldable pub note_parent : Option ℕ → List ℕ × List ℕ → List ℕ × List ℕ
note_parent none s = s
note_parent (some p) s = if has p s.0 then s else (s.0 ++ p ∷ [], s.1 ++ p ∷ [])

-- One round over a frontier: the list and the next frontier.
unfoldable pub climb_round : List OrgUnit → List ℕ → List ℕ × List ℕ → List ℕ × List ℕ
climb_round us [] s = s
climb_round us (n ∷ frontier) s = climb_round us frontier (note_parent (parent_of us n) s)

unfoldable pub climb : List OrgUnit → ℕ → List ℕ → List ℕ → List ℕ
climb us zero frontier ordered = ordered
climb us (suc fuel) [] ordered = ordered
climb us (suc fuel) (n ∷ frontier) ordered =
    let next = climb_round us (n ∷ frontier) (ordered, []) in climb us fuel next.1 next.0

abbrev pub is_admin : UnitMember → Bool
is_admin m = elim m.role [ Role.admin ↦ true | Role.member ↦ false ]

abbrev pub reads_below : List OrgUnit → UnitMember → Bool
reads_below us m =
    is_admin m
    && (elim (get_unit us m.unit_id) [ none ↦ false | some u ↦ u.policy.read_descendants ])

-- The subtrees that a person administers and may read.
unfoldable pub add_subtrees : List OrgUnit → List UnitMember → List ℕ → List ℕ
add_subtrees us [] ordered = ordered
add_subtrees us (m ∷ ms) ordered =
    add_subtrees us ms (
      if reads_below us m
      then add_all ordered (sort_by leb (descendants us m.unit_id))
      else ordered)

unfoldable pub readable_units : List OrgUnit → List UnitMember → List ℕ
readable_units us ms =
    let own = own_units us ms in add_subtrees us ms (climb us (length own + length us) own own)

-- `pol.get("publish_up", "members") == "admins" and not is_admin_below`
abbrev pub bars : Bool → OrgUnit → Bool
bars is_admin_below u =
    (elim u.policy.publish_up [ PublishUp.admins ↦ true | PublishUp.members ↦ false ])
    && not is_admin_below

-- The ancestors of one unit; a parent that the tree does not have is a KeyError, `none`.
unfoldable pub add_writable : List OrgUnit → Bool → List ℕ → List ℕ → Option (List ℕ)
add_writable us admin_below [] out = some out
add_writable us admin_below (a ∷ ancs) out = elim (get_unit us a) [
  | none ↦ none
  | some u ↦ add_writable us admin_below ancs (if bars admin_below u then out else add_new out a)
]

unfoldable pub add_lines : List OrgUnit → Bool → List ℕ → List ℕ → Option (List ℕ)
add_lines us admin_below [] out = some out
add_lines us admin_below (n ∷ ns) out = elim (add_writable us admin_below (ancestors us n) out) [
  | none ↦ none
  | some out' ↦ add_lines us admin_below ns out'
]

abbrev pub is_admin_below : List OrgUnit → List UnitMember → Bool
is_admin_below us = any (λ m. is_admin m && has_unit us m.unit_id)

unfoldable pub writable_units : List OrgUnit → List UnitMember → Option (List ℕ)
writable_units us ms = let own = own_units us ms in add_lines us (is_admin_below us ms) own own

abbrev pub is_closed : List OrgUnit → ℕ → Bool
is_closed us n = elim (get_unit us n) [ none ↦ false | some u ↦ not u.policy.hops_may_write ]

unfoldable pub hop_closed_units : List OrgUnit → List ℕ → List ℕ
hop_closed_units us = filter (is_closed us)

unfoldable pub administered_units : List OrgUnit → List UnitMember → List ℕ
administered_units us [] = []
administered_units us (m ∷ ms) =
    let rest = administered_units us ms in
    if is_admin m && has_unit us m.unit_id
    then add_all (m.unit_id ∷ descendants us m.unit_id) rest
    else rest

pub record UnitAccess : Type 0 where
  pub readable : List ℕ
  pub writable : List ℕ
  pub administered : List ℕ
  pub hop_closed : List ℕ

abbrev pub no_access : UnitAccess
no_access = record { readable = []; writable = []; administered = []; hop_closed = [] }

-- What the tree and the rows of members give; `none` is the KeyError of writable_units.
unfoldable pub access_of : List OrgUnit → List UnitMember → Option UnitAccess
access_of us ms = elim (writable_units us ms) [
  | none ↦ none
  | some writable ↦ some (record {
    readable = readable_units us ms;
    writable = writable;
    administered = administered_units us ms;
    hop_closed = hop_closed_units us writable;
  })
]

-- An entry of the process's cache: the key, the time it lapses and the answer.
pub record Cached : Type 0 where
  pub org_id : String
  pub user_id : String
  pub lapses : ℕ
  pub access : UnitAccess

abbrev pub cache_ttl : ℕ
cache_ttl = 30

abbrev pub is_key : String → String → Cached → Bool
is_key org user c = str_eq c.org_id org && str_eq c.user_id user

-- A write through the module drops the tenant's entries.
unfoldable pub invalidate : String → List Cached → List Cached
invalidate org = filter (λ c. not (str_eq c.org_id org))

-- The entry that still holds.
unfoldable pub cache_hit : ℕ → String → String → List Cached → Option UnitAccess
cache_hit now org user [] = none
cache_hit now org user (c ∷ cs) =
    if is_key org user c
    then (if ltb now c.lapses then some c.access else none)
    else cache_hit now org user cs

-- `_CACHE[key] = …`
unfoldable pub cache_put : Cached → List Cached → List Cached
cache_put c cs = c ∷ filter (λ d. not (is_key c.org_id c.user_id d)) cs

unfoldable pub compute_access :
    ℕ → String → String → Tables → List Cached → Option (UnitAccess × List Cached)
compute_access now org user t cache =
    elim (access_of (load_tree org t.units) (memberships_of org user t.members)) [
      | none ↦ none
      | some a ↦ some (
        a,
        cache_put (record { org_id = org; user_id = user; lapses = now + cache_ttl; access = a })
            cache,
      )
    ]

-- `none` is the KeyError; a caller without a tenant or a user has no access.
unfoldable pub resolve :
    ℕ → Option String → Option String → Tables → List Cached → Option (UnitAccess × List Cached)
resolve now none user t cache = some (no_access, cache)
resolve now (some org) none t cache = some (no_access, cache)
resolve now (some org) (some user) t cache =
    if is_empty user then some (no_access, cache) else (elim (cache_hit now org user cache) [
      | some a ↦ some (a, cache)
      | none ↦ compute_access now org user t cache
    ])
