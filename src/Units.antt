-- ===== src/Units.antt =====
-- What a role grants and what a set of capabilities allows, internal/units/units.go and
-- internal/units/system_roles.go.
pub mod Overrides
pub mod Roles
pub mod Ceiling
pub mod Lockout
pub mod Granted
pub mod Returns
pub mod Administrator
mod Tests
use Prim.Native.String.{String, compare}
use Prim.Native.Nat.{Ordering}
use text.Mathlib.Text.{◌==◌}
use scout_site.Prelude.{Bool, true, false, not, ◌&&◌, ◌||◌, List, [], ◌∷◌, any, if◌then◌else◌}

abbrev pub cap_edit_content : String
cap_edit_content = "edit_content"

abbrev pub cap_approve_submissions : String
cap_approve_submissions = "approve_submissions"

abbrev pub cap_submit_for_approval : String
cap_submit_for_approval = "submit_for_approval"

abbrev pub cap_manage_ledger : String
cap_manage_ledger = "manage_ledger"

abbrev cap_approve_expenses : String
cap_approve_expenses = "approve_expenses"

abbrev pub cap_super_admin : String
cap_super_admin = "super_admin"

abbrev pub cap_email_group : String
cap_email_group = "email_group"

abbrev all_capabilities : List String
all_capabilities =
    cap_edit_content ∷ cap_approve_submissions ∷ cap_submit_for_approval ∷ cap_manage_ledger
    ∷ cap_approve_expenses ∷ cap_super_admin ∷ cap_email_group ∷ []

abbrev pub contains_cap : List String → String → Bool
contains_cap set want = any (λ c. c == want) set

-- The map of the built-in roles, as a list of its entries.
abbrev pub system_role_capabilities : List (String × List String)
system_role_capabilities =
    ("cubmaster", cap_edit_content ∷ cap_approve_expenses ∷ cap_email_group ∷ [])
    ∷ ("den_leader", cap_edit_content ∷ cap_email_group ∷ [])
    ∷ (
      "scoutmaster",
      cap_edit_content ∷ cap_approve_submissions ∷ cap_approve_expenses ∷ cap_email_group ∷ [],
    )
    ∷ ("assistant_scoutmaster", cap_edit_content ∷ cap_approve_submissions ∷ cap_email_group ∷ [])
    ∷ ("senior_patrol_leader", cap_submit_for_approval ∷ [])
    ∷ ("patrol_leader", cap_submit_for_approval ∷ cap_email_group ∷ [])
    ∷ ("treasurer", cap_manage_ledger ∷ [])
    ∷ (
      "super_admin",
      cap_edit_content ∷ cap_approve_submissions ∷ cap_manage_ledger ∷ cap_approve_expenses
          ∷ cap_super_admin ∷ cap_email_group ∷ [],
    )
    ∷ []

-- The slugs of systemRoleOrder.
abbrev pub system_role_order : List String
system_role_order =
    "super_admin" ∷ "scoutmaster" ∷ "assistant_scoutmaster" ∷ "cubmaster" ∷ "den_leader"
    ∷ "treasurer" ∷ "senior_patrol_leader" ∷ "patrol_leader" ∷ "parent" ∷ "scout" ∷ []

abbrev pub is_known_system_role : String → Bool
is_known_system_role slug = any (λ r. r == slug) system_role_order

-- The entry of a key, and nothing where there is none.
pub entry_or : List String → String → List (String × List String) → List String
entry_or missing slug [] = missing
entry_or missing slug ((k, granted) ∷ rest) =
    let later = entry_or missing slug rest in if k == slug then granted else later

abbrev pub default_capabilities : String → List String
default_capabilities slug = entry_or [] slug system_role_capabilities

abbrev pub is_builtin : String → Bool
is_builtin slug = any (λ e. e.0 == slug) system_role_capabilities || is_known_system_role slug

-- `map[string]bool`
abbrev pub Capabilities : Type 0
Capabilities = List (String × Bool)

unfoldable pub has : Capabilities → String → Bool
has [] k = false
has ((j, held) ∷ rest) k = let later = has rest k in if j == k then held else later

-- `caps[c] = true`
pub grant : String → Capabilities → Capabilities
grant k [] = (k, true) ∷ []
grant k ((j, held) ∷ rest) =
    let later = grant k rest in if j == k then (j, true) ∷ rest else (j, held) ∷ later

pub grant_all : List String → Capabilities → Capabilities
grant_all [] caps = caps
grant_all (c ∷ cs) caps = grant_all cs (grant c caps)

unfoldable capabilities_of : List String → Capabilities
capabilities_of names = grant_all names []

abbrev can_edit_unit_content : Capabilities → Bool
can_edit_unit_content caps = has caps cap_edit_content

abbrev can_submit_for_approval : Capabilities → Bool
can_submit_for_approval caps = has caps cap_submit_for_approval

abbrev can_approve : Capabilities → Bool
can_approve caps = has caps cap_approve_submissions

abbrev can_manage_ledger : Capabilities → Bool
can_manage_ledger caps = has caps cap_manage_ledger

abbrev can_approve_expenses : Capabilities → Bool
can_approve_expenses caps = has caps cap_approve_expenses

abbrev can_email_group : Capabilities → Bool
can_email_group caps = has caps cap_email_group

abbrev is_super_admin : Capabilities → Bool
is_super_admin caps = has caps cap_super_admin

-- The loop of Covers.
pub covers_each : Capabilities → Capabilities → Bool
unfolding has
covers_each c [] = true
covers_each c ((k, held) ∷ rest) =
    (not held || (has c k || (k == cap_submit_for_approval && has c cap_edit_content)))
    && covers_each c rest

pub covers : Capabilities → Capabilities → Bool
unfolding covers_each has
covers c needed = if has c cap_super_admin then true else covers_each c needed

-- sort.Strings, by insertion.
pub insert_string : String → List String → List String
insert_string s [] = s ∷ []
insert_string s (t ∷ ts) =
    let later = insert_string s ts in
    elim (compare s t) [ Ordering.gt ↦ t ∷ later | _ ↦ s ∷ t ∷ ts ]

pub sort_strings : List String → List String
unfolding insert_string
sort_strings [] = []
sort_strings (s ∷ ss) = insert_string s (sort_strings ss)

-- The loop of filterCapabilities.
pub filter_each : List String → List String → List String
filter_each seen [] = []
filter_each seen (c ∷ cs) =
    let kept = filter_each (c ∷ seen) cs in
    let dropped = filter_each seen cs in
    if contains_cap all_capabilities c && not (contains_cap seen c) then c ∷ kept else dropped

pub filter_capabilities : List String → List String
unfolding filter_each sort_strings
filter_capabilities cs = sort_strings (filter_each [] cs)

same_strings : List String → List String → Bool
same_strings [] [] = true
same_strings [] (y ∷ ys) = false
same_strings (x ∷ xs) [] = false
same_strings (x ∷ xs) (y ∷ ys) = x == y && same_strings xs ys

unfoldable pub same_capability_set : List String → List String → Bool
unfolding filter_capabilities same_strings
same_capability_set a b = same_strings (filter_capabilities a) (filter_capabilities b)
