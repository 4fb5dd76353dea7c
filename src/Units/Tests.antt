-- ===== src/Units/Tests.antt =====
-- Roles and capabilities at concrete inputs.

use Prim.Native.String.{String}
use text.Mathlib.Text.{◌==◌}
use scout_site.Prelude.{◌↔◌, ◌⊎◌, ◌||◌, ◌&&◌, ◌≡◌, refl, true, false, List, [], ◌∷◌}
use scout_site.Ledger.Session.{empty_db}
use scout_site.Units.{
  cap_edit_content, cap_approve_submissions, cap_submit_for_approval, cap_email_group,
  cap_super_admin, Capabilities, has, covers_each, covers, filter_each, filter_capabilities,
  insert_string, sort_strings,
}
use scout_site.Store.Sql.{ok}
use scout_site.Store.Calm.{calm}
use scout_site.Units.Roles.{capabilities_for_roles}
use scout_site.Units.Ceiling.{covers_iff}
use scout_site.Units.Administrator.{Setting, apply_settings, super_admin_stays}

abbrev assistant : Capabilities
assistant =
    (cap_edit_content, true) ∷ (cap_approve_submissions, true) ∷ (cap_email_group, true) ∷ []

abbrev leader : Capabilities
leader = (cap_edit_content, true) ∷ (cap_email_group, true) ∷ []

abbrev patrol_leader : Capabilities
patrol_leader = (cap_submit_for_approval, true) ∷ (cap_email_group, true) ∷ []

above_leader : covers assistant leader ≡ true
unfolding covers covers_each has
above_leader = refl

above_patrol : covers leader patrol_leader ≡ true
unfolding covers covers_each has
above_patrol = refl

above_not_assistant : covers leader assistant ≡ false
unfolding covers covers_each has
above_not_assistant = refl

filtered :
    filter_capabilities (cap_super_admin ∷ "root" ∷ cap_email_group ∷ cap_super_admin ∷ [])
    ≡ cap_email_group ∷ cap_super_admin ∷ []
unfolding filter_capabilities filter_each sort_strings insert_string
filtered = refl

covers_iff_example : (covers leader patrol_leader ≡ true) ↔ (
    (has leader cap_super_admin ≡ true)
    ⊎ ((k : String)
        → has patrol_leader k ≡ true
        → (has leader k || (k == cap_submit_for_approval && has leader cap_edit_content)) ≡ true))
covers_iff_example = covers_iff leader patrol_leader (refl, (refl, tt))

-- An attempt to take everything from the administrators, and one that adds a capability.
abbrev attempts : List Setting
attempts =
    record { unit = 9; slug = "super_admin"; capabilities = []; actor = 1; now = 0; faults = [] }
    ∷ record {
      unit = 9;
      slug = "super_admin";
      capabilities = cap_super_admin ∷ [];
      actor = 1;
      now = 1;
      faults = [];
    }
    ∷ []

super_admin_stays_example :
    (caps : Capabilities) × ((capabilities_for_roles 9
        ("parent" ∷ "super_admin" ∷ [])
        (calm 2 (apply_settings attempts empty_db))).0
      ≡ ok caps)
    × (has caps cap_super_admin ≡ true)
super_admin_stays_example =
    super_admin_stays attempts empty_db 9 ("parent" ∷ "super_admin" ∷ []) 2 refl refl
