-- ===== src/Newsletter/Reach.antt =====
-- Who a newsletter reaches, internal/newsletter/newsletter.go and post_email.go.
use scout_site.Prelude.{
  ℕ, Bool, true, false, ◌&&◌, ◌||◌, Option, none, some, List, [], ◌∷◌, ◌==◌, if◌then◌else◌, any,
}
use scout_site.Prelude.Text.{Bytes, same_bytes}
use scout_site.Store.Rows.{Member, RoleAssignment, Db}
use scout_site.Store.Logins.{User}
use scout_site.Store.Mailings.{Audience, whole_unit, groups, Newsletter, AudienceGroup, SubGroup}
use scout_site.Store.Sql.{no_recipients, Result, ok, err, M, pure, ◌>>=◌, query}

-- SELECT DISTINCT.
unfoldable pub add_email : Bytes → List Bytes → List Bytes
add_email email seen = if any (same_bytes email) seen then seen else email ∷ seen

-- The addresses of the users that `reached` holds for. Their order does not matter here.
unfoldable pub emails_of : (User → Bool) → List User → List Bytes
unfolding add_email
emails_of reached [] = []
emails_of reached (u ∷ us) =
    let rest = emails_of reached us in if reached u then add_email u.email rest else rest

abbrev pub member_is : ℕ → (Member → Bool) → List Member → Bool
member_is id q = any (λ (m : Member). m.id == id && q m)

-- A member of the family holds a role in the unit.
unfoldable pub family_in_unit : ℕ → Db → ℕ → Bool
family_in_unit unit d family =
    any
      (λ (r : RoleAssignment).
        r.unit_id == unit
        && member_is r.member_id (λ (m : Member). m.family_id == family) d.members)
      d.role_assignments

unfoldable pub recipient_emails_for_unit : ℕ → M (List Bytes)
recipient_emails_for_unit unit =
    query (λ d. ok (emails_of (λ (u : User). family_in_unit unit d u.family_id) d.logins.users))

-- A group that is one of the unit's, still runs, and is among those chosen.
unfoldable pub is_chosen : ℕ → List ℕ → Db → Option ℕ → Bool
is_chosen unit chosen d none = false
is_chosen unit chosen d (some g) =
    any (λ (s : SubGroup). s.id == g && (s.unit_id == unit && s.active)) d.mailings.sub_groups
    && any (λ i. i == g) chosen

abbrev pub in_group : ℕ → List ℕ → Db → RoleAssignment → Bool
in_group unit chosen d r = r.unit_id == unit && is_chosen unit chosen d r.sub_group_id

-- A family with an active member who holds a role in one of the groups.
unfoldable pub family_in_groups : ℕ → List ℕ → Db → ℕ → Bool
family_in_groups unit chosen d family =
    any
      (λ (r : RoleAssignment).
        in_group unit chosen d r
        && member_is r.member_id (λ (m : Member). m.family_id == family && m.active) d.members)
      d.role_assignments

-- Whose own login is reached: an active adult's, or an active member's with a role in the groups.
unfoldable pub own_login_reached : ℕ → List ℕ → Db → Option ℕ → Bool
own_login_reached unit chosen d none = true
own_login_reached unit chosen d (some id) =
    member_is id
      (λ (m : Member).
        m.active
        && (m.adult
            || any (λ (r : RoleAssignment). r.member_id == id && in_group unit chosen d r)
                d.role_assignments))
      d.members

abbrev pub reached_by_groups : ℕ → List ℕ → Db → User → Bool
reached_by_groups unit chosen d u =
    family_in_groups unit chosen d u.family_id && own_login_reached unit chosen d u.member_id

unfoldable pub recipient_emails_for_groups : ℕ → List ℕ → M (List Bytes)
recipient_emails_for_groups unit [] = pure []
recipient_emails_for_groups unit (g ∷ gs) =
    query (λ d. ok (emails_of (reached_by_groups unit (g ∷ gs) d) d.logins.users))

unfoldable pub group_ids : ℕ → List AudienceGroup → List ℕ
group_ids id [] = []
group_ids id (g ∷ gs) =
    let rest = group_ids id gs in if g.newsletter_id == id then g.sub_group_id ∷ rest else rest

unfoldable pub group_ids_for : ℕ → M (List ℕ)
group_ids_for id = query (λ d. ok (group_ids id d.mailings.newsletter_audience_groups))

abbrev pub emails_for_audience : Newsletter → Audience → M (List Bytes)
emails_for_audience n whole_unit = recipient_emails_for_unit n.unit_id
emails_for_audience n groups =
    group_ids_for n.id >>= λ chosen. recipient_emails_for_groups n.unit_id chosen

unfoldable pub recipient_emails_for : Newsletter → M (List Bytes)
recipient_emails_for n = emails_for_audience n n.audience

abbrev pub require_recipients : List Bytes → Result (Unit {0})
require_recipients [] = err no_recipients
require_recipients (e ∷ es) = ok tt
