-- ===== src/Newsletter/Recipients.antt =====
-- Who is written to when a message goes to dens or patrols.
use scout_site.Prelude.{
  ℕ, ◌≡◌, refl, ap, ◌∙◌, inl, inr, Bool, true, false, ◌&&◌, ◌||◌, some, List, [], ◌∷◌, arith, ◌==◌,
  any, All, Bool-cases,
}
use scout_site.Prelude.Text.{Bytes, same_bytes, same_bytes_eq}
use scout_site.Store.Rows.{Member, RoleAssignment, Db}
use scout_site.Store.Logins.{User}
use scout_site.Store.Sql.{Result, ok, err, World, pure, query, next_fault}
use scout_site.Newsletter.Reach.{
  add_email, emails_of, member_is, in_group, own_login_reached, reached_by_groups,
  recipient_emails_for_groups,
}

abbrev pub is_listed : Bytes → List Bytes → Bool
is_listed email = any (λ x. same_bytes email x)

same_bytes_trans-any :
    (e f : Bytes) (es : List Bytes)
    → same_bytes e f ≡ true
    → any (same_bytes f) es ≡ true
    → is_listed e es ≡ true
same_bytes_trans-any e f es h g = rw (same_bytes_eq e f h) g

is_listed-add_email :
    (e f : Bytes) (es : List Bytes)
    → is_listed e (add_email f es) ≡ (same_bytes e f || is_listed e es)
unfolding add_email
is_listed-add_email e f es = elim (Bool-cases (any (same_bytes f) es)) [
  | inr new ↦ rw new refl
  | inl old ↦ rw old (elim (Bool-cases (same_bytes e f)) [
    | inl same ↦ rw same (same_bytes_trans-any e f es same old)
    | inr other ↦ rw other refl
  ])
]

-- An address is listed exactly where a user that is reached has it.
is_listed-emails_of :
    (reached : User → Bool) (e : Bytes) (us : List User)
    → is_listed e (emails_of reached us) ≡ any (λ (u : User). reached u && same_bytes e u.email) us
unfolding emails_of
is_listed-emails_of reached e [] = refl
is_listed-emails_of reached e (u ∷ us) = elim (Bool-cases (reached u)) [
  | inl h ↦ rw h (
      is_listed-add_email e u.email (emails_of reached us)
      ∙ ap (λ b. same_bytes e u.email || b) (is_listed-emails_of reached e us))
  | inr h ↦ rw h (is_listed-emails_of reached e us)
]

-- The user is a member who is no adult and holds no role in the chosen groups.
pub record IsOutside (unit : ℕ) (chosen : List ℕ) (d : Db) (u : User) : Type 0 where
  pub id : ℕ
  pub own_login : u.member_id ≡ some id
  pub no_adult : member_is id (λ (m : Member). m.adult) d.members ≡ false
  pub no_role :
      any (λ (r : RoleAssignment). r.member_id == id && in_group unit chosen d r) d.role_assignments
      ≡ false

member_is-no_adult :
    (id : ℕ) (ms : List Member)
    → member_is id (λ (m : Member). m.adult) ms ≡ false
    → member_is id (λ (m : Member). m.active && (m.adult || false)) ms ≡ false
member_is-no_adult id [] h = refl
member_is-no_adult id (m ∷ ms) h =
    let rest = member_is-no_adult id ms (ground (arith, h)) in ground (arith, h, rest)

module _ (unit : ℕ) (chosen : List ℕ) (d : Db) where
  IsOutside-unreached :
      (u : User) → IsOutside unit chosen d u → reached_by_groups unit chosen d u ≡ false
  unfolding own_login_reached
  IsOutside-unreached u o =
      let unreached : own_login_reached unit chosen d u.member_id ≡ false =
        rw (o.own_login, o.no_role) (member_is-no_adult o.id d.members o.no_adult) in
      rw unreached (ground arith)

  nobody_listed :
      (e : Bytes) (us : List User)
      → All (λ (u : User). same_bytes e u.email ≡ true → IsOutside unit chosen d u) us
      → any (λ (u : User). reached_by_groups unit chosen d u && same_bytes e u.email) us ≡ false
  nobody_listed e [] h = refl
  nobody_listed e (u ∷ us) (o, h) =
      let rest = nobody_listed e us h in
      elim (Bool-cases (same_bytes e u.email)) [
        | inl same ↦ let unreached = IsOutside-unreached u (o same) in rw (unreached, rest) refl
        | inr other ↦ rw (other, rest) (ground arith)
      ]

-- What is written to an address.
abbrev pub writes_to : Bytes → Result (List Bytes) → Bool
writes_to e (ok es) = is_listed e es
writes_to e (err x) = false

-- A message to dens or patrols is not written to an address all of whose logins are the own logins
-- of members who are no adults and hold no role in any of the chosen groups that is the unit's and
-- still runs, even if others of their family do.
pub recipient_emails_for_groups-IsOutside :
    (unit : ℕ) (chosen : List ℕ) (e : Bytes) (w : World)
    → All
        (λ (u : User). same_bytes e u.email ≡ true → IsOutside unit chosen w.db u)
        w.db.logins.users
    → writes_to e (recipient_emails_for_groups unit chosen w).0 ≡ false
unfolding recipient_emails_for_groups query pure
recipient_emails_for_groups-IsOutside unit [] e w h = refl
recipient_emails_for_groups-IsOutside unit (g ∷ gs) e w h =
    elim (Bool-cases (next_fault w.faults)) [
      | inl failed ↦ rw failed refl
      | inr sound ↦ rw sound (
          is_listed-emails_of (reached_by_groups unit (g ∷ gs) w.db) e w.db.logins.users
          ∙ nobody_listed unit (g ∷ gs) w.db e w.db.logins.users h)
    ]
