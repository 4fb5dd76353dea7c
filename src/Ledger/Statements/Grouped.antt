-- ===== src/Ledger/Statements/Grouped.antt =====
-- The loop of transactionsQuery groups the rows of its join.
use scout_site.Prelude.{
  ℕ, ◌≡◌, refl, sym, ap, ◌∙◌, inl, inr, Bool, true, false, List, [], ◌∷◌, ◌++◌, arith, ◌==◌,
  if◌then◌else◌, any, Bool-cases, ◌||◌,
}
use mathlib.Core.List.{append-nil, append_assoc}
use scout_site.Ledger.Statements.{PostingDetail, TransactionDetail, JoinRow, add_row, group_rows}

-- The postings listed for a transaction, all details together.
abbrev pub listed : ℕ → List TransactionDetail → List PostingDetail
listed i [] = []
listed i (td ∷ tds) = if td.transaction.id == i then td.postings ++ listed i tds else listed i tds

-- Those that the join has for it.
abbrev pub joined : ℕ → List JoinRow → List PostingDetail
joined i [] = []
joined i (r ∷ rs) = if r.transaction.id == i then r.posting ∷ joined i rs else joined i rs

abbrev pub among : ℕ → List TransactionDetail → Bool
among i = any (λ (td : TransactionDetail). td.transaction.id == i)

-- Every transaction has one detail.
abbrev pub Single : List TransactionDetail → Type 0
Single [] = Unit
Single (td ∷ tds) = (among td.transaction.id tds ≡ false) × Single tds

listed-none : (i : ℕ) (tds : List TransactionDetail) → among i tds ≡ false → listed i tds ≡ []
listed-none i [] h = refl
listed-none i (td ∷ tds) h = ground (arith, listed-none i tds)

among-add_row :
    (i : ℕ) (r : JoinRow) (tds : List TransactionDetail)
    → among i (add_row r tds) ≡ (r.transaction.id == i || among i tds)
unfolding add_row
among-add_row i r [] = refl
among-add_row i r (td ∷ tds) = ground (arith, among-add_row i r tds)

Single-add_row : (r : JoinRow) (tds : List TransactionDetail) → Single tds → Single (add_row r tds)
unfolding add_row
Single-add_row r [] h = (refl, tt)
Single-add_row r (td ∷ tds) (new, h) = elim (Bool-cases (td.transaction.id == r.transaction.id)) [
  | inl same ↦ rw same (new, h)
  | inr other ↦
      rw other (ground (arith, among-add_row td.transaction.id r tds), Single-add_row r tds h)
]

listed-add_row :
    (i : ℕ) (r : JoinRow) (tds : List TransactionDetail)
    → Single tds
    → listed i (add_row r tds)
      ≡ listed i tds ++ (if r.transaction.id == i then r.posting ∷ [] else [])
unfolding add_row
listed-add_row i r [] h = elim (Bool-cases (r.transaction.id == i)) [
  | inl same ↦ rw same refl
  | inr other ↦ rw other refl
]
listed-add_row i r (td ∷ tds) (new, h) = elim (Bool-cases (td.transaction.id == r.transaction.id)) [
  | inl found ↦ elim (Bool-cases (td.transaction.id == i)) [
    | inl mine ↦
        let rest : listed i tds ≡ [] = listed-none i tds (ground (arith, new)) in
        let this : (r.transaction.id == i) ≡ true = ground arith in
        rw
          (
            found,
            mine,
            this,
            rest,
            append-nil (td.postings ++ r.posting ∷ []),
            append-nil td.postings,
          )
          refl
    | inr foreign ↦
        let this : (r.transaction.id == i) ≡ false = ground arith in
        rw (found, foreign, this) (sym (append-nil (listed i tds)))
  ]
  | inr other ↦ elim (Bool-cases (td.transaction.id == i)) [
    | inl mine ↦
        rw (other, mine, listed-add_row i r tds h) (sym (append_assoc td.postings (listed i tds) _))
    | inr foreign ↦ rw (other, foreign) (listed-add_row i r tds h)
  ]
]

joined-cons :
    (i : ℕ) (r : JoinRow) (rs : List JoinRow)
    → (if r.transaction.id == i then r.posting ∷ [] else []) ++ joined i rs ≡ joined i (r ∷ rs)
joined-cons i r rs = elim (Bool-cases (r.transaction.id == i)) [
  | inl same ↦ rw same refl
  | inr other ↦ rw other refl
]

-- From details with one for each transaction, the loop over further rows leaves one for each, and
-- lists for every transaction what was listed before and then what the rows have for it, in order.
pub group_rows-listed :
    (rs : List JoinRow) (tds : List TransactionDetail)
    → Single tds
    → Single (group_rows rs tds)
      × ((i : ℕ) → listed i (group_rows rs tds) ≡ listed i tds ++ joined i rs)
unfolding group_rows
group_rows-listed [] tds h = (h, λ i. sym (append-nil (listed i tds)))
group_rows-listed (r ∷ rs) tds h =
    let (single, lists) = group_rows-listed rs (add_row r tds) (Single-add_row r tds h) in
    (
      single,
      λ i.
          lists i
          ∙ ap (λ x. x ++ joined i rs) (listed-add_row i r tds h)
          ∙ append_assoc (listed i tds) _ (joined i rs)
          ∙ ap (λ x. listed i tds ++ x) (joined-cons i r rs),
    )
