-- ===== src/Budget/Sound/Rows.antt =====
-- The invariant of the ledger is kept when rows of the other tables are added or changed.
use rmt_platform.Prelude.{
  String, Bool, true, false, some, List, [], ◌∷◌, ◌≡◌, refl, sym, ap, ◌∙◌, subst, inl, inr,
  Bool-cases, if_true, if_false, some_injective, arith, ◌==◌, string_eq, ==→≡, All,
}
use rmt_platform.Prelude.Text.{strip}
use rmt_platform.Budget.Storage.{
  Budget, PurchaseRequest, LedgerEntry, fetch_one, exists, update_request,
}
use rmt_platform.Budget.Sound.{IsBudgeted, IsFiled, IsStripped}

-- What a request is identified by, which no operation changes.
abbrev pub Identity : Type 0
Identity = String × String × String

abbrev pub identity : PurchaseRequest → Identity
identity r = (r.id, r.budget_id, r.requester)

-- Each request is still there, with its identity.
abbrev pub IsKept : List PurchaseRequest → List PurchaseRequest → Type 0
IsKept rs rs' =
    (id : String) (r : PurchaseRequest)
    → fetch_one (λ q. q.id == id) rs ≡ some r
    → (r' : PurchaseRequest) × (fetch_one (λ q. q.id == id) rs' ≡ some r')
      × (identity r' ≡ identity r)

head-IsKept :
    (x q : PurchaseRequest) (rest rs : List PurchaseRequest)
    → identity x ≡ identity q
    → IsKept rs rest
    → IsKept (q ∷ rs) (x ∷ rest)
unfolding fetch_one
head-IsKept x q rest rs same kept id r h = elim (Bool-cases (q.id == id)) [
  | inl found ↦
      let here = subst (λ i. (i == id) ≡ true) (ap (λ k. k.0) (sym same)) found in
      (x, if_true _ _ _ here, same ∙ ap identity (some_injective (sym (if_true _ _ _ found) ∙ h)))
  | inr differs ↦
      let there = subst (λ i. (i == id) ≡ false) (ap (λ k. k.0) (sym same)) differs in
      let (r', fetched, same') = kept id r (sym (if_false _ _ _ differs) ∙ h) in
      (r', if_false _ _ _ there ∙ fetched, same')
]

pub fetch_one-exists :
    {A : Type 0} (m : A → Bool) (rows : List A) {found : A}
    → fetch_one m rows ≡ some found
    → exists m rows ≡ true
unfolding fetch_one exists
fetch_one-exists m [] h = cc
fetch_one-exists m (row ∷ rows) h = elim (Bool-cases (m row)) [
  | inl holds ↦ ground (arith, holds)
  | inr fails ↦
      let later = fetch_one-exists m rows (sym (if_false _ _ _ fails) ∙ h) in ground (arith, later)
]

module _ (change : PurchaseRequest → PurchaseRequest)
    (tame : (r : PurchaseRequest) → identity (change r) ≡ identity r) (key : String) where
  pub update-IsKept : (rs : List PurchaseRequest) → IsKept rs (update_request change key rs)
  unfolding fetch_one update_request
  update-IsKept [] = λ id r h. cc
  update-IsKept (q ∷ rs) = elim (Bool-cases (q.id == key)) [
    | inl same ↦ rw (same) (head-IsKept (change q) q _ rs (tame q) (update-IsKept rs))
    | inr differs ↦ rw (differs) (head-IsKept q q _ rs refl (update-IsKept rs))
  ]

  pub update-IsStripped :
      (rs : List PurchaseRequest)
      → All IsStripped rs
      → All IsStripped (update_request change key rs)
  unfolding update_request
  update-IsStripped [] given = tt
  update-IsStripped (q ∷ rs) (p, ps) = elim (Bool-cases (q.id == key)) [
    | inl same ↦
        rw (same)
          (subst (λ i. strip i ≡ i) (ap (λ k. k.0) (sym (tame q))) p, update-IsStripped rs ps)
    | inr differs ↦ rw (differs) (p, update-IsStripped rs ps)
  ]

pub insert-IsKept :
    (new : PurchaseRequest) (rs : List PurchaseRequest)
    → exists (λ q. q.id == new.id) rs ≡ false
    → IsKept rs (new ∷ rs)
unfolding fetch_one
insert-IsKept new rs fresh id r h = elim (Bool-cases (new.id == id)) [
  | inl same ↦
      let taken = fetch_one-exists (λ q. q.id == id) rs h in
      let free = subst (λ i. exists (λ q. q.id == i) rs ≡ false) (==→≡ new.id id same) fresh in
      absurd (ground (arith, taken, free))
  | inr differs ↦ (r, if_false _ _ _ differs ∙ h, refl)
]

pub kept-IsFiled :
    (rs rs' : List PurchaseRequest) (es : List LedgerEntry)
    → IsKept rs rs'
    → All (IsFiled rs) es
    → All (IsFiled rs') es
kept-IsFiled rs rs' [] kept given = tt
kept-IsFiled rs rs' (e ∷ es) kept (f, fs) = (
  (λ committed.
      let (r, of_request, fetched, mine) = f committed in
      let (r', fetched', same) = kept r.id r fetched in
      (
        r',
        of_request ∙ ap (λ k. some k.0) (sym same),
        subst (λ i. fetch_one (λ q. q.id == i) rs' ≡ some r') (ap (λ k. k.0) (sym same)) fetched',
        ap (λ k. k.1) same ∙ mine,
      )),
  kept-IsFiled rs rs' es kept fs,
)

pub IsBudgeted-insert :
    (b : Budget) (bs : List Budget) (es : List LedgerEntry)
    → All (IsBudgeted bs) es
    → All (IsBudgeted (b ∷ bs)) es
unfolding exists
IsBudgeted-insert b bs [] given = tt
IsBudgeted-insert b bs (e ∷ es) (g, gs) = (ground (arith, g), IsBudgeted-insert b bs es gs)
