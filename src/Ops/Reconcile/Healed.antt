-- ===== src/Ops/Reconcile/Healed.antt =====
-- The hold store after the correction of ops/reconcile.py, as a map over the holds.
use rmt_platform.Prelude.{
  String, Bool, false, Option, none, some, List, [], ◌∷◌, map, ◌==◌, string_eq, ◌≡◌, ◌≢◌, refl, ap,
  sym, ◌∙◌, arith, Option-cases, Bool-cases, inl, inr, ==-refl, ≢→==, subst,
}
use rmt_platform.Durable.{DurableStore, find_index, modify_first}
use rmt_platform.Durable.Sync.{has_id, IsDistinct, records-update}
use rmt_platform.State.{State, hold_schema}
use rmt_platform.Actions.Approval.{
  ApprovalStatus, pending, approved, rejected, ApprovalHold, ApprovalRecord, hold_id, record_by_id,
}
use rmt_platform.Governance.Approve.{is_pending}
use rmt_platform.Ops.Reconcile.{
  decision_status, resolution, corrected, reconcile_each, reconcile_holds_against_records,
}

abbrev pub is_hold : String → ApprovalHold → Bool
is_hold = has_id hold_id (λ h. h.created_at)

abbrev pub DistinctHolds : List ApprovalHold → Type 0
DistinctHolds = IsDistinct hold_id (λ h. h.created_at)

-- What a hold should be, by its record.
unfoldable pub healed : DurableStore ApprovalRecord → ApprovalHold → ApprovalHold
healed records h = elim (resolution records h) [
  | none ↦ h
  | some (true_status, by) ↦ corrected h.approved_by true_status by h
]

pub corrected-id :
    (b : Option String) (t : ApprovalStatus) (by : String) (h : ApprovalHold)
    → (corrected b t by h).approval_id ≡ h.approval_id
corrected-id none t by h = refl
corrected-id (some b) t by h = refl

module _ (records : DurableStore ApprovalRecord) where
  -- The loop, on the list of holds in memory alone.
  abbrev step : ApprovalHold → List ApprovalHold → List ApprovalHold
  step hold hs = elim (resolution records hold) [
    | none ↦ hs
    | some (true_status, by) ↦
        modify_first (is_hold hold.approval_id) (corrected hold.approved_by true_status by) hs
  ]

  abbrev steps : List ApprovalHold → List ApprovalHold → List ApprovalHold
  steps [] hs = hs
  steps (hold ∷ rest) hs = steps rest (step hold hs)

  pub healed-id : (h : ApprovalHold) → (healed records h).approval_id ≡ h.approval_id
  unfolding healed
  healed-id h = elim (Option-cases (resolution records h)) [
    | inl kept ↦ rw (kept, healed) refl
    | inr ((t, by), e) ↦ rw (e, healed) (corrected-id h.approved_by t by h)
  ]

  step_self : (h : ApprovalHold) (hs : List ApprovalHold) → step h (h ∷ hs) ≡ healed records h ∷ hs
  unfolding healed modify_first
  step_self h hs = elim (Option-cases (resolution records h)) [
    | inl kept ↦ rw (kept, healed, step) refl
    | inr ((t, by), e) ↦ rw (e, healed, step, ==-refl {A = String} h.approval_id) refl
  ]

  -- A hold with another identifier is left alone.
  step-other :
      (x y : ApprovalHold) (ys : List ApprovalHold)
      → (y.approval_id == x.approval_id) ≡ false
      → step x (y ∷ ys) ≡ y ∷ step x ys
  unfolding modify_first
  step-other x y ys h = elim (Option-cases (resolution records x)) [
    | inl kept ↦ rw (kept, step) refl
    | inr ((t, by), e) ↦ rw (e, step, h) refl
  ]

  absent-head :
      (k : String) (x : ApprovalHold) (xs : List ApprovalHold)
      → find_index (is_hold k) (x ∷ xs) ≡ none
      → (k == x.approval_id) ≡ false
  unfolding find_index
  absent-head k x xs h =
      ground (arith, string_eq.equals_iff x.approval_id k, string_eq.equals_iff k x.approval_id)

  absent-tail :
      (k : String) (x : ApprovalHold) (xs : List ApprovalHold)
      → find_index (is_hold k) (x ∷ xs) ≡ none
      → find_index (is_hold k) xs ≡ none
  unfolding find_index
  absent-tail k x xs h = ground arith

  steps-other :
      (xs : List ApprovalHold) (y : ApprovalHold) (k : String) (ys : List ApprovalHold)
      → y.approval_id ≡ k
      → find_index (is_hold k) xs ≡ none
      → steps xs (y ∷ ys) ≡ y ∷ steps xs ys
  steps-other [] y k ys e h = refl
  steps-other (x ∷ xs) y k ys e h =
      ap (steps xs) (step-other x y ys (rw e (absent-head k x xs h)))
      ∙ steps-other xs y k (step x ys) e (absent-tail k x xs h)

  -- Where identifiers are distinct, the loop corrects each hold and nothing else.
  steps-map : (xs : List ApprovalHold) → DistinctHolds xs → steps xs xs ≡ map (healed records) xs
  steps-map [] d = refl
  steps-map (x ∷ xs) d =
      ap (steps xs) (step_self x xs)
      ∙ steps-other xs (healed records x) x.approval_id xs (healed-id x) d.0
      ∙ ap (λ ys. healed records x ∷ ys) (steps-map xs d.1)

  records-each :
      (xs : List ApprovalHold) (s : DurableStore ApprovalHold)
      → (reconcile_each records xs s).1.records ≡ steps xs s.records
  unfolding reconcile_each
  records-each [] s = refl
  records-each (x ∷ xs) s = elim (Option-cases (resolution records x)) [
    | inl kept ↦ rw (kept, reconcile_each, step) (records-each xs s)
    | inr ((t, by), e) ↦
        rw (e, reconcile_each, step)
          (records-each xs _ ∙ ap (steps xs) (records-update hold_schema _ _ s))
  ]

-- An approver that a hold has is not replaced by the one of the record.
abbrev first_of : Option String → String → String
first_of none by = by
first_of (some b) by = b

abbrev Decided : String → ApprovalStatus → ApprovalRecord → ApprovalHold → ApprovalHold → Type 0
Decided decision status r h h' =
    r.decision ≡ decision
    → h' ≡ record h { status = status; approved_by = some (first_of h.approved_by r.approved_by) }

-- What becomes of a hold: the record of a pending one settles it, and nothing else changes it.
pub record IsHealed (records : DurableStore ApprovalRecord) (h h' : ApprovalHold) : Type 0 where
  pub settled :
      (r : ApprovalRecord)
      → h.status ≡ pending
      → record_by_id h.approval_id records ≡ some r
      → Decided "approved" approved r h h' × Decided "rejected" rejected r h h'
  pub open_ :
      (r : ApprovalRecord)
      → record_by_id h.approval_id records ≡ some r
      → r.decision ≢ "approved"
      → r.decision ≢ "rejected"
      → h' ≡ h
  pub unrecorded : record_by_id h.approval_id records ≡ none → h' ≡ h
  pub not_pending : h.status ≢ pending → h' ≡ h

-- The holds before and after, one by one.
abbrev pub AreHealed : DurableStore ApprovalRecord → List ApprovalHold → List ApprovalHold → Type 0
AreHealed records [] [] = Unit
AreHealed records (h ∷ hs) (h' ∷ hs') = IsHealed records h h' × AreHealed records hs hs'
AreHealed records _ _ = ⊥

≢-is_pending : (status : ApprovalStatus) → status ≢ pending → is_pending status ≡ false
≢-is_pending pending over = absurd (over refl)
≢-is_pending approved over = refl
≢-is_pending rejected over = refl

corrected-first :
    (h : ApprovalHold) (t : ApprovalStatus) (by : String) (b : Option String)
    → h.approved_by ≡ b
    → corrected b t by h ≡ record h { status = t; approved_by = some (first_of h.approved_by by) }
corrected-first h t by none e = rw e refl
corrected-first h t by (some b) e =
    ap (λ o. record h { status = t; approved_by = o }) e
    ∙ ap (λ o. record h { status = t; approved_by = some (first_of o by) }) (sym e)

module _ (records : DurableStore ApprovalRecord) (h : ApprovalHold) where
  healed-settled :
      (r : ApprovalRecord) (t : ApprovalStatus)
      → h.status ≡ pending
      → record_by_id h.approval_id records ≡ some r
      → decision_status r.decision ≡ some t
      → healed records h
        ≡ record h { status = t; approved_by = some (first_of h.approved_by r.approved_by) }
  unfolding healed resolution
  healed-settled r t waits found decides =
      rw (waits, found, decides, healed, resolution)
        (corrected-first h t r.approved_by h.approved_by refl)

  healed-IsHealed : IsHealed records h (healed records h)
  unfolding healed resolution decision_status
  healed-IsHealed = record {
    settled = λ r waits found. (
      λ e. healed-settled r approved waits found (rw (e, decision_status) refl),
      λ e. healed-settled r rejected waits found (rw (e, decision_status) refl),
    );
    open_ = λ r found no_approval no_rejection. elim (Bool-cases (is_pending h.status)) [
      | inl waits ↦
          rw
            (
              waits,
              found,
              ≢→== r.decision "approved" no_approval,
              ≢→== r.decision "rejected" no_rejection,
              healed,
              resolution,
              decision_status,
            )
            refl
      | inr over ↦ rw (over, healed, resolution) refl
    ];
    unrecorded = λ missing. elim (Bool-cases (is_pending h.status)) [
      | inl waits ↦ rw (waits, missing, healed, resolution) refl
      | inr over ↦ rw (over, healed, resolution) refl
    ];
    not_pending = λ over. rw (≢-is_pending h.status over, healed, resolution) refl;
  }

AreHealed-map :
    (records : DurableStore ApprovalRecord) (hs : List ApprovalHold)
    → AreHealed records hs (map (healed records) hs)
AreHealed-map records [] = tt
AreHealed-map records (h ∷ hs) = (healed-IsHealed records h, AreHealed-map records hs)

module _ {W : Type 0} (s : State W) (distinct : DistinctHolds s.holds.records) where
  -- Where no identifier of a hold occurs twice, the correction maps the holds.
  pub reconcile-map :
      (reconcile_holds_against_records s).1.holds.records ≡ map (healed s.records) s.holds.records
  unfolding reconcile_holds_against_records
  reconcile-map =
      records-each s.records s.holds.records s.holds ∙ steps-map s.records s.holds.records distinct

  -- Where no identifier of a hold occurs twice, the correction takes the holds one by one: a
  -- pending hold whose record says approved or rejected gets the status of that name, and the
  -- record's approver unless it has one already, and nothing else of it changes; a hold that is not
  -- pending, has no record, or whose record says anything else is left as it is.
  pub reconcile-AreHealed :
      AreHealed s.records s.holds.records (reconcile_holds_against_records s).1.holds.records
  reconcile-AreHealed =
      subst (AreHealed s.records s.holds.records) (sym reconcile-map)
        (AreHealed-map s.records s.holds.records)
