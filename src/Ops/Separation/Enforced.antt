-- ===== src/Ops/Separation/Enforced.antt =====
-- ops/separation.py over a sequence of calls: a hold's provenance stays until it is an hour old.
use rmt_platform.Prelude.{
  ℕ, ◌+◌, ◌≤◌, String, Bool, true, false, ◌||◌, Option, none, some, List, [], ◌∷◌, ◌≡◌, refl, sym,
  ap, ◌∙◌, inl, inr, Bool-cases, if_true, if_false, arith, ◌==◌, string_eq, All, option_eq,
  option_beq, some_injective, ==-refl, ==→≡,
}
use rmt_platform.Prelude.Dict.{lookup, lookup-insert, lookup-erase}
use rmt_platform.Ops.Separation.{
  provenance_max_age, HoldProvenance, Provenance, is_stale, prune, record_hold_provenance, fresh,
  get_hold_provenance, is_same, ruling, check_separation,
}

-- One call of the module.
pub data Event : Type 0 where
  recording : (now : ℕ) (id grant_id granted_by agent_id : Option String) → Event
  reading : (now : ℕ) (id : Option String) → Event
  checking : (enabled : Bool) (now : ℕ) (id approver : Option String) → Event

unfoldable pub play : Event → Provenance → Provenance
play (recording now id grant_id granted_by agent_id) d =
    record_hold_provenance now id grant_id granted_by agent_id d
play (reading now id) d = (get_hold_provenance now id d).1
play (checking enabled now id approver) d = (check_separation enabled now id approver d).1

unfoldable pub play_all : List Event → Provenance → Provenance
play_all [] d = d
play_all (e ∷ es) d = play_all es (play e d)

-- The call is made by this time, and does not record the hold anew.
abbrev pub IsApartFrom : String → ℕ → Event → Type 0
IsApartFrom id until (recording now other grant_id granted_by agent_id) =
    (now ≤ until) × ((other == some id) ≡ false)
IsApartFrom id until (reading now other) = now ≤ until
IsApartFrom id until (checking enabled now other approver) = now ≤ until

not_stale :
    (p : HoldProvenance) {now : ℕ}
    → now ≤ p.recorded_at + provenance_max_age
    → is_stale now p ≡ false
not_stale p early = ground (arith, early)

module _ (id : String) (p : HoldProvenance) where
  prune-keeps :
      (now : ℕ) (d : Provenance)
      → is_stale now p ≡ false
      → lookup id d ≡ some p
      → lookup id (prune now d) ≡ some p
  unfolding lookup prune
  prune-keeps now [] young h = cc
  prune-keeps now ((j, q) ∷ d) young h = elim (Bool-cases (j == id)) [
    | inl same ↦
        let is_p : q ≡ p = some_injective (sym (if_true _ _ _ same) ∙ h) in
        rw (ap (is_stale now) is_p ∙ young, same) (ap some is_p)
    | inr differs ↦
        let later = prune-keeps now d young (sym (if_false _ _ _ differs) ∙ h) in
        elim (Bool-cases (is_stale now q)) [
          | inl old ↦ rw (old) later
          | inr recent ↦ rw (recent, differs) later
        ]
  ]

  record-keeps :
      (now : ℕ) (other grant_id granted_by agent_id : Option String) (d : Provenance)
      → is_stale now p ≡ false
      → (other == some id) ≡ false
      → lookup id d ≡ some p
      → lookup id (record_hold_provenance now other grant_id granted_by agent_id d) ≡ some p
  unfolding record_hold_provenance option_beq
  record-keeps now none grant_id granted_by agent_id d young apart h = h
  record-keeps now (some other) grant_id granted_by agent_id d young apart h =
      elim (Bool-cases (other == "")) [
        | inl empty ↦ rw (empty) h
        | inr named ↦ rw (named) (
            lookup-insert other id _ (prune now d)
            ∙ if_false _ _ _ apart
            ∙ prune-keeps now d young h)
      ]

  -- A stale entry is another one's.
  stale-apart :
      (now : ℕ) (other : String) (d : Provenance) {q : HoldProvenance}
      → is_stale now p ≡ false
      → lookup id d ≡ some p
      → lookup other d ≡ some q
      → is_stale now q ≡ true
      → (other == id) ≡ false
  stale-apart now other d young h e old = elim (Bool-cases (other == id)) [
    | inr differs ↦ differs
    | inl same ↦
        let is_p = some_injective (sym e ∙ ap (λ i. lookup i d) (==→≡ other id same) ∙ h) in
        absurd (cc (sym old ∙ ap (is_stale now) is_p ∙ young))
  ]

  fresh-keeps :
      (now : ℕ) (other : String) (found : Option HoldProvenance) (d : Provenance)
      → is_stale now p ≡ false
      → lookup id d ≡ some p
      → lookup other d ≡ found
      → lookup id (fresh now other found d).1 ≡ some p
  unfolding fresh
  fresh-keeps now other none d young h e = h
  fresh-keeps now other (some q) d young h e = elim (Bool-cases (is_stale now q)) [
    | inr recent ↦ rw (recent) h
    | inl old ↦
        rw (old)
          (lookup-erase other id d ∙ if_false _ _ _ (stale-apart now other d young h e old) ∙ h)
  ]

  get-keeps :
      (now : ℕ) (other : Option String) (d : Provenance)
      → is_stale now p ≡ false
      → lookup id d ≡ some p
      → lookup id (get_hold_provenance now other d).1 ≡ some p
  unfolding get_hold_provenance
  get-keeps now none d young h = h
  get-keeps now (some other) d young h = elim (Bool-cases (other == "")) [
    | inl empty ↦ rw (empty) h
    | inr named ↦ rw (named) (fresh-keeps now other (lookup other d) d young h refl)
  ]

  play-keeps :
      (e : Event) (d : Provenance)
      → IsApartFrom id (p.recorded_at + provenance_max_age) e
      → lookup id d ≡ some p
      → lookup id (play e d) ≡ some p
  unfolding play check_separation
  play-keeps (recording now other grant_id granted_by agent_id) d (early, apart) h =
      record-keeps now other grant_id granted_by agent_id d (not_stale p early) apart h
  play-keeps (reading now other) d early h = get-keeps now other d (not_stale p early) h
  play-keeps (checking true now other approver) d early h =
      get-keeps now other d (not_stale p early) h
  play-keeps (checking false now other approver) d early h = h

  play_all-keeps :
      (es : List Event) (d : Provenance)
      → All (IsApartFrom id (p.recorded_at + provenance_max_age)) es
      → lookup id d ≡ some p
      → lookup id (play_all es d) ≡ some p
  unfolding play_all
  play_all-keeps [] d apart h = h
  play_all-keeps (e ∷ es) d (a, apart) h = play_all-keeps es (play e d) apart (play-keeps e d a h)

  check-held :
      (now : ℕ) (approver : Option String) (d : Provenance)
      → (id == "") ≡ false
      → now ≤ p.recorded_at + provenance_max_age
      → lookup id d ≡ some p
      → (check_separation true now (some id) approver d).0 ≡ ruling approver (some p)
  unfolding check_separation get_hold_provenance fresh
  check-held now approver d named early h = rw (named, h, not_stale p early) refl

ruling-denied :
    (approver : Option String) (p : HoldProvenance)
    → (is_same approver p.granted_by || is_same approver p.agent_id) ≡ true
    → (ruling approver (some p)).0 ≡ false
unfolding ruling
ruling-denied approver p own = elim (Bool-cases (is_same approver p.granted_by)) [
  | inl grantor ↦ ap (λ (r : Bool × String). r.0) (if_true _ _ _ grantor)
  | inr other ↦
      let proposer : is_same approver p.agent_id ≡ true = ground (arith, own, other) in
      ap (λ (r : Bool × String). r.0)
        (if_false _ _ _ other
          ∙ if_true (is_same approver p.agent_id) (false, "approver_is_proposer") (true, "ok")
              proposer)
]

-- Once the hold of an agent is recorded, whatever calls are made for other holds, readings and
-- checks follow within an hour, a check within that hour denies the approver who granted the
-- authority and the agent that proposed, where the check is switched on and names are not empty.
pub check-enforced :
    (id : String) (grant_id granted_by agent_id approver : Option String) (at now : ℕ)
    (es : List Event) (d : Provenance)
    → (id == "") ≡ false
    → (is_same approver granted_by || is_same approver agent_id) ≡ true
    → All (IsApartFrom id (at + provenance_max_age)) es
    → now ≤ at + provenance_max_age
    → (check_separation true now
        (some id)
        approver
        (play_all es (record_hold_provenance at (some id) grant_id granted_by agent_id d))).0.0
      ≡ false
unfolding record_hold_provenance
check-enforced id grant_id granted_by agent_id approver at now es d named own apart early =
    let p : HoldProvenance = record {
      approval_id = id;
      grant_id = grant_id;
      granted_by = granted_by;
      agent_id = agent_id;
      recorded_at = at;
    } in
    let held =
      ap (lookup id) (if_false _ _ _ named)
      ∙ lookup-insert id id p (prune at d)
      ∙ if_true _ _ _ (==-refl {A = String} id) in
    ap (λ r. r.0) (check-held id p now approver _ named early (play_all-keeps id p es _ apart held))
    ∙ ruling-denied approver p own
