-- ===== src/Actions/Assessment/Registry.antt =====
-- The registry of actions/assessment.py: what `register` guarantees of every registration.
use rmt_platform.Prelude.{
  String, false, none, some, List, [], ◌∷◌, ◌++◌, ◌≡◌, ◌≢◌, refl, arith, ◌==◌, string_eq, ==→≢,
  Option-cases, inl, inr, if◌then◌else◌,
}
use rmt_platform.Prelude.Dict.{lookup}
use rmt_platform.Prelude.Result.{ok}
use rmt_platform.Actions.Assessment.{AssessmentRegistration, AssessmentRegistry, is_empty, register}

-- Evaluators with an identity and a version, and something to assess.
pub record IsComplete (r : AssessmentRegistration) : Type 0 where
  pub policy_id : r.policy.evaluator_id ≢ ""
  pub policy_version : r.policy.version ≢ ""
  pub risk_id : r.risk.evaluator_id ≢ ""
  pub risk_version : r.risk.version ≢ ""
  pub operations : r.operations ≢ []
  pub adapters : r.adapters ≢ []

-- Every domain that is found has a complete registration under its own name.
pub record IsWellFormed (registry : AssessmentRegistry) : Type 0 where
  pub at_domain :
      (d : String) (r : AssessmentRegistration)
      → lookup d registry ≡ some r
      → IsComplete r × (r.domain ≡ d)

pub IsWellFormed-empty : IsWellFormed []
unfolding lookup
IsWellFormed-empty = record { at_domain = λ d r h. cc }

lookup-append :
    (d : String) (registry : AssessmentRegistry) (new : AssessmentRegistration)
    → lookup d (registry ++ (new.domain, new) ∷ []) ≡ (elim (lookup d registry) [
      | none ↦ if new.domain == d then some new else none
      | some r ↦ some r
    ])
unfolding lookup
lookup-append d [] new = refl
lookup-append d ((e, r) ∷ registry) new = ground (arith, lookup-append d registry new)

-- The tests of `register` on the new registration, when it returns.
register-accepts :
    (new : AssessmentRegistration) (registry registry' : AssessmentRegistry)
    → register new registry ≡ ok registry'
    → (registry' ≡ registry ++ (new.domain, new) ∷ [])
      × (lookup new.domain registry ≡ none)
      × (is_empty new.operations ≡ false)
      × (is_empty new.adapters ≡ false)
      × ((new.policy.evaluator_id == "") ≡ false)
      × ((new.policy.version == "") ≡ false)
      × ((new.risk.evaluator_id == "") ≡ false)
      × ((new.risk.version == "") ≡ false)
unfolding register
register-accepts new registry registry' h = ground arith

appended_new :
    (d : String) (registry : AssessmentRegistry) (new r : AssessmentRegistration)
    → lookup d registry ≡ none
    → lookup d (registry ++ (new.domain, new) ∷ []) ≡ some r
    → (new ≡ r) × (new.domain ≡ d)
appended_new d registry new r absent found =
    ground (arith, lookup-append d registry new, string_eq.equals_iff new.domain d)

appended_old :
    (d : String) (registry : AssessmentRegistry) (new r : AssessmentRegistration)
    → lookup d registry ≢ none
    → lookup d (registry ++ (new.domain, new) ∷ []) ≡ some r
    → lookup d registry ≡ some r
appended_old d registry new r present found = ground (arith, lookup-append d registry new)

not_empty {ℓ} : {A : Type ℓ} (xs : List A) → is_empty xs ≡ false → xs ≢ []
not_empty [] h e = cc
not_empty (x ∷ xs) h e = cc

-- A registration that is accepted keeps the registry well formed: every domain that is found has
-- evaluators with an identity and a version, operations and adapters, under its own name.
pub register-IsWellFormed :
    (new : AssessmentRegistration) (registry registry' : AssessmentRegistry)
    → IsWellFormed registry
    → register new registry ≡ ok registry'
    → IsWellFormed registry'
register-IsWellFormed new registry registry' w h =
    let (same, fresh, ops, adapters, pid, pv, rid, rv) =
      register-accepts new registry registry' h in
    let complete : IsComplete new = record {
      policy_id = ==→≢ _ _ pid;
      policy_version = ==→≢ _ _ pv;
      risk_id = ==→≢ _ _ rid;
      risk_version = ==→≢ _ _ rv;
      operations = not_empty _ ops;
      adapters = not_empty _ adapters;
    } in
    record {
      at_domain = λ d r found. elim (Option-cases (lookup d registry)) [
        | inl absent ↦
            let (e, named) = appended_new d registry new r absent (rw same at found) in
            rw (← e) (complete, named)
        | inr (r', present) ↦
            w.at_domain d r
              (appended_old d registry new r (rw present (λ e. cc e)) (rw same at found))
      ];
    }

-- A registration that is accepted is found under its domain, and every other look-up is as before.
pub lookup-register :
    (new : AssessmentRegistration) (registry registry' : AssessmentRegistry) (d : String)
    → register new registry ≡ ok registry'
    → lookup d registry' ≡ (if new.domain == d then some new else lookup d registry)
lookup-register new registry registry' d h =
    let accepted = register-accepts new registry registry' h in
    let fresh = accepted.1 in
    rw accepted.0
      (ground (arith, lookup-append d registry new, fresh, string_eq.equals_iff new.domain d))
