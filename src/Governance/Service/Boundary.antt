-- ===== src/Governance/Service/Boundary.antt =====
-- What must have happened before `execute_governed_action` of actions/service.py changes the world
-- or saves an authorization.
use rmt_platform.Prelude.{
  String, true, false, not, ◌≡◌, ◌≢◌, refl, Bool-cases, inl, inr, ◌⊎◌, ap, if_true, if_false,
}
use rmt_platform.Prelude.Result.{ok, Result-cases}
use rmt_platform.Environment.{Site, Env}
use rmt_platform.State.{State}
use rmt_platform.Actions.Models.{ActionRequest}
use rmt_platform.Actions.ApprovalPolicy.{ApprovalMode, auto, manual, reject, ApprovalDecision}
use rmt_platform.Actions.ApprovalPolicy.Modes.{IsAutomatic, evaluate_approval_modes}
use rmt_platform.Actions.Assessment.{GovernanceAssessment, resolve_assessment}
use rmt_platform.Governance.Platform.{Platform}
use rmt_platform.Governance.Records.{record_approval_decision, hold_for_manual_approval}
use rmt_platform.Governance.Service.{approval_of, follow, govern_assessed, execute_governed_action}

-- Neither the world nor what it takes to act on it has changed: no authorization was saved, and
-- nothing was audited, traced or verified.
pub record IsUntouched {W : Type 0} (s s' : State W) : Type 0 where
  pub world : s'.world ≡ s.world
  pub authorizations : s'.authorizations ≡ s.authorizations
  pub audit : s'.audit ≡ s.audit
  pub traces : s'.traces ≡ s.traces
  pub verifications : s'.verifications ≡ s.verifications

module _ {W : Type 0} (p : Platform W) (env : Env) (action : ActionRequest) (adapter : String)
    (s : State W) where
  follow-IsUntouched :
      (a : GovernanceAssessment) (d : ApprovalDecision) (mode : ApprovalMode)
      → mode ≢ auto
      → IsUntouched s (follow p env action adapter a d mode s).1
  unfolding follow record_approval_decision hold_for_manual_approval
  follow-IsUntouched a d auto h = absurd (h refl)
  follow-IsUntouched a d manual h = record {
    world = refl;
    authorizations = refl;
    audit = refl;
    traces = refl;
    verifications = refl;
  }
  follow-IsUntouched a d reject h = record {
    world = refl;
    authorizations = refl;
    audit = refl;
    traces = refl;
    verifications = refl;
  }

  -- The action was assessed, and its assessment lets it run by itself.
  pub record IsCleared : Type 0 where
    pub assessment : GovernanceAssessment
    pub resolved : resolve_assessment p.hashing p.registry env action adapter ≡ ok assessment
    pub automatic : IsAutomatic action assessment.policy_result assessment.risk_result

  untouched : IsUntouched s s
  untouched = record {
    world = refl;
    authorizations = refl;
    audit = refl;
    traces = refl;
    verifications = refl;
  }

  mode-cases : (m : ApprovalMode) → (m ≡ auto) ⊎ (m ≢ auto)
  mode-cases auto = inl refl
  mode-cases manual = inr (λ e. cc)
  mode-cases reject = inr (λ e. cc)

  pub govern_assessed-allowed :
      (a : GovernanceAssessment)
      → a.policy_result.allowed ≡ true
      → govern_assessed p env action adapter a s
        ≡ follow p env action adapter a (approval_of env action a) (approval_of env action a).mode s
  unfolding govern_assessed
  govern_assessed-allowed a h = if_false (not a.policy_result.allowed) _ _ (ap not h)

  pub execute-resolved :
      (a : GovernanceAssessment)
      → resolve_assessment p.hashing p.registry env action adapter ≡ ok a
      → execute_governed_action p env action adapter s ≡ govern_assessed p env action adapter a s
  unfolding execute_governed_action
  execute-resolved a h = rw (h, execute_governed_action)

  denied-IsUntouched :
      (a : GovernanceAssessment)
      → a.policy_result.allowed ≡ false
      → IsUntouched s (govern_assessed p env action adapter a s).1
  unfolding govern_assessed
  denied-IsUntouched a h = rw (if_true (not a.policy_result.allowed) _ _ (ap not h)) untouched

  -- Whatever is asked for, either the action was assessed and its assessment clears it to run by
  -- itself, or the world, the authorizations, the audit records, the traces and the verifications
  -- are as before.
  pub boundary : IsCleared ⊎ IsUntouched s (execute_governed_action p env action adapter s).1
  unfolding execute_governed_action
  boundary = elim (Result-cases (resolve_assessment p.hashing p.registry env action adapter)) [
    | inl (e, failed) ↦ rw (failed, execute_governed_action) (inr untouched)
    | inr (a, resolved) ↦ elim (Bool-cases a.policy_result.allowed) [
      | inr denied ↦ inr (rw (execute-resolved a resolved) (denied-IsUntouched a denied))
      | inl allowed ↦ elim (mode-cases (approval_of env action a).mode) [
        | inl runs ↦
            let modes =
              evaluate_approval_modes (env.uuid Site.decision) action a.policy_result
                a.risk_result in
            inl (record { assessment = a; resolved = resolved; automatic = modes.0.0 runs })
        | inr waits ↦ inr (
            rw (execute-resolved a resolved, govern_assessed-allowed a allowed)
              (follow-IsUntouched a _ _ waits))
      ]
    ]
  ]
