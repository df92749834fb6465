-- ===== src/Actions/ApprovalPolicy/Modes.antt =====
-- Which actions `evaluate_approval` of actions/approval_policy.py lets run by themselves, which it
-- holds, and which it refuses.
use rmt_platform.Prelude.{
  ◌≤◌, String, Bool, true, false, ◌≡◌, refl, ◌↔◌, ◌⊎◌, inl, inr, arith, ltb, string_eq, ge→ltb,
}
use rmt_platform.Actions.Models.{ActionRequest}
use rmt_platform.Actions.Policy.{ActionPolicyResult}
use rmt_platform.Actions.Simulation.{ActionSimulationResult}
use rmt_platform.Actions.ApprovalPolicy.{auto, reject, ApprovalDecision, evaluate_approval}

-- A low or medium risk, high confidence, no request for approval, and a way back.
pub record IsAutomatic (action : ActionRequest) (policy : ActionPolicyResult)
    (risk : ActionSimulationResult) : Type 0 where
  pub allowed : policy.allowed ≡ true
  pub risk_level : (risk.risk_level ≡ "low") ⊎ (risk.risk_level ≡ "medium")
  pub confidence : 90 ≤ action.confidence
  pub not_requested : action.requires_approval ≡ false
  pub rollback : risk.rollback_available ≡ true

module _ (id : String) (action : ActionRequest) (policy : ActionPolicyResult)
    (risk : ActionSimulationResult) where
  abbrev pub decision : ApprovalDecision
  decision = evaluate_approval id action policy risk

  auto-IsAutomatic : decision.mode ≡ auto → IsAutomatic action policy risk
  unfolding evaluate_approval
  auto-IsAutomatic h = ground (
    arith,
    string_eq.equals_iff risk.risk_level "low",
    string_eq.equals_iff risk.risk_level "medium",
  )

  IsAutomatic-auto : IsAutomatic action policy risk → decision.mode ≡ auto
  unfolding evaluate_approval
  IsAutomatic-auto h = by_risk h.risk_level
    where
      confident : ltb action.confidence 90 ≡ false
      confident = ge→ltb action.confidence 90 h.confidence

      by_risk :
          (risk.risk_level ≡ "low") ⊎ (risk.risk_level ≡ "medium")
          → (evaluate_approval id action policy risk).mode ≡ auto
      by_risk (inl e) = rw (h.allowed, e, confident, h.not_requested, h.rollback)
      by_risk (inr e) = rw (h.allowed, e, confident, h.not_requested, h.rollback)

  reject-reasons : decision.mode ≡ reject → (policy.allowed ≡ false) ⊎ (risk.risk_level ≡ "unknown")
  unfolding evaluate_approval
  reject-reasons h = ground (arith, string_eq.equals_iff risk.risk_level "unknown")

  reasons-reject : (policy.allowed ≡ false) ⊎ (risk.risk_level ≡ "unknown") → decision.mode ≡ reject
  unfolding evaluate_approval
  reasons-reject h = ground (arith, string_eq.equals_iff risk.risk_level "unknown")

  approved-auto : (decision.approved ≡ true) ↔ (decision.mode ≡ auto)
  unfolding evaluate_approval
  approved-auto = (λ h. ground arith, λ h. ground arith)

  -- The policy's own wish for an approval is not read.
  unread :
      (b : Bool)
      → evaluate_approval id action (record policy { requires_approval = b }) risk ≡ decision
  unfolding evaluate_approval
  unread b = refl

  -- An action runs by itself exactly when policy allows it, its risk is low or medium, its
  -- confidence is at least 90, it does not ask for approval and it can be rolled back; it is
  -- refused exactly when policy forbids it or its risk is unknown; only an automatic decision is
  -- marked as approved; and the decision is the same whatever requires_approval says in the result
  -- of the policy.
  pub evaluate_approval_modes :
      ((decision.mode ≡ auto) ↔ IsAutomatic action policy risk)
      × ((decision.mode ≡ reject) ↔ ((policy.allowed ≡ false) ⊎ (risk.risk_level ≡ "unknown")))
      × ((decision.approved ≡ true) ↔ (decision.mode ≡ auto))
      × ((b : Bool)
          → evaluate_approval id action (record policy { requires_approval = b }) risk ≡ decision)
  evaluate_approval_modes = (
    (auto-IsAutomatic, IsAutomatic-auto),
    (reject-reasons, reasons-reject),
    approved-auto,
    unread,
  )
