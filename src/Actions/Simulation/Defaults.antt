-- ===== src/Actions/Simulation/Defaults.antt =====
-- What the evaluators of the default domain (actions/policy.py and actions/simulation.py) let run by
-- themselves.
use rmt_platform.Prelude.{
  ◌≤◌, Bool, true, false, none, ◌≡◌, ◌↔◌, ◌⊎◌, inl, inr, refl, arith, sym, ◌∙◌, ltb, string_eq,
  ge→ltb,
}
use rmt_platform.Actions.Models.{
  ActionRequest, ActionType, value, restart_component, create_checkpoint, scale_down,
  isolate_component, start, stop, restart, create, remove,
}
use rmt_platform.Actions.Policy.{evaluate_action_policy}
use rmt_platform.Actions.Simulation.{simulate_action}
use rmt_platform.Actions.ApprovalPolicy.Modes.{IsAutomatic}

-- The operations that can be undone, of those that the default policy knows.
abbrev pub is_reversible : ActionType → Bool
is_reversible restart_component = true
is_reversible start = true
is_reversible stop = true
is_reversible restart = true
is_reversible create = true
is_reversible _ = false

module _ (action : ActionRequest) where
  abbrev ByDefault : Type 0
  ByDefault = IsAutomatic action (evaluate_action_policy action none) (simulate_action action)

  default-reversible :
      (t : ActionType)
      → action.action_type ≡ t
      → (simulate_action action).rollback_available ≡ is_reversible t
  unfolding simulate_action value
  default-reversible restart_component e = rw e
  default-reversible create_checkpoint e = rw e
  default-reversible scale_down e = rw e
  default-reversible isolate_component e = rw e
  default-reversible start e = rw e
  default-reversible stop e = rw e
  default-reversible restart e = rw e
  default-reversible create e = rw e
  default-reversible remove e = rw e

  default-risk :
      (t : ActionType)
      → action.action_type ≡ t
      → is_reversible t ≡ true
      → ((simulate_action action).risk_level ≡ "low")
        ⊎ ((simulate_action action).risk_level ≡ "medium")
  unfolding simulate_action value
  default-risk restart_component e h = rw e (inr refl)
  default-risk create_checkpoint e h = cc
  default-risk scale_down e h = cc
  default-risk isolate_component e h = cc
  default-risk start e h = rw e (inl refl)
  default-risk stop e h = rw e (inl refl)
  default-risk restart e h = rw e (inr refl)
  default-risk create e h = rw e (inr refl)
  default-risk remove e h = cc

  confident : 90 ≤ action.confidence → ltb action.confidence 70 ≡ false
  confident h = ge→ltb action.confidence 70 (omega arith)

  default-allowed :
      (t : ActionType)
      → action.action_type ≡ t
      → is_reversible t ≡ true
      → 90 ≤ action.confidence
      → (evaluate_action_policy action none).allowed ≡ true
  unfolding evaluate_action_policy value
  default-allowed restart_component e h c = rw (e, confident c)
  default-allowed create_checkpoint e h c = cc
  default-allowed scale_down e h c = cc
  default-allowed isolate_component e h c = cc
  default-allowed start e h c = rw (e, confident c)
  default-allowed stop e h c = rw (e, confident c)
  default-allowed restart e h c = rw (e, confident c)
  default-allowed create e h c = rw (e, confident c)
  default-allowed remove e h c = cc

  pub default-automatic : ByDefault ↔ (
      (is_reversible action.action_type ≡ true)
      × (90 ≤ action.confidence)
      × (action.requires_approval ≡ false))
  default-automatic = (
    λ h. (
      sym (default-reversible action.action_type refl) ∙ h.rollback,
      h.confidence,
      h.not_requested,
    ),
    λ (reversible, confidence, not_requested). record {
      allowed = default-allowed action.action_type refl reversible confidence;
      risk_level = default-risk action.action_type refl reversible;
      confidence = confidence;
      not_requested = not_requested;
      rollback = default-reversible action.action_type refl ∙ reversible;
    },
  )
