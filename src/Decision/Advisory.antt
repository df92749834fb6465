-- ===== src/Decision/Advisory.antt =====
-- What core/intelligence/decision/engine.py proposes, against the mapping of actions/translator.py.
use rmt_platform.Prelude.{ℕ, String, Option, none, ◌≡◌, refl, inl, inr, Bool-cases, string_eq}
use rmt_platform.Decision.{
  HealthEvaluation, HealthStatus, healthy, warning, critical, unknown, History,
  IntelligenceDecision, is_recurring, make_decision, action_mapping, decision_to_action,
}

module _ (id : String) (now : ℕ) where
  unmapped :
      (d : IntelligenceDecision)
      → action_mapping d.action ≡ none
      → decision_to_action id now d ≡ none
  unfolding decision_to_action
  unmapped d h = rw (h, decision_to_action) refl

  by_status :
      (e : HealthEvaluation) (analysis : Option History) (status : HealthStatus)
      → e.status ≡ status
      → action_mapping (make_decision e analysis).action ≡ none
  unfolding make_decision action_mapping
  by_status e analysis healthy h = rw h
  by_status e analysis critical h = rw h
  by_status e analysis unknown h = rw h
  by_status e analysis warning h = elim (Bool-cases (is_recurring analysis)) [
    | inl again ↦ rw (h, make_decision, again)
    | inr first ↦ rw (h, make_decision, first)
  ]

  -- Whatever the health of a component and its history are, the decision that the engine makes of
  -- them translates to no action.
  pub decision-advisory :
      (e : HealthEvaluation) (analysis : Option History)
      → decision_to_action id now (make_decision e analysis) ≡ none
  decision-advisory e analysis =
      unmapped (make_decision e analysis) (by_status e analysis e.status refl)
