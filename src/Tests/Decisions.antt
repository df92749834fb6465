-- ===== src/Tests/Decisions.antt =====
-- The evaluation of a component that is slow.
use rmt_platform.Prelude.{none, [], ◌≡◌, string_eq}
use rmt_platform.Decision.{HealthEvaluation, warning, make_decision, decision_to_action}
use rmt_platform.Decision.Advisory.{decision-advisory}

abbrev slow_web : HealthEvaluation
slow_web = record {
  component = "web";
  status = warning;
  message = "high latency";
  confidence = 80;
  evidence = [];
}

decision-advisory_example : decision_to_action "a1" 900 (make_decision slow_web none) ≡ none
decision-advisory_example = decision-advisory "a1" 900 slow_web none
