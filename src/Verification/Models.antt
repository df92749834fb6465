-- ===== src/Verification/Models.antt =====
-- verification/models.py (`ExpectedOutcome` stands in Actions/Models).
use rmt_platform.Prelude.{ℕ, String, Option}
use rmt_platform.Actions.Models.{ExpectedOutcome}

pub record ObservedState : Type 0 where
  pub target : String
  pub state : String
  pub source : String
  pub timestamp : ℕ

pub record VerificationResult : Type 0 where
  pub verification_id : String
  pub execution_id : String
  pub status : String
  pub expected : Option ExpectedOutcome
  pub observed : Option ObservedState
  pub reason : String
  pub created_at : ℕ
