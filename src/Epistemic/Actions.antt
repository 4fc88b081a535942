-- ===== src/Epistemic/Actions.antt =====
-- src/orbita/actions.py: the rows of the plans, steps, approvals and receipts, and the files of the
-- workspace. A column with JSON text holds the value. An error text is a `Problem`.
pub mod Files
pub mod Runtime
pub mod Runs
pub mod Confined
pub mod Licensed
pub mod Raised
pub mod Approvals
pub mod Plans
mod Tests
use orbita_agent_research_se.Base.{
  ℕ, String, List, [], ◌∷◌, Bool, true, false, Option, none, some, ◌==◌, if◌then◌else◌, map, any,
  ◌&&◌,
}
use orbita_agent_research_se.Base.Json.{Fields}
use orbita_agent_research_se.Epistemic.Models.{SupportState, RiskLevel, StepStatus}
use orbita_agent_research_se.Epistemic.Ledger.{LedgerError}

pub data PlanStatus : Type 0 where
  pending running succeeded failed : PlanStatus

pub data ApprovalStatus : Type 0 where
  pending approved : ApprovalStatus

-- the exceptions
pub data ActionError : Type 0 where
  in_ledger : LedgerError → ActionError
  unknown_step missing_key escapes_workspace unwritable : String → ActionError
  not_pending : ActionError

pub data Problem : Type 0 where
  claim_is : (claim_id : String) → SupportState → Problem
  needs_approval no_obligations obligation_failed : Problem
  unknown_action file_missing : String → Problem
  raised : ActionError → Problem

pub record PlanRow : Type 0 where
  pub id : String
  pub goal : String
  pub status : PlanStatus
  pub created_at : String

pub record StepRow : Type 0 where
  pub id : String
  pub plan_id : String
  pub sequence : ℕ
  pub intent : String
  pub action_type : String
  pub args : Fields
  pub required_claims : List String
  pub obligations : List Fields
  pub risk : RiskLevel
  pub status : StepStatus
  pub args_hash : String
  pub created_at : String

pub record ApprovalRow : Type 0 where
  pub id : String
  pub step_id : String
  pub args_hash : String
  pub status : ApprovalStatus
  pub approved_by : Option String
  pub created_at : String
  pub decided_at : Option String

-- `ObligationResult`, without the detail for the reader
pub record Check : Type 0 where
  pub obligation : Fields
  pub passed : Bool

pub record ReceiptRow : Type 0 where
  pub id : String
  pub step_id : String
  pub passed : Bool
  pub outputs : Fields
  pub checks : List Check
  pub error : Option Problem
  pub created_at : String

-- `ActionResult`
pub record ActionResult : Type 0 where
  pub passed : Bool
  pub outputs : Fields
  pub error : Option Problem

-- a file: its resolved path and its bytes
pub record File : Type 0 where
  pub path : String
  pub content : String

pub record State : Type 0 where
  pub plans : List PlanRow
  pub steps : List StepRow
  pub approvals : List ApprovalRow
  pub receipts : List ReceiptRow
  pub files : List File

-- the identifier and the time that a call draws
pub record Stamp : Type 0 where
  pub fresh_id : String
  pub now : String
