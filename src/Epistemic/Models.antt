-- ===== src/Epistemic/Models.antt =====
-- src/orbita/models.py: the enumerations of the ledger, each with its Boolean equality.
use orbita_agent_research_se.Base.{ℕ, Bool, true, false, List, [], ◌∷◌, ◌||◌, String, nat_eq}

pub data ClaimStatus : Type 0 where
  provisional committed challenged rejected superseded : ClaimStatus

pub data SupportState : Type 0 where
  supported challenged unsupported unknown : SupportState

pub data RiskLevel : Type 0 where
  low medium high : RiskLevel

pub data StepStatus : Type 0 where
  pending waiting_approval running succeeded failed : StepStatus

pub data Stance : Type 0 where
  support refute : Stance

pub data EvidenceKind : Type 0 where
  web_source dataset experiment_receipt formal_proof human_testimony model_proposal code_test
        dataset_analysis_receipt code_execution_receipt :
      EvidenceKind

pub data ActorRole : Type 0 where
  human policy llm tool : ActorRole

abbrev kind_code : EvidenceKind → ℕ
kind_code EvidenceKind.web_source = 0
kind_code EvidenceKind.dataset = 1
kind_code EvidenceKind.experiment_receipt = 2
kind_code EvidenceKind.formal_proof = 3
kind_code EvidenceKind.human_testimony = 4
kind_code EvidenceKind.model_proposal = 5
kind_code EvidenceKind.code_test = 6
kind_code EvidenceKind.dataset_analysis_receipt = 7
kind_code EvidenceKind.code_execution_receipt = 8

abbrev pub kind_eq : EvidenceKind → EvidenceKind → Bool
kind_eq a b = nat_eq (kind_code a) (kind_code b)

-- `kind in kinds`
abbrev pub has_kind : EvidenceKind → List EvidenceKind → Bool
has_kind k [] = false
has_kind k (j ∷ js) = kind_eq k j || has_kind k js

abbrev pub is_support : Stance → Bool
is_support Stance.support = true
is_support Stance.refute = false

abbrev pub stance_eq : Stance → Stance → Bool
stance_eq Stance.support Stance.support = true
stance_eq Stance.refute Stance.refute = true
stance_eq _ _ = false

abbrev pub is_human : ActorRole → Bool
is_human ActorRole.human = true
is_human _ = false

-- `.value` of each status: the text of the events
abbrev pub status_value : ClaimStatus → String
status_value ClaimStatus.provisional = "provisional"
status_value ClaimStatus.committed = "committed"
status_value ClaimStatus.challenged = "challenged"
status_value ClaimStatus.rejected = "rejected"
status_value ClaimStatus.superseded = "superseded"

-- `status.value.upper()`
abbrev pub status_upper : ClaimStatus → String
status_upper ClaimStatus.provisional = "PROVISIONAL"
status_upper ClaimStatus.committed = "COMMITTED"
status_upper ClaimStatus.challenged = "CHALLENGED"
status_upper ClaimStatus.rejected = "REJECTED"
status_upper ClaimStatus.superseded = "SUPERSEDED"

abbrev pub kind_value : EvidenceKind → String
kind_value EvidenceKind.web_source = "web_source"
kind_value EvidenceKind.dataset = "dataset"
kind_value EvidenceKind.experiment_receipt = "experiment_receipt"
kind_value EvidenceKind.formal_proof = "formal_proof"
kind_value EvidenceKind.human_testimony = "human_testimony"
kind_value EvidenceKind.model_proposal = "model_proposal"
kind_value EvidenceKind.code_test = "code_test"
kind_value EvidenceKind.dataset_analysis_receipt = "dataset_analysis_receipt"
kind_value EvidenceKind.code_execution_receipt = "code_execution_receipt"

abbrev pub stance_value : Stance → String
stance_value Stance.support = "support"
stance_value Stance.refute = "refute"

-- `report.state.value in {"supported", "challenged"}`
abbrev pub is_warranted : SupportState → Bool
is_warranted SupportState.supported = true
is_warranted SupportState.challenged = true
is_warranted _ = false

-- `claim["status"] in {REJECTED, SUPERSEDED}`
abbrev pub is_withdrawn : ClaimStatus → Bool
is_withdrawn ClaimStatus.rejected = true
is_withdrawn ClaimStatus.superseded = true
is_withdrawn _ = false
