-- ===== src/Epistemic/Policy.antt =====
-- src/orbita/policy.py: who may move a claim into committed knowledge.
use orbita_agent_research_se.Base.{
  ℕ, String, List, [], ◌∷◌, Bool, true, false, ◌≡◌, ◌↔◌, ◌⊎◌, elem, arith, if◌then◌else◌,
}
use orbita_agent_research_se.Epistemic.Models.{EvidenceKind, ActorRole, is_human}

pub record CommitPolicy : Type 0 where
  pub min_independent_sources : ℕ
  pub strong_single_source_kinds : List EvidenceKind
  pub human_review_claim_types : List String
  pub non_warrant_source_kinds : List EvidenceKind

abbrev pub default_policy : CommitPolicy
default_policy = record {
  min_independent_sources = 2;
  strong_single_source_kinds =
      EvidenceKind.formal_proof ∷ EvidenceKind.experiment_receipt ∷ EvidenceKind.code_test
      ∷ EvidenceKind.dataset_analysis_receipt ∷ EvidenceKind.code_execution_receipt ∷ [];
  human_review_claim_types = "meta" ∷ "code" ∷ "safety_policy" ∷ [];
  non_warrant_source_kinds = EvidenceKind.model_proposal ∷ [];
}

abbrev is_llm : ActorRole → Bool
is_llm ActorRole.llm = true
is_llm _ = false

abbrev is_human_or_policy : ActorRole → Bool
is_human_or_policy ActorRole.human = true
is_human_or_policy ActorRole.policy = true
is_human_or_policy _ = false

unfoldable pub actor_can_commit : CommitPolicy → ActorRole → String → Bool
actor_can_commit p role claim_type =
    if is_llm role
    then false
    else if elem claim_type p.human_review_claim_types
    then is_human role
    else is_human_or_policy role

-- Exactly a human may commit every type of claim, and the policy actor only a type that is not
-- set aside for human review.
pub actor_can_commit_iff :
    (p : CommitPolicy) (role : ActorRole) (claim_type : String)
    → (actor_can_commit p role claim_type ≡ true) ↔ (
        (role ≡ ActorRole.human)
        ⊎ (role ≡ ActorRole.policy) × (elem claim_type p.human_review_claim_types ≡ false))
unfolding actor_can_commit
actor_can_commit_iff p ActorRole.human t = ground arith
actor_can_commit_iff p ActorRole.policy t = ground arith
actor_can_commit_iff p ActorRole.llm t = ground arith
actor_can_commit_iff p ActorRole.tool t = ground arith
