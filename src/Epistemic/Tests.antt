-- ===== src/Epistemic/Tests.antt =====
-- A small ledger, what the methods do on it, and the theorems at it.
use orbita_agent_research_se.Base.{
  ℕ, String, List, [], ◌∷◌, true, false, Option, none, some, Result, ok, err, ◌≡◌, refl, ◌↔◌, ◌⊎◌,
  elem, distinct, filter, find, any, length, ◌+◌,
}
use orbita_agent_research_se.Base.Texts.{strip, sorted}
use orbita_agent_research_se.Base.Json.{ℤ, pos, empty, finite, get, get_truthy, field, str, obj}
use orbita_agent_research_se.Epistemic.Models.{
  ClaimStatus, SupportState, Stance, EvidenceKind, ActorRole,
}
use orbita_agent_research_se.Epistemic.Policy.{
  default_policy, actor_can_commit, actor_can_commit_iff,
}
use orbita_agent_research_se.Epistemic.Tables.{
  Claim, Evidence, Attestation, Proof, ProofPremise, Db, empty_db, has_claim, has_evidence,
}
use orbita_agent_research_se.Epistemic.Ledger.{Env, Actor, LedgerError, add_claim}
use orbita_agent_research_se.Epistemic.Descendants.{
  children, search_loop, descendants_of_claim, attested_claims, revoke_evidence,
}
use orbita_agent_research_se.Epistemic.Descendants.Reach.{Descends}
use orbita_agent_research_se.Epistemic.Descendants.Answer.{descendants_of_claim-exact}
use orbita_agent_research_se.Epistemic.Descendants.Revoke.{
  Affected, Inactive, others, revoke_evidence-exact,
}
use orbita_agent_research_se.Epistemic.Integrity.{IsLinked}
use orbita_agent_research_se.Epistemic.Support.{
  unsupported_report, evaluate_from, recall, visit, weigh, check_proofs, active_proofs,
  check_premises, premises_of, check_contradictions, opposing_claims, final_report,
  direct_supported, refute_keys, SupportReport, evaluate, evaluate_many, get_claim,
}
use orbita_agent_research_se.Epistemic.Support.Warrant.{Warranted, evaluate-Warranted}
use orbita_agent_research_se.Epistemic.Support.Total.{evaluate-Answers}
use orbita_agent_research_se.Epistemic.Commit.{check_support, commit_claim, committed_db}
use orbita_agent_research_se.Epistemic.Commit.Gate.{Gate, commit_claim-Gate, commit_claim-Warranted}
use orbita_agent_research_se.Epistemic.Steps.{
  added_claim, Reach, start, next, Reach-IsLinked, Reach-evaluates,
}

abbrev claim : String → Claim
claim id = record {
  id = id;
  canonical_text = id;
  claim_type = "fact";
  status = ClaimStatus.provisional;
  scope = empty;
  metadata = empty;
  created_at = "t0";
  updated_at = "t0";
}

abbrev theorem_receipt : Evidence
theorem_receipt = record {
  id = "e";
  source_uri = "uri";
  source_kind = EvidenceKind.formal_proof;
  content_hash = "h";
  excerpt = "x";
  independence_key = "k";
  metadata = empty;
  active = true;
  created_at = "t0";
}

abbrev attestation : Attestation
attestation = record {
  id = "t";
  claim_id = "a";
  evidence_id = "e";
  stance = Stance.support;
  confidence = finite (pos 1) (pos 0);
  created_at = "t0";
}

abbrev proof : String → String → Proof
proof id conclusion = record {
  id = id;
  conclusion_claim_id = conclusion;
  rule = "r";
  metadata = empty;
  active = true;
  created_at = "t0";
}

abbrev premise : String → String → ProofPremise
premise proof_id q = record { proof_id = proof_id; premise_claim_id = q; position = 0 }

-- "b" is proved from "a", and "a" from formal evidence
abbrev pub ledger : Db
ledger = record {
  claims = claim "a" ∷ claim "b" ∷ [];
  evidence = theorem_receipt ∷ [];
  attestations = attestation ∷ [];
  proofs = proof "p" "b" ∷ [];
  proof_premises = premise "p" "a" ∷ [];
  contradictions = [];
  events = [];
}

abbrev env : Env
env = record { fresh_id = "new"; clock = λ n. "now" }

abbrev reviewer : Actor
reviewer = record { name = "reviewer"; role = ActorRole.human }

abbrev no_int : String → Option ℤ
no_int s = none

unfoldable pub program : Unit {0}
unfolding actor_can_commit check_support unsupported_report evaluate_from recall visit weigh
    check_proofs active_proofs check_premises premises_of check_contradictions opposing_claims
    final_report direct_supported refute_keys evaluate commit_claim revoke_evidence
    descendants_of_claim search_loop children sorted distinct filter find any elem get_claim
    add_claim strip get_truthy get evaluate_many
program = tt

abbrev state_of : Result LedgerError SupportReport → Option SupportState
state_of (ok r) = some r.state
state_of (err e) = none

evaluate_proved : state_of (evaluate default_policy ledger "b") ≡ some SupportState.supported
unfolding program
evaluate_proved = refl

actor_can_commit_iff_example : (actor_can_commit default_policy ActorRole.policy "fact" ≡ true) ↔ (
    (ActorRole.policy ≡ ActorRole.human)
    ⊎ (ActorRole.policy ≡ ActorRole.policy)
      × (elem "fact" default_policy.human_review_claim_types ≡ false))
actor_can_commit_iff_example = actor_can_commit_iff default_policy ActorRole.policy "fact"

abbrev report_b : SupportReport
report_b = record {
  claim_id = "b";
  state = SupportState.supported;
  direct_support_sources = [];
  direct_refute_sources = [];
  satisfied_proofs = "p" ∷ [];
  broken_proofs = [];
  contradictions = [];
  reasons = "At least one complete proof set is satisfied" ∷ [];
}

evaluate_b_report : evaluate default_policy ledger "b" ≡ ok report_b
unfolding program
evaluate_b_report = refl

evaluate-Warranted_example : Warranted default_policy ledger "b"
evaluate-Warranted_example =
    evaluate-Warranted default_policy ledger "b" report_b evaluate_b_report refl

ledger-IsLinked : IsLinked ledger
unfolding elem
ledger-IsLinked = record {
  attestations = ((refl, refl), tt);
  proofs = (refl, tt);
  premises = ((refl, refl), tt);
  contradictions = tt;
}

ledger_has_b : has_claim ledger "b" ≡ true
unfolding elem
ledger_has_b = refl

evaluate-Answers_example : (r : SupportReport) × (evaluate default_policy ledger "b" ≡ ok r)
evaluate-Answers_example = evaluate-Answers default_policy ledger "b" ledger-IsLinked ledger_has_b

commit_claim-Gate_example :
    (commit_claim no_int default_policy env reviewer "b" "why" false ledger
      ≡ ok (committed_db no_int default_policy env reviewer "b" "why" false ledger))
    ↔ (Gate no_int default_policy reviewer "b" false ledger
        × (committed_db no_int default_policy env reviewer "b" "why" false ledger
            ≡ committed_db no_int default_policy env reviewer "b" "why" false ledger))
commit_claim-Gate_example =
    commit_claim-Gate no_int default_policy env reviewer "b" "why" false ledger
      (committed_db no_int default_policy env reviewer "b" "why" false ledger)

commit_b :
    commit_claim no_int default_policy env reviewer "b" "why" false ledger
    ≡ ok (committed_db no_int default_policy env reviewer "b" "why" false ledger)
unfolding program
commit_b = refl

commit_claim-Warranted_example :
    Warranted default_policy ledger "b"
    × (claim : Claim) × (get_claim ledger "b" ≡ ok claim)
    × (actor_can_commit default_policy reviewer.role claim.claim_type ≡ true)
commit_claim-Warranted_example =
    commit_claim-Warranted no_int default_policy env reviewer "b" "why" ledger
      (committed_db no_int default_policy env reviewer "b" "why" false ledger) commit_b

descendants_of_claim-exact_example :
    (answer : List String) × (descendants_of_claim ledger "a" ≡ some answer)
    × ((x : String) → (elem x answer ≡ true) ↔ Descends ledger "a" x)
descendants_of_claim-exact_example = descendants_of_claim-exact ledger "a"

ledger_has_e : has_evidence ledger "e" ≡ true
unfolding elem
ledger_has_e = refl

revoke_evidence-exact_example :
    (answer : List String) × (db' : Db) × (revoke_evidence env reviewer "e" "why" ledger
      ≡ ok (answer, db'))
    × ((x : String) → (elem x answer ≡ true) ↔ Affected db' (attested_claims ledger "e") x)
    × Inactive "e" db'.evidence
    × (others "e" db'.evidence ≡ others "e" ledger.evidence)
    × (db'.claims ≡ ledger.claims)
    × (db'.attestations ≡ ledger.attestations)
    × (db'.proofs ≡ ledger.proofs)
    × (db'.proof_premises ≡ ledger.proof_premises)
    × (db'.contradictions ≡ ledger.contradictions)
    × (length db'.events ≡ length ledger.events + 1)
revoke_evidence-exact_example = revoke_evidence-exact env reviewer "e" "why" ledger ledger_has_e

abbrev encode_none : String → List ℕ
encode_none s = []

abbrev no_digest : List ℕ → String
no_digest b = ""

-- the ledger behind one `add_claim`
abbrev one_claim : Db
one_claim = record {
  claims =
      record {
        id = "new";
        canonical_text = "text";
        claim_type = "fact";
        status = ClaimStatus.provisional;
        scope = empty;
        metadata = empty;
        created_at = "now";
        updated_at = "now";
      }
      ∷ [];
  evidence = [];
  attestations = [];
  proofs = [];
  proof_premises = [];
  contradictions = [];
  events =
      record {
        entity_type = "claim";
        entity_id = "new";
        event_type = "CLAIM_PROPOSED";
        payload =
            field "canonical_text" (str "text")
              (field "claim_type" (str "fact") (field "scope" (obj empty) empty));
        actor = "reviewer";
        actor_role = ActorRole.human;
        created_at = "now";
      }
      ∷ [];
}

add_one_claim : add_claim env reviewer "text" "fact" empty empty empty_db ≡ ok ("new", one_claim)
unfolding program
add_one_claim = refl

one_claim_reached : Reach encode_none no_digest no_int default_policy one_claim
one_claim_reached =
    next start (added_claim env reviewer "text" "fact" empty empty "new" add_one_claim)

Reach-IsLinked_example : IsLinked one_claim
Reach-IsLinked_example =
    Reach-IsLinked encode_none no_digest no_int default_policy one_claim_reached

one_claim_known : has_claim one_claim "new" ≡ true
unfolding elem
one_claim_known = refl

Reach-evaluates_example : (r : SupportReport) × (evaluate default_policy one_claim "new" ≡ ok r)
Reach-evaluates_example =
    Reach-evaluates encode_none no_digest no_int default_policy "new" one_claim_reached
      one_claim_known

abbrev circle : List Proof
circle = proof "p" "b" ∷ proof "q" "a" ∷ []

-- The order in which `evaluate_many` visits the claims of a cycle changes what it reports: "b" is
-- supported, by "a", but not if "a" is visited first.
abbrev cyclic_ledger : Db
cyclic_ledger = record ledger {
  proofs = circle;
  proof_premises = premise "p" "a" ∷ premise "q" "b" ∷ [];
}

abbrev states_of : Result LedgerError (List (String × SupportReport)) → List (String × SupportState)
states_of (err e) = []
states_of (ok []) = []
states_of (ok ((c, r) ∷ rs)) = (c, r.state) ∷ states_of (ok rs)

evaluate_b : state_of (evaluate default_policy cyclic_ledger "b") ≡ some SupportState.supported
unfolding program
evaluate_b = refl

evaluate_a_then_b :
    states_of (evaluate_many default_policy cyclic_ledger ("a" ∷ "b" ∷ []))
    ≡ ("a", SupportState.supported) ∷ ("b", SupportState.unknown) ∷ []
unfolding program
evaluate_a_then_b = refl

-- "a" has formal evidence; "x" is proved from "a", "d" from "x", and "g" from "a" and "x"; "a" and
-- "d" contradict each other. No proof depends on its own conclusion.
abbrev crossed_ledger : Db
crossed_ledger = record ledger {
  claims = claim "a" ∷ claim "x" ∷ claim "d" ∷ claim "g" ∷ [];
  proofs = proof "p" "x" ∷ proof "q" "d" ∷ proof "s" "g" ∷ [];
  proof_premises =
      premise "p" "a"
      ∷ premise "q" "x"
      ∷ premise "s" "a"
      ∷ record { proof_id = "s"; premise_claim_id = "x"; position = 1 }
      ∷ [];
  contradictions =
      record {
        id = "k";
        claim_a = "a";
        claim_b = "d";
        rationale = "r";
        active = true;
        created_at = "t0";
      }
      ∷ [];
}

-- Both premises of "g" are reported as warranted when they are evaluated by themselves, and "g" is
-- not: while "a" is on the stack, its contradiction visits "d" and "x", and the memo keeps "x" as
-- unknown.
evaluate_crossed :
    (state_of (evaluate default_policy crossed_ledger "a") ≡ some SupportState.supported)
    × (state_of (evaluate default_policy crossed_ledger "x") ≡ some SupportState.supported)
    × (state_of (evaluate default_policy crossed_ledger "g") ≡ some SupportState.unknown)
unfolding program
evaluate_crossed = (refl, refl, refl)
