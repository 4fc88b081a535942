-- ===== src/Epistemic/Planner.antt =====
-- src/orbita/planner.py: `EpistemicPlanSelector`. Costs are counted in halves, as all of them are
-- multiples of 0.5. The explanation of a score is left out.
pub mod Least
use Prim.Native.String.{compare}
use text.Mathlib.Text.{is_le}
use orbita_agent_research_se.Base.{
  ℕ, zero, suc, String, List, [], ◌∷◌, Bool, true, false, ◌&&◌, ◌||◌, Result, ok, err, ◌>>=◌,
  if◌then◌else◌, ltb, nat_eq, length, is_empty, distinct, map, ◌+◌, ◌*◌,
}
use orbita_agent_research_se.Base.Texts.{sorted}
use orbita_agent_research_se.Base.Json.{Fields}
use orbita_agent_research_se.Epistemic.Models.{RiskLevel, SupportState}
use orbita_agent_research_se.Epistemic.Policy.{CommitPolicy}
use orbita_agent_research_se.Epistemic.Tables.{Db}
use orbita_agent_research_se.Epistemic.Ledger.{LedgerError}
use orbita_agent_research_se.Epistemic.Support.{evaluate}

pub record CandidateStep : Type 0 where
  pub intent : String
  pub action_type : String
  pub args : Fields
  pub required_claims : List String
  pub obligations : List Fields
  pub risk : RiskLevel

pub record CandidatePlan : Type 0 where
  pub name : String
  pub goal : String
  pub steps : List CandidateStep

pub record PlanScore : Type 0 where
  pub name : String
  pub total : ℕ
  pub unsupported_claims : List String
  pub challenged_claims : List String
  pub missing_obligations : List ℕ
  pub risk_cost : ℕ

pub data PlanError : Type 0 where
  no_plans : PlanError
  in_ledger : LedgerError → PlanError

risk_cost_of : RiskLevel → ℕ
risk_cost_of RiskLevel.low = 1
risk_cost_of RiskLevel.medium = 8
risk_cost_of RiskLevel.high = 24

-- what the loop of `score` gathers
pub record Debt : Type 0 where
  pub unsupported : List String
  pub challenged : List String
  pub missing : List ℕ
  pub risk : ℕ

abbrev pub no_debt : Debt
no_debt = record { unsupported = []; challenged = []; missing = []; risk = 0 }

charge : SupportState → String → Debt → Debt
charge SupportState.supported c d = d
charge SupportState.challenged c d = record d { challenged = c ∷ d.challenged }
charge SupportState.unsupported c d = record d { unsupported = c ∷ d.unsupported }
charge SupportState.unknown c d = record d { unsupported = c ∷ d.unsupported }

charge_all : List (String × SupportState) → Debt → Debt
unfolding charge
charge_all [] d = d
charge_all ((c, state) ∷ rest) d = charge state c (charge_all rest d)

abbrev pub lift {ℓ} : {V : Type ℓ} → Result LedgerError V → Result PlanError V
lift (ok v) = ok v
lift (err e) = err (in_ledger e)

-- `10.0 * ... + 6.0 * ... + 3.0 * ... + risk_cost`
abbrev pub total_of : Debt → ℕ
total_of d =
    20 * length (distinct d.unsupported)
    + 12 * length (distinct d.challenged)
    + 6 * length d.missing
    + d.risk

-- the order of the sorting key
unfoldable pub comes_first : CandidatePlan × PlanScore → CandidatePlan × PlanScore → Bool
comes_first (p, s) (q, t) =
    ltb s.total t.total
    || (nat_eq s.total t.total
        && (ltb (length p.steps) (length q.steps)
            || (nat_eq (length p.steps) (length q.steps) && is_le (compare p.name q.name))))

-- the stable sort
insert_plan :
    CandidatePlan × PlanScore → List (CandidatePlan × PlanScore) → List (CandidatePlan × PlanScore)
unfolding comes_first
insert_plan x [] = x ∷ []
insert_plan x (y ∷ ys) =
    let rest = insert_plan x ys in if comes_first x y then x ∷ y ∷ ys else y ∷ rest

unfoldable pub sort_plans : List (CandidatePlan × PlanScore) → List (CandidatePlan × PlanScore)
unfolding insert_plan
sort_plans [] = []
sort_plans (x ∷ xs) = insert_plan x (sort_plans xs)

-- `scored[0][0], [score for _, score in scored]`
abbrev pub first_and_scores :
    List (CandidatePlan × PlanScore) → Result PlanError (CandidatePlan × List PlanScore)
first_and_scores [] = err no_plans
first_and_scores ((p, s) ∷ rest) = ok (p, s ∷ map (λ (x : CandidatePlan × PlanScore). x.1) rest)

module _ (policy : CommitPolicy) (db : Db) where
  -- the loop over the required claims of a step
  claim_states : List String → Result LedgerError (List (String × SupportState))
  claim_states [] = ok []
  claim_states (c ∷ cs) = do
    report ← evaluate policy db c
    rest ← claim_states cs
    ok ((c, report.state) ∷ rest)

  -- the loop over the steps, the first of them numbered `n`
  steps_debt : ℕ → List CandidateStep → Result LedgerError Debt
  unfolding claim_states risk_cost_of charge_all
  steps_debt n [] = ok no_debt
  steps_debt n (s ∷ ss) = do
    states ← claim_states s.required_claims
    rest ← steps_debt (suc n) ss
    let d = charge_all states rest
    ok (record d {
      missing = if is_empty s.obligations then n ∷ d.missing else d.missing;
      risk = risk_cost_of s.risk + d.risk;
    })

  unfoldable pub score : CandidatePlan → Result LedgerError PlanScore
  unfolding steps_debt
  score plan = do
    d ← steps_debt 0 plan.steps
    ok (record {
      name = plan.name;
      total = total_of d;
      unsupported_claims = sorted (distinct d.unsupported);
      challenged_claims = sorted (distinct d.challenged);
      missing_obligations = d.missing;
      risk_cost = d.risk;
    })

  unfoldable pub score_all :
      List CandidatePlan → Result PlanError (List (CandidatePlan × PlanScore))
  unfolding score
  score_all [] = ok []
  score_all (p ∷ ps) = do s ← lift (score p); rest ← score_all ps; ok ((p, s) ∷ rest)

  unfoldable pub choose : List CandidatePlan → Result PlanError (CandidatePlan × List PlanScore)
  unfolding score_all sort_plans
  choose plans = do scored ← score_all plans; first_and_scores (sort_plans scored)
