-- ===== src/Agent/Opportunity/Diagnosed.antt =====
-- src/orbita_agent/opportunity_diagnosis.py: what a diagnosis that is returned says.
use orbita_agent_research_se.Agent.Opportunity.{
  Counts, classify, content_hash, check_counts, Gap, Fields, get, instrument_of, context_or_empty,
  stable, not_finite, obj, instrument_hash,
}
use orbita_agent_research_se.Base.{
  ℕ, String, Bool, true, false, not, ◌&&◌, Option, ok, ◌≡◌, ◌+◌, ◌≤◌, ◌<◌, arith, >>=-eq-ok,
  raise_if-ok, guard-ok, ok-result, subst, nat_eq,
}
use orbita_agent_research_se.Base.Json.{Json}
use orbita_agent_research_se.Agent.Opportunity.{
  Counts, Gap, no_predictions, no_candidates, all_unevaluable, all_refuted, none_improve, fine,
  classify, check_counts, read_counts, diagnose_improvement_opportunity, Diagnosis, known_fields,
  not_an_object, object_or, unknown_fields, unexpected_predictions, count, flag,
}

-- The counts fit together: an outcome is counted among the stage before it.
pub record AreConsistent (m : Counts) : Type 0 where
  pub evaluated : m.evaluable ≤ m.candidate
  pub survived : m.refuted + m.improving ≤ m.evaluable
  pub unasked : m.prediction_stage_applicable ≡ false → m.prediction ≡ 0

-- a prediction was made, or none was due
abbrev pub IsPredicted : Counts → Type 0
IsPredicted m = m.prediction_stage_applicable ≡ true → 0 < m.prediction

-- when a gap is the one that an attempt met
abbrev pub IsGap : Counts → Gap → Type 0
IsGap m no_predictions = (m.prediction_stage_applicable ≡ true) × (m.prediction ≡ 0)
IsGap m no_candidates = IsPredicted m × (m.candidate ≡ 0)
IsGap m all_unevaluable = IsPredicted m × (0 < m.candidate) × (m.evaluable ≡ 0)
IsGap m all_refuted = IsPredicted m × (0 < m.evaluable) × (m.refuted ≡ m.evaluable)
IsGap m none_improve = IsPredicted m × (m.refuted < m.evaluable) × (m.improving ≡ 0)
IsGap m fine = IsPredicted m × (m.refuted < m.evaluable) × (0 < m.improving)

classify-IsGap : (m : Counts) → AreConsistent m → IsGap m (classify m)
unfolding classify
classify-IsGap m c = ground (arith, c.survived, c.evaluated)

check_counts-ok :
    (m : Counts)
    → check_counts m ≡ ok tt
    → (m.evaluable ≤ m.candidate) × (m.refuted + m.improving ≤ m.evaluable)
unfolding check_counts
check_counts-ok m h = ground arith

quiet : (a : Bool) (p : ℕ) → (not a && not (nat_eq p 0)) ≡ false → a ≡ false → p ≡ 0
quiet a p h e = ground arith

read_counts-ok :
    (d : Fields) (m : Counts)
    → read_counts d ≡ ok m
    → m.prediction_stage_applicable ≡ false
    → m.prediction ≡ 0
unfolding read_counts
read_counts-ok d m h unapplicable =
    let (prediction, _, h1) = >>=-eq-ok (count "prediction_count" (get d "prediction_count")) _ h in
    let (applicable, _, h2) = >>=-eq-ok (flag (get d "prediction_stage_applicable")) _ h1 in
    let (expected, h3) =
      raise_if-ok (not applicable && not (nat_eq prediction 0)) unexpected_predictions _ h2 in
    let (candidate, _, h4) = >>=-eq-ok (count "candidate_count" (get d "candidate_count")) _ h3 in
    let (evaluable, _, h5) = >>=-eq-ok (count "evaluable_count" (get d "evaluable_count")) _ h4 in
    let (refuted, _, h6) = >>=-eq-ok (count "refuted_count" (get d "refuted_count")) _ h5 in
    let (improving, _, h7) = >>=-eq-ok (count "improving_count" (get d "improving_count")) _ h6 in
    subst (λ (c : Counts). c.prediction_stage_applicable ≡ false → c.prediction ≡ 0) (ok-result h7)
      (quiet applicable prediction expected) unapplicable

counts-IsGap :
    (d : Fields) (m : Counts)
    → read_counts d ≡ ok m
    → check_counts m ≡ ok tt
    → AreConsistent m × IsGap m (classify m)
counts-IsGap d m read checked =
    let (evaluated, survived) = check_counts-ok m checked in
    let consistent : AreConsistent m = record {
      evaluated = evaluated;
      survived = survived;
      unasked = read_counts-ok d m read;
    } in
    (consistent, classify-IsGap m consistent)

module _ (dumps : Json → Option String) (sha256 : String → String) where
  -- A diagnosis that is returned counts consistently, its class is the first stage at which the
  -- attempt ran out of opportunity, and the class is OK only if an improvement was observed.
  pub diagnose_improvement_opportunity-IsGap :
      (metrics : Json) (d : Diagnosis)
      → diagnose_improvement_opportunity dumps sha256 metrics ≡ ok d
      → AreConsistent d.counts × IsGap d.counts d.classification
  unfolding diagnose_improvement_opportunity
  diagnose_improvement_opportunity-IsGap value d h =
      let (metrics, _, h1) = >>=-eq-ok (object_or not_an_object value) _ h in
      let (known, h2) = guard-ok (known_fields _ metrics) unknown_fields _ h1 in
      let (counts, read, h3) = >>=-eq-ok (read_counts metrics) _ h2 in
      let (_, checked, h4) = >>=-eq-ok (check_counts counts) _ h3 in
      let (instrument, _, h5) =
        >>=-eq-ok (instrument_of dumps sha256 (get metrics "instrument")) _ h4 in
      let (context, _, h6) = >>=-eq-ok (context_or_empty (get metrics "context")) _ h5 in
      let (_, _, h7) = >>=-eq-ok (stable dumps sha256 not_finite (obj context)) _ h6 in
      let (hash, _, h8) = >>=-eq-ok (instrument_hash dumps sha256 instrument) _ h7 in
      let (digest, _, h9) = >>=-eq-ok (content_hash dumps sha256 not_finite _) _ h8 in
      subst (λ (x : Diagnosis). AreConsistent x.counts × IsGap x.counts x.classification)
        (ok-result h9) (counts-IsGap metrics counts read checked)
