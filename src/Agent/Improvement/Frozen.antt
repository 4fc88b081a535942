-- ===== src/Agent/Improvement/Frozen.antt =====
-- src/orbita_agent/improvement_registry.py: what the registry holds of an evaluation was frozen
-- before.
use orbita_agent_research_se.Base.{
  String, List, [], ◌∷◌, ◌++◌, Option, none, some, ok, ◌≡◌, sym, subst, ◌∙◌, arith, ap, >>=-eq-ok,
  ok-result, inl, inr, ◌⊎◌,
}
use text.Mathlib.TextEquality.{eq_iff}
use orbita_agent_research_se.Base.Json.{Json}
use orbita_agent_research_se.Agent.Improvement.Tables.{
  Plan, Evaluation, Registry, Draws, insert_event, plan_of, evaluation_of, get_candidate,
  or_not_frozen,
}
use orbita_agent_research_se.Agent.Improvement.{record_evaluation}
use orbita_agent_research_se.Agent.Improvement.Kept.{
  Keeps, Step, created, froze, evaluated, diagnosed, Steps, done, next, Step-Keeps,
  create_candidate-rows, freeze_evaluation-rows, record_evaluation-rows,
  record_opportunity_diagnosis-rows,
}

-- The evaluation was recorded under the plan that is frozen for the candidate.
pub record WasFrozen (id : String) (e : Evaluation) (r : Registry) : Type 0 where
  pub plan : Plan
  pub frozen : plan_of id r.plans ≡ some plan
  pub same_id : e.plan_id ≡ plan.id
  pub same_hash : e.plan_hash ≡ plan.plan_hash

pub record AreFrozen (r : Registry) : Type 0 where
  pub at :
      (id : String) (e : Evaluation) → evaluation_of id r.evaluations ≡ some e → WasFrozen id e r

Keeps-WasFrozen :
    (r s : Registry) (id : String) (e : Evaluation)
    → Keeps r s
    → WasFrozen id e r
    → WasFrozen id e s
Keeps-WasFrozen r s id e keeps w = record {
  plan = w.plan;
  frozen = keeps.plans id w.plan w.frozen;
  same_id = w.same_id;
  same_hash = w.same_hash;
}

found_plan : (o : Option Plan) (p : Plan) → or_not_frozen o ≡ ok p → o ≡ some p
found_plan none p h = cc
found_plan (some q) p h = ap some (ok-result h)

-- an operation that records no evaluation
same-AreFrozen :
    (r s : Registry) → Keeps r s → s.evaluations ≡ r.evaluations → AreFrozen r → AreFrozen s
same-AreFrozen r s keeps same frozen = record {
  at = λ id e h.
      Keeps-WasFrozen r s id e keeps (frozen.at id e (sym (ap (evaluation_of id) same) ∙ h));
}

-- the last row is the only new one
evaluation_of-last :
    (id : String) (es : List Evaluation) (e x : Evaluation)
    → evaluation_of id (es ++ e ∷ []) ≡ some x
    → (evaluation_of id es ≡ some x) ⊎ ((e.candidate_id ≡ id) × (e ≡ x))
unfolding evaluation_of
evaluation_of-last id [] e x h = ground (arith, eq_iff e.candidate_id id)
evaluation_of-last id (y ∷ ys) e x h = ground (arith, evaluation_of-last id ys e x)

module _ (dumps : Json → Option String) (sha256 : String → String) where
  record_evaluation-WasFrozen :
      (draws : Draws) (id c q : String) (v : Json) (verdict by : String) (r s : Registry)
      (e : Evaluation)
      → record_evaluation dumps sha256 draws id c q v verdict by r ≡ ok (e, s)
      → WasFrozen id e r
  unfolding record_evaluation insert_event
  record_evaluation-WasFrozen draws id c q v verdict by r s e h =
      let (candidate, _, h1) = >>=-eq-ok (get_candidate id r) _ h in
      let (plan, frozen, h2) = >>=-eq-ok (or_not_frozen (plan_of id r.plans)) _ h1 in
      record {
        plan = plan;
        frozen = found_plan (plan_of id r.plans) plan frozen;
        same_id = ground arith;
        same_hash = ground arith;
      }

  record_evaluation-candidate_id :
      (draws : Draws) (id c q : String) (v : Json) (verdict by : String) (r s : Registry)
      (e : Evaluation)
      → record_evaluation dumps sha256 draws id c q v verdict by r ≡ ok (e, s)
      → e.candidate_id ≡ id
  unfolding record_evaluation insert_event
  record_evaluation-candidate_id draws id c q v verdict by r s e h = ground arith

  Step-AreFrozen : {r s : Registry} → Step dumps sha256 r s → AreFrozen r → AreFrozen s
  Step-AreFrozen {r} {s} (created draws p c h) frozen =
      same-AreFrozen r s (Step-Keeps dumps sha256 (created draws p c h))
        (create_candidate-rows dumps sha256 draws p r s c h).2 frozen
  Step-AreFrozen {r} {s} (froze draws id plan by p h) frozen =
      same-AreFrozen r s (Step-Keeps dumps sha256 (froze draws id plan by p h))
        (freeze_evaluation-rows dumps sha256 draws id plan by r s p h).2 frozen
  Step-AreFrozen {r} {s} (diagnosed draws id c v by d h) frozen =
      same-AreFrozen r s (Step-Keeps dumps sha256 (diagnosed draws id c v by d h))
        (record_opportunity_diagnosis-rows dumps sha256 draws id c v by r s d h).2 frozen
  Step-AreFrozen {r} {s} (evaluated draws id c q v verdict by e h) frozen = record {
    at = λ k x found.
        Keeps-WasFrozen r s k x (Step-Keeps dumps sha256 (evaluated draws id c q v verdict by e h))
          (elim (evaluation_of-last k r.evaluations e x (
            sym (
              ap (evaluation_of k)
                (record_evaluation-rows dumps sha256 draws id c q v verdict by r s e h).2)
            ∙ found)) [
              | inl old ↦ frozen.at k x old
              | inr (here, same) ↦
                  subst (λ y. WasFrozen k y r) same
                    (subst (λ j. WasFrozen j e r)
                      (sym (record_evaluation-candidate_id draws id c q v verdict by r s e h)
                        ∙ here)
                      (record_evaluation-WasFrozen draws id c q v verdict by r s e h))
            ]);
  }

  -- In every registry that sequences of calls reach from one where this holds, as the empty one,
  -- each evaluation names the identifier and the hash of the plan that is frozen for its candidate.
  pub Steps-AreFrozen : {r s : Registry} → Steps dumps sha256 r s → AreFrozen r → AreFrozen s
  Steps-AreFrozen done frozen = frozen
  Steps-AreFrozen (next step steps) frozen = Steps-AreFrozen steps (Step-AreFrozen step frozen)
