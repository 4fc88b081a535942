-- ===== src/Agent/Improvement/Kept.antt =====
-- src/orbita_agent/improvement_registry.py: the registry is append-only.
use orbita_agent_research_se.Base.{
  String, List, [], ◌∷◌, ◌++◌, Option, some, ok, ◌≡◌, refl, sym, ◌∙◌, arith, ap, >>=-eq-ok,
}
use orbita_agent_research_se.Agent.Improvement.Checks.{not_finite}
use orbita_agent_research_se.Base.Texts.{strip}
use orbita_agent_research_se.Base.Json.{Json, obj, Fields}
use orbita_agent_research_se.Agent.Opportunity.{content_hash}
use orbita_agent_research_se.Agent.Improvement.Tables.{
  Candidate, Plan, Evaluation, OpportunityDiagnosis, Registry, Draws, insert_event, candidate_of,
  plan_of, evaluation_of,
}
use orbita_agent_research_se.Agent.Improvement.{
  Proposal, create_candidate, insert_candidate, candidate_body, freeze_evaluation,
  record_evaluation, record_opportunity_diagnosis,
}

candidate_of-append :
    (id : String) (cs ds : List Candidate) (c : Candidate)
    → candidate_of id cs ≡ some c
    → candidate_of id (cs ++ ds) ≡ some c
unfolding candidate_of
candidate_of-append id [] ds c h = cc
candidate_of-append id (x ∷ xs) ds c h = ground (arith, candidate_of-append id xs ds c)

plan_of-append :
    (id : String) (ps qs : List Plan) (p : Plan)
    → plan_of id ps ≡ some p
    → plan_of id (ps ++ qs) ≡ some p
unfolding plan_of
plan_of-append id [] qs p h = cc
plan_of-append id (x ∷ xs) qs p h = ground (arith, plan_of-append id xs qs p)

evaluation_of-append :
    (id : String) (es fs : List Evaluation) (e : Evaluation)
    → evaluation_of id es ≡ some e
    → evaluation_of id (es ++ fs) ≡ some e
unfolding evaluation_of
evaluation_of-append id [] fs e h = cc
evaluation_of-append id (x ∷ xs) fs e h = ground (arith, evaluation_of-append id xs fs e)

-- The rows of a registry are found in the other one as they were.
pub record Keeps (r s : Registry) : Type 0 where
  pub candidates :
      (id : String) (c : Candidate)
      → candidate_of id r.candidates ≡ some c
      → candidate_of id s.candidates ≡ some c
  pub plans : (id : String) (p : Plan) → plan_of id r.plans ≡ some p → plan_of id s.plans ≡ some p
  pub evaluations :
      (id : String) (e : Evaluation)
      → evaluation_of id r.evaluations ≡ some e
      → evaluation_of id s.evaluations ≡ some e

insert_candidate-rows :
    (draws : Draws) (body : Fields) (digest creator : String) (r s : Registry) (c : Candidate)
    → insert_candidate draws body digest creator r ≡ ok (c, s)
    → (s.candidates ≡ r.candidates ++ c ∷ [])
      × (s.plans ≡ r.plans)
      × (s.evaluations ≡ r.evaluations)
unfolding insert_candidate insert_event
insert_candidate-rows draws body digest creator r s c h = ground arith

-- tables that only grow keep their rows
grown-Keeps :
    (r s : Registry) (cs : List Candidate) (ps : List Plan) (es : List Evaluation)
    → s.candidates ≡ r.candidates ++ cs
    → s.plans ≡ r.plans ++ ps
    → s.evaluations ≡ r.evaluations ++ es
    → Keeps r s
grown-Keeps r s cs ps es hc hp he = record {
  candidates = λ id c h. ap (candidate_of id) hc ∙ candidate_of-append id r.candidates cs c h;
  plans = λ id p h. ap (plan_of id) hp ∙ plan_of-append id r.plans ps p h;
  evaluations = λ id e h. ap (evaluation_of id) he ∙ evaluation_of-append id r.evaluations es e h;
}

append_none : {A : Type 0} (xs : List A) → xs ++ [] ≡ xs
append_none [] = refl
append_none (x ∷ xs) = ap (λ ys. x ∷ ys) (append_none xs)

module _ (dumps : Json → Option String) (sha256 : String → String) where
  pub create_candidate-rows :
      (draws : Draws) (p : Proposal) (r s : Registry) (c : Candidate)
      → create_candidate dumps sha256 draws p r ≡ ok (c, s)
      → (s.candidates ≡ r.candidates ++ c ∷ [])
        × (s.plans ≡ r.plans)
        × (s.evaluations ≡ r.evaluations)
  unfolding create_candidate
  create_candidate-rows draws p r s c h =
      let (body, _, h1) = >>=-eq-ok (candidate_body dumps sha256 p r) _ h in
      let (digest, _, h2) = >>=-eq-ok (content_hash dumps sha256 not_finite (obj body)) _ h1 in
      insert_candidate-rows draws body digest (strip p.created_by) r s c h2

  pub freeze_evaluation-rows :
      (draws : Draws) (id : String) (plan : Json) (by : String) (r s : Registry) (p : Plan)
      → freeze_evaluation dumps sha256 draws id plan by r ≡ ok (p, s)
      → (s.candidates ≡ r.candidates)
        × (s.plans ≡ r.plans ++ p ∷ [])
        × (s.evaluations ≡ r.evaluations)
  unfolding freeze_evaluation insert_event
  freeze_evaluation-rows draws id plan by r s p h = ground arith

  pub record_evaluation-rows :
      (draws : Draws) (id c q : String) (v : Json) (verdict by : String) (r s : Registry)
      (e : Evaluation)
      → record_evaluation dumps sha256 draws id c q v verdict by r ≡ ok (e, s)
      → (s.candidates ≡ r.candidates)
        × (s.plans ≡ r.plans)
        × (s.evaluations ≡ r.evaluations ++ e ∷ [])
  unfolding record_evaluation insert_event
  record_evaluation-rows draws id c q v verdict by r s e h = ground arith

  pub record_opportunity_diagnosis-rows :
      (draws : Draws) (id c : String) (v : Json) (by : String) (r s : Registry)
      (d : OpportunityDiagnosis)
      → record_opportunity_diagnosis dumps sha256 draws id c v by r ≡ ok (d, s)
      → (s.candidates ≡ r.candidates) × (s.plans ≡ r.plans) × (s.evaluations ≡ r.evaluations)
  unfolding record_opportunity_diagnosis insert_event
  record_opportunity_diagnosis-rows draws id c v by r s d h = ground arith

  -- What the registry does from one state to the next.
  pub data Step : Registry → Registry → Type 0 where
    created :
        (draws : Draws) (p : Proposal) (c : Candidate) {r s : Registry}
        → create_candidate dumps sha256 draws p r ≡ ok (c, s)
        → Step r s
    froze :
        (draws : Draws) (id : String) (plan : Json) (by : String) (p : Plan) {r s : Registry}
        → freeze_evaluation dumps sha256 draws id plan by r ≡ ok (p, s)
        → Step r s
    evaluated :
        (draws : Draws) (id c q : String) (v : Json) (verdict by : String) (e : Evaluation)
        {r s : Registry}
        → record_evaluation dumps sha256 draws id c q v verdict by r ≡ ok (e, s)
        → Step r s
    diagnosed :
        (draws : Draws) (id c : String) (v : Json) (by : String) (d : OpportunityDiagnosis)
        {r s : Registry}
        → record_opportunity_diagnosis dumps sha256 draws id c v by r ≡ ok (d, s)
        → Step r s

  pub data Steps : Registry → Registry → Type 0 where
    done : {r : Registry} → Steps r r
    next : {r s t : Registry} → Step r s → Steps s t → Steps r t

  pub Step-Keeps : {r s : Registry} → Step r s → Keeps r s
  Step-Keeps {r} {s} (created draws p c h) =
      let (hc, hp, he) = create_candidate-rows draws p r s c h in
      grown-Keeps r s (c ∷ []) [] [] hc (hp ∙ sym (append_none r.plans))
        (he ∙ sym (append_none r.evaluations))
  Step-Keeps {r} {s} (froze draws id plan by p h) =
      let (hc, hp, he) = freeze_evaluation-rows draws id plan by r s p h in
      grown-Keeps r s [] (p ∷ []) [] (hc ∙ sym (append_none r.candidates)) hp
        (he ∙ sym (append_none r.evaluations))
  Step-Keeps {r} {s} (evaluated draws id c q v verdict by e h) =
      let (hc, hp, he) = record_evaluation-rows draws id c q v verdict by r s e h in
      grown-Keeps r s [] [] (e ∷ []) (hc ∙ sym (append_none r.candidates))
        (hp ∙ sym (append_none r.plans)) he
  Step-Keeps {r} {s} (diagnosed draws id c v by d h) =
      let (hc, hp, he) = record_opportunity_diagnosis-rows draws id c v by r s d h in
      grown-Keeps r s [] [] [] (hc ∙ sym (append_none r.candidates))
        (hp ∙ sym (append_none r.plans)) (he ∙ sym (append_none r.evaluations))

  -- Whatever sequence of calls runs, the candidates, plans and evaluations that a lookup found are
  -- found afterwards as they were.
  pub Steps-Keeps : {r s : Registry} → Steps r s → Keeps r s
  Steps-Keeps done = record {
    candidates = λ id c h. h;
    plans = λ id p h. h;
    evaluations = λ id e h. h;
  }
  Steps-Keeps (next step steps) =
      let first = Step-Keeps step in
      let rest = Steps-Keeps steps in
      record {
        candidates = λ id c h. rest.candidates id c (first.candidates id c h);
        plans = λ id p h. rest.plans id p (first.plans id p h);
        evaluations = λ id e h. rest.evaluations id e (first.evaluations id e h);
      }
