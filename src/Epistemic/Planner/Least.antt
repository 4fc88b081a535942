-- ===== src/Epistemic/Planner/Least.antt =====
-- src/orbita/planner.py: the plan that `choose` answers has the least score.
use orbita_agent_research_se.Base.{
  List, [], ◌∷◌, true, false, ok, >>=-eq-ok, Bool-cases, Result-cases, ◌≡◌, refl, sym, ap, subst,
  ◌∙◌, ◌⊎◌, ◌↔◌, inl, inr, arith, All, Memᴰ, length, ◌≤◌, ◌<◌, ok-result, ltb,
}
use orbita_agent_research_se.Epistemic.Policy.{CommitPolicy}
use orbita_agent_research_se.Epistemic.Tables.{Db}
use orbita_agent_research_se.Epistemic.Planner.{
  CandidatePlan, PlanScore, lift, comes_first, insert_plan, sort_plans, first_and_scores, score,
  score_all, choose,
}

-- The score is less, or it is the same and the steps are not more.
abbrev pub IsLess : CandidatePlan × PlanScore → CandidatePlan × PlanScore → Type 0
IsLess x y =
    (x.1.total < y.1.total) ⊎ (x.1.total ≡ y.1.total) × (length x.0.steps ≤ length y.0.steps)

comes_first-IsLess : (x y : CandidatePlan × PlanScore) → comes_first x y ≡ true → IsLess x y
unfolding comes_first
comes_first-IsLess (p, s) (q, t) h = elim (Bool-cases (ltb s.total t.total)) [
  | inl less ↦ inl (ground arith)
  | inr other ↦ inr (ground arith, ground arith)
]

not_first-IsLess : (x y : CandidatePlan × PlanScore) → comes_first x y ≡ false → IsLess y x
unfolding comes_first
not_first-IsLess (p, s) (q, t) h = elim (Bool-cases (ltb t.total s.total)) [
  | inl less ↦ inl (ground arith)
  | inr other ↦ inr (ground arith, ground arith)
]

IsLess-trans : (x y z : CandidatePlan × PlanScore) → IsLess x y → IsLess y z → IsLess x z
IsLess-trans x y z (inl a) (inl b) = inl (omega arith)
IsLess-trans x y z (inl a) (inr b) = inl (ground arith)
IsLess-trans x y z (inr a) (inl b) = inl (ground arith)
IsLess-trans x y z (inr a) (inr b) = inr (a.0 ∙ b.0, ground arith)

module _ (P : CandidatePlan × PlanScore → Type 0) where
  All-insert_plan_iff :
      (x : CandidatePlan × PlanScore) (ys : List (CandidatePlan × PlanScore))
      → All P (insert_plan x ys) ↔ (P x × All P ys)
  unfolding insert_plan
  All-insert_plan_iff x [] = (λ h. h, λ h. h)
  All-insert_plan_iff x (y ∷ ys) =
      let ih = All-insert_plan_iff x ys in
      elim (Bool-cases (comes_first x y)) [
        | inl first ↦ (λ h. let r : P x × (P y × All P ys) = rw first at h in r, λ h. rw first h)
        | inr other ↦ (
          λ h.
              let r : P y × All P (insert_plan x ys) = rw other at h in
              ((ih.0 r.1).0, (r.0, (ih.0 r.1).1)),
          λ h. rw other (h.1.0, ih.1 (h.0, h.1.1)),
        )
      ]

  All-sort_plans_iff : (xs : List (CandidatePlan × PlanScore)) → All P (sort_plans xs) ↔ All P xs
  unfolding sort_plans
  All-sort_plans_iff [] = (λ h. h, λ h. h)
  All-sort_plans_iff (x ∷ xs) =
      let ih = All-sort_plans_iff xs in
      let here = All-insert_plan_iff x (sort_plans xs) in
      (λ h. ((here.0 h).0, ih.0 (here.0 h).1), λ h. here.1 (h.0, ih.1 h.1))

-- The first entry is less than all others.
IsHeaded : List (CandidatePlan × PlanScore) → Type 0
IsHeaded [] = Unit
IsHeaded (x ∷ xs) = All (IsLess x) xs

All-IsLess_trans :
    (x y : CandidatePlan × PlanScore) (zs : List (CandidatePlan × PlanScore))
    → IsLess x y
    → All (IsLess y) zs
    → All (IsLess x) zs
All-IsLess_trans x y [] less h = tt
All-IsLess_trans x y (z ∷ zs) less h =
    (IsLess-trans x y z less h.0, All-IsLess_trans x y zs less h.1)

insert_plan-IsHeaded :
    (x : CandidatePlan × PlanScore) (ys : List (CandidatePlan × PlanScore))
    → IsHeaded ys
    → IsHeaded (insert_plan x ys)
unfolding insert_plan IsHeaded
insert_plan-IsHeaded x [] h = tt
insert_plan-IsHeaded x (y ∷ ys) h = elim (Bool-cases (comes_first x y)) [
  | inl first ↦
      rw first
        (comes_first-IsLess x y first, All-IsLess_trans x y ys (comes_first-IsLess x y first) h)
  | inr other ↦ rw other ((All-insert_plan_iff (IsLess y) x ys).1 (not_first-IsLess x y other, h))
]

sort_plans-IsHeaded : (xs : List (CandidatePlan × PlanScore)) → IsHeaded (sort_plans xs)
unfolding sort_plans IsHeaded
sort_plans-IsHeaded [] = tt
sort_plans-IsHeaded (x ∷ xs) = insert_plan-IsHeaded x (sort_plans xs) (sort_plans-IsHeaded xs)

module _ (policy : CommitPolicy) (db : Db) where
  -- the plan is one of the plans and has the score
  abbrev pub IsScored : List CandidatePlan → CandidatePlan × PlanScore → Type 0
  IsScored plans x = Memᴰ x.0 plans × (score policy db x.0 ≡ ok x.1)

  lift-ok :
      (p : CandidatePlan) (s : PlanScore)
      → lift (score policy db p) ≡ ok s
      → score policy db p ≡ ok s
  lift-ok p s h = elim (Result-cases (score policy db p)) [
    | inl (t, e) ↦ ground arith
    | inr (x, e) ↦ absurd (ground arith)
  ]

  All-wider :
      (p : CandidatePlan) (ps : List CandidatePlan) (xs : List (CandidatePlan × PlanScore))
      → All (IsScored ps) xs
      → All (IsScored (p ∷ ps)) xs
  All-wider p ps [] h = tt
  All-wider p ps (x ∷ xs) h = ((Memᴰ.tail h.0.0, h.0.1), All-wider p ps xs h.1)

  score_all-IsScored :
      (plans : List CandidatePlan) (xs : List (CandidatePlan × PlanScore))
      → score_all policy db plans ≡ ok xs
      → All (IsScored plans) xs
  unfolding score_all
  score_all-IsScored [] xs h = subst (All (IsScored [])) (ok-result h) tt
  score_all-IsScored (p ∷ ps) xs h =
      let (s, e, h1) = >>=-eq-ok (lift (score policy db p)) _ h in
      let (rest, es, h2) = >>=-eq-ok (score_all policy db ps) _ h1 in
      subst (All (IsScored (p ∷ ps))) (ok-result h2)
        ((Memᴰ.head refl, lift-ok p s e), All-wider p ps rest (score_all-IsScored ps rest es))

  module _ (P : CandidatePlan × PlanScore → Type 0) where
    score_all-each :
        (plans : List CandidatePlan) (xs : List (CandidatePlan × PlanScore))
        → score_all policy db plans ≡ ok xs
        → All P xs
        → All (λ (p : CandidatePlan). (s : PlanScore) × (score policy db p ≡ ok s) × P (p, s)) plans
    unfolding score_all
    score_all-each [] xs h all = tt
    score_all-each (p ∷ ps) xs h all =
        let (s, e, h1) = >>=-eq-ok (lift (score policy db p)) _ h in
        let (rest, es, h2) = >>=-eq-ok (score_all policy db ps) _ h1 in
        let both : P (p, s) × All P rest = subst (All P) (sym (ok-result h2)) all in
        ((s, lift-ok p s e, both.0), score_all-each ps rest es both.1)

  -- The plan that is chosen is one of the plans, and no plan has a lower score, or the same score and
  -- fewer steps.
  pub choose-IsLess :
      (plans : List CandidatePlan) (best : CandidatePlan) (scores : List PlanScore)
      → choose policy db plans ≡ ok (best, scores)
      → (s : PlanScore) × Memᴰ best plans
        × (score policy db best ≡ ok s)
        × All
            (λ (p : CandidatePlan).
              (t : PlanScore) × (score policy db p ≡ ok t) × IsLess (best, s) (p, t))
            plans
  unfolding choose IsHeaded
  choose-IsLess plans best scores h =
      let (xs, found, h1) = >>=-eq-ok (score_all policy db plans) _ h in
      chosen (sort_plans xs) (sort_plans-IsHeaded xs)
        ((All-sort_plans_iff (IsScored plans) xs).1 (score_all-IsScored plans xs found))
        (λ P all. score_all-each P plans xs found ((All-sort_plans_iff P xs).0 all)) h1
    where
      chosen :
          (ys : List (CandidatePlan × PlanScore))
          → IsHeaded ys
          → All (IsScored plans) ys
          → ((P : CandidatePlan × PlanScore → Type 0)
              → All P ys
              → All
                  (λ (p : CandidatePlan). (t : PlanScore) × (score policy db p ≡ ok t) × P (p, t))
                  plans)
          → first_and_scores ys ≡ ok (best, scores)
          → (s : PlanScore) × Memᴰ best plans
            × (score policy db best ≡ ok s)
            × All
                (λ (p : CandidatePlan).
                  (t : PlanScore) × (score policy db p ≡ ok t) × IsLess (best, s) (p, t))
                plans
      chosen [] headed scored each k = absurd (cc k)
      chosen ((p, s) ∷ ys) headed scored each k =
          let same : p ≡ best = ap (λ (x : CandidatePlan × List PlanScore). x.0) (ok-result k) in
          (
            s,
            subst (λ (q : CandidatePlan). Memᴰ q plans) same scored.0.0,
            subst (λ (q : CandidatePlan). score policy db q ≡ ok s) same scored.0.1,
            each (IsLess (best, s)) (
                subst (λ (q : CandidatePlan). All (IsLess (q, s)) ((p, s) ∷ ys)) same
                  (inr (refl, ground arith), headed)),
          )
