-- ===== src/Epistemic/Actions/Plans.antt =====
-- src/orbita/actions.py: `execute_plan`, its course and what it leaves outside the workspace.
use orbita_agent_research_se.Base.{
  ℕ, suc, subst, String, List, [], ◌∷◌, true, false, Result, ok, err, map, Bool-cases, ◌≡◌, refl,
  sym, ap, ◌∙◌, inl, inr, arith, ◌==◌, eq_iff, if◌then◌else◌, All, ok-result,
}
use orbita_agent_research_se.Epistemic.Policy.{CommitPolicy}
use orbita_agent_research_se.Epistemic.Tables.{Db}
use orbita_agent_research_se.Epistemic.Actions.{
  ActionError, PlanRow, PlanStatus, ReceiptRow, State, Stamp, File,
}
use orbita_agent_research_se.Epistemic.Actions.Files.{Platform}
use orbita_agent_research_se.Epistemic.Actions.Runtime.{
  with_plan, execute_step, step_ids, go_on, prepend, run_steps, execute_plan,
}
use orbita_agent_research_se.Epistemic.Actions.Runs.{
  execute_step-cases, find_step-id, run_action-step_id,
}
use orbita_agent_research_se.Epistemic.Actions.Confined.{AreKept, execute_step-AreKept}

-- The receipts of a plan whose steps are `ids`, and the status that it ends with.
pub data Course : List String → List ReceiptRow → PlanStatus → Type 0 where
  whole : Course [] [] PlanStatus.succeeded
  passed :
      {ids : List String} {r : ReceiptRow} {rs : List ReceiptRow} {end : PlanStatus}
      → r.passed ≡ true
      → Course ids rs end
      → Course (r.step_id ∷ ids) (r ∷ rs) end
  stopped :
      {ids : List String} {r : ReceiptRow}
      → r.passed ≡ false
      → Course (r.step_id ∷ ids) (r ∷ []) PlanStatus.failed

-- each row of the plan has the status
abbrev pub HasStatus : String → PlanStatus → State → Type 0
HasStatus plan_id end s = All (λ (p : PlanRow). p.id ≡ plan_id → p.status ≡ end) s.plans

with_plan-HasStatus :
    (end : PlanStatus) (plan_id : String) (s : State)
    → HasStatus plan_id end (with_plan end plan_id s)
with_plan-HasStatus end plan_id s = rows s.plans
  where
    rows :
        (ps : List PlanRow)
        → All
            (λ (p : PlanRow). p.id ≡ plan_id → p.status ≡ end)
            (map (λ (p : PlanRow). if p.id == plan_id then record p { status = end } else p) ps)
    rows [] = tt
    rows (p ∷ ps) = (
      elim (Bool-cases (p.id == plan_id)) [
        | inl own ↦ rw own (λ _. refl)
        | inr other ↦ rw other (λ e. absurd (ground (arith, eq_iff p.id plan_id)))
      ],
      rows ps,
    )

prepend-ok :
    (r : ReceiptRow) (rest : Result ActionError (List ReceiptRow) × State) (rs : List ReceiptRow)
    (t : State)
    → prepend r rest ≡ (ok rs, t)
    → (qs : List ReceiptRow) × (rest ≡ (ok qs, t)) × (r ∷ qs ≡ rs)
prepend-ok r (err e, s) rs t h = absurd (cc h)
prepend-ok r (ok qs, s) rs t h = (
  qs,
  ap (λ (u : State). (ok qs, u)) (ap (λ (y : Result ActionError (List ReceiptRow) × State). y.1) h),
  ok-result (ap (λ (y : Result ActionError (List ReceiptRow) × State). y.0) h),
)

go_on-Course :
    (plan_id id : String) (ids : List String) (answer : Result ActionError ReceiptRow × State)
    (rest : Result ActionError (List ReceiptRow) × State) (t : State) (rs : List ReceiptRow)
    → ((r : ReceiptRow) → answer.0 ≡ ok r → r.step_id ≡ id)
    → ((u : State) (qs : List ReceiptRow)
        → rest ≡ (ok qs, u)
        → (end : PlanStatus) × Course ids qs end × HasStatus plan_id end u)
    → go_on plan_id answer rest ≡ (ok rs, t)
    → (end : PlanStatus) × Course (id ∷ ids) rs end × HasStatus plan_id end t
go_on-Course plan_id id ids (err e, s) rest t rs own ih h = absurd (cc h)
go_on-Course plan_id id ids (ok r, s) rest t rs own ih h = elim (Bool-cases r.passed) [
  | inl good ↦
      let (qs, ran, same) = prepend-ok r rest rs t (
        subst
          (λ b.
            (if b then prepend r rest else (ok (r ∷ []), with_plan PlanStatus.failed plan_id s))
            ≡ (ok rs, t))
          good h) in
      let (end, course, status) = ih t qs ran in
      (
        end,
        subst (λ (xs : List ReceiptRow). Course (id ∷ ids) xs end) same
            (subst (λ (x : String). Course (x ∷ ids) (r ∷ qs) end) (own r refl)
              (passed good course)),
        status,
      )
  | inr bad ↦
      let same =
        subst
          (λ b.
            (if b then prepend r rest else (ok (r ∷ []), with_plan PlanStatus.failed plan_id s))
            ≡ (ok rs, t))
          bad h in
      (
        PlanStatus.failed,
        subst (λ (xs : List ReceiptRow). Course (id ∷ ids) xs PlanStatus.failed)
            (ok-result (ap (λ (y : Result ActionError (List ReceiptRow) × State). y.0) same))
            (subst (λ (x : String). Course (x ∷ ids) (r ∷ []) PlanStatus.failed) (own r refl)
              (stopped bad)),
        subst (HasStatus plan_id PlanStatus.failed)
            (ap (λ (y : Result ActionError (List ReceiptRow) × State). y.1) same)
            (with_plan-HasStatus PlanStatus.failed plan_id s),
      )
]

module _ (os : Platform) (policy : CommitPolicy) (db : Db) where
  go_on-files :
      (plan_id : String) (answer : Result ActionError ReceiptRow × State)
      (rest : Result ActionError (List ReceiptRow) × State) (fs : List File)
      → AreKept os fs answer.1.files
      → AreKept os fs rest.1.files
      → AreKept os fs (go_on plan_id answer rest).1.files
  go_on-files plan_id (err e, s) rest fs one two = one
  go_on-files plan_id (ok r, s) (ok rs, t) fs one two = elim (Bool-cases r.passed) [
    | inl good ↦ rw good two
    | inr bad ↦ rw bad one
  ]
  go_on-files plan_id (ok r, s) (err e, t) fs one two = elim (Bool-cases r.passed) [
    | inl good ↦ rw good two
    | inr bad ↦ rw bad one
  ]

  run_steps-AreKept :
      (stamps : ℕ → Stamp) (n : ℕ) (plan_id : String) (ids : List String) (s : State)
      → AreKept os s.files (run_steps policy db os stamps n plan_id ids s).1.files
  unfolding run_steps
  run_steps-AreKept stamps n plan_id [] s = λ p out. refl
  run_steps-AreKept stamps n plan_id (id ∷ ids) s =
      let one = execute_step-AreKept os policy db (stamps n) id s in
      let answer = execute_step policy db os (stamps n) id s in
      let two = run_steps-AreKept stamps (suc n) plan_id ids answer.1 in
      go_on-files plan_id answer (run_steps policy db os stamps (suc n) plan_id ids answer.1)
        s.files one (λ p out. two p out ∙ one p out)

  -- However the execution of a plan ends, every file outside the workspace is as it was.
  pub execute_plan-AreKept :
      (stamps : ℕ → Stamp) (plan_id : String) (s : State)
      → AreKept os s.files (execute_plan policy db os stamps plan_id s).1.files
  unfolding execute_plan
  execute_plan-AreKept stamps plan_id s =
      run_steps-AreKept stamps 0 plan_id (step_ids plan_id s.steps)
        (with_plan PlanStatus.running plan_id s)

  execute_step-step_id :
      (stamp : Stamp) (id : String) (s t : State) (r : ReceiptRow)
      → execute_step policy db os stamp id s ≡ (ok r, t)
      → r.step_id ≡ id
  execute_step-step_id stamp id s t r h = elim (execute_step-cases policy db os stamp id s) [
    | inl idle ↦ idle.names r (ap (λ (x : Result ActionError ReceiptRow × State). x.0) h)
    | inr ran ↦
        run_action-step_id os stamp ran.step ran.action _ t r (sym ran.run ∙ h)
        ∙ find_step-id id s.steps ran.step ran.found
  ]

  run_steps-Course :
      (stamps : ℕ → Stamp) (n : ℕ) (plan_id : String) (ids : List String) (s t : State)
      (rs : List ReceiptRow)
      → run_steps policy db os stamps n plan_id ids s ≡ (ok rs, t)
      → (end : PlanStatus) × Course ids rs end × HasStatus plan_id end t
  unfolding run_steps
  run_steps-Course stamps n plan_id [] s t rs h = (
    PlanStatus.succeeded,
    subst (λ (x : List ReceiptRow). Course [] x PlanStatus.succeeded)
        (ok-result (ap (λ (y : Result ActionError (List ReceiptRow) × State). y.0) h)) whole,
    subst (HasStatus plan_id PlanStatus.succeeded)
        (ap (λ (y : Result ActionError (List ReceiptRow) × State). y.1) h)
        (with_plan-HasStatus PlanStatus.succeeded plan_id s),
  )
  run_steps-Course stamps n plan_id (id ∷ ids) s t rs h =
      let answer = execute_step policy db os (stamps n) id s in
      go_on-Course plan_id id ids answer _ t rs
        (λ r e.
          execute_step-step_id (stamps n) id s answer.1 r
            (ap (λ (o : Result ActionError ReceiptRow). (o, answer.1)) e))
        (λ u qs e. run_steps-Course stamps (suc n) plan_id ids answer.1 u qs e) h

  -- The execution of a plan that returns ran its steps in order, until one did not pass or to the
  -- end, answers a receipt of each, and leaves the plan failed or succeeded accordingly.
  pub execute_plan-Course :
      (stamps : ℕ → Stamp) (plan_id : String) (s t : State) (rs : List ReceiptRow)
      → execute_plan policy db os stamps plan_id s ≡ (ok rs, t)
      → (end : PlanStatus) × Course (step_ids plan_id s.steps) rs end × HasStatus plan_id end t
  unfolding execute_plan
  execute_plan-Course stamps plan_id s t rs h = run_steps-Course stamps 0 plan_id _ _ t rs h
