-- ===== src/Epistemic/Actions/Raised.antt =====
-- src/orbita/actions.py: what a step leaves behind that raises.
use orbita_agent_research_se.Base.{
  String, List, [], ◌∷◌, some, Result, err, Result-cases, Bool-cases, ◌≡◌, refl, sym, ap, ◌∙◌, ◌⊎◌,
  inl, inr, arith, ◌==◌, eq_iff, subst,
}
use orbita_agent_research_se.Epistemic.Policy.{CommitPolicy}
use orbita_agent_research_se.Epistemic.Tables.{Db}
use orbita_agent_research_se.Epistemic.Models.{StepStatus}
use orbita_agent_research_se.Epistemic.Actions.{ActionError, StepRow, ReceiptRow, State, Stamp}
use orbita_agent_research_se.Epistemic.Actions.Files.{
  Platform, Action, result_or_raised, verify_all,
}
use orbita_agent_research_se.Epistemic.Actions.Runtime.{
  find_step, set_step, run_action, execute_step, finish, receipt,
}
use orbita_agent_research_se.Epistemic.Actions.Runs.{execute_step-cases}

find_step-set_step :
    (status : StepStatus) (id : String) (steps : List StepRow) (step : StepRow)
    → find_step id steps ≡ some step
    → find_step id (set_step status step.id steps) ≡ some (record step { status = status })
unfolding find_step set_step
find_step-set_step status id [] step h = absurd (cc h)
find_step-set_step status id (s ∷ ss) step h = elim (Bool-cases (s.id == id)) [
  | inl own ↦ ground (arith, eq_iff s.id id)
  | inr other ↦ ground (arith, find_step-set_step status id ss step (ground arith), eq_iff s.id id)
]

-- the step is running, and no receipt was written
abbrev pub IsRunning : (id : String) → State → State → Type 0
IsRunning id s t =
    (step : StepRow) × (find_step id t.steps ≡ some step)
    × (step.status ≡ StepStatus.running)
    × (t.receipts ≡ s.receipts)

module _ (os : Platform) where
  run_action-raises :
      (stamp : Stamp) (step : StepRow) (action : Action) (s t : State) (e : ActionError)
      → run_action os stamp step action s ≡ (err e, t)
      → (t.steps ≡ s.steps) × (t.receipts ≡ s.receipts)
  unfolding run_action finish receipt
  run_action-raises stamp step action s t e h =
      let x = result_or_raised os s.files (action step.args s.files) in
      elim (Result-cases (verify_all os step.obligations x.0.outputs x.1)) [
        | inl (checks, k) ↦ absurd (
            cc
              (subst (λ v. finish os stamp step x.0 v (record s { files = x.1 }) ≡ (err e, t)) k h))
        | inr (e', k) ↦
            let same =
              subst (λ v. finish os stamp step x.0 v (record s { files = x.1 }) ≡ (err e, t)) k h in
            (
              ap (λ (y : Result ActionError ReceiptRow × State). y.1.steps) (sym same),
              ap (λ (y : Result ActionError ReceiptRow × State). y.1.receipts) (sym same),
            )
      ]

  -- A step that raises leaves the state as it was, or it stays running and has no receipt.
  pub execute_step-IsRunning :
      (policy : CommitPolicy) (db : Db) (stamp : Stamp) (id : String) (s t : State)
      (e : ActionError)
      → execute_step policy db os stamp id s ≡ (err e, t)
      → (t ≡ s) ⊎ IsRunning id s t
  execute_step-IsRunning policy db stamp id s t e h =
      elim (execute_step-cases policy db os stamp id s) [
        | inl idle ↦ inl (
            ap (λ (y : Result ActionError ReceiptRow × State). y.1) (sym h)
            ∙ idle.raises e (ap (λ (y : Result ActionError ReceiptRow × State). y.0) h))
        | inr ran ↦
            let (steps, receipts) =
              run_action-raises stamp ran.step ran.action _ t e (sym ran.run ∙ h) in
            inr (
              record ran.step { status = StepStatus.running },
              ap (find_step id) steps
                  ∙ find_step-set_step StepStatus.running id s.steps ran.step ran.found,
              refl,
              receipts,
            )
      ]
