-- ===== src/Epistemic/Actions/Runs.antt =====
-- src/orbita/actions.py: the two ways in which `execute_step` goes, with or without the action.
use orbita_agent_research_se.Base.{
  [], ◌∷◌, ◌==◌, eq_iff, ok-result, subst, String, List, false, none, some, Result, ok, err,
  Result-cases, Option-cases, Bool-cases, ◌≡◌, refl, sym, ap, ◌∙◌, ◌⊎◌, inl, inr, arith,
}
use orbita_agent_research_se.Epistemic.Policy.{CommitPolicy}
use orbita_agent_research_se.Epistemic.Tables.{Db}
use orbita_agent_research_se.Epistemic.Models.{StepStatus}
use orbita_agent_research_se.Epistemic.Actions.{
  ActionError, Problem, StepRow, ReceiptRow, State, Stamp, needs_approval, unknown_action,
  in_ledger, unknown_step,
}
use orbita_agent_research_se.Epistemic.Actions.Files.{
  Platform, Action, action_named, result_or_raised, verify_all,
}
use orbita_agent_research_se.Epistemic.Actions.Runtime.{
  find_step, with_step, lacks_approval, receipt, refused, claim_problem, run_action, start,
  check_approval, check_claims, execute_step, finish,
}

pub find_step-id :
    (id : String) (steps : List StepRow) (step : StepRow)
    → find_step id steps ≡ some step
    → step.id ≡ id
unfolding find_step
find_step-id id [] step h = absurd (cc h)
find_step-id id (s ∷ ss) step h = elim (Bool-cases (s.id == id)) [
  | inl own ↦ ground (arith, eq_iff s.id id)
  | inr other ↦ find_step-id id ss step (ground arith)
]

module _ (policy : CommitPolicy) (db : Db) (os : Platform) where
  -- No action is run: the files stay, and no receipt passes, and it is of the step; if it raises, the state stays.
  pub record IsIdle (id : String) (s : State) (answer : Result ActionError ReceiptRow × State)
      : Type 0 where
    pub files : answer.1.files ≡ s.files
    pub names : (r : ReceiptRow) → answer.0 ≡ ok r → r.step_id ≡ id
    pub raises : (e : ActionError) → answer.0 ≡ err e → answer.1 ≡ s
    pub refuses : (r : ReceiptRow) → answer.0 ≡ ok r → r.passed ≡ false

  -- The step passed the checks and its action is run.
  pub record IsRun (stamp : Stamp) (id : String) (s : State) : Type 0 where
    pub step : StepRow
    pub action : Action
    pub found : find_step id s.steps ≡ some step
    pub warranted : claim_problem policy db step.required_claims ≡ ok none
    pub admitted : lacks_approval step s ≡ false
    pub registered : action_named os step.action_type ≡ some action
    pub run :
        execute_step policy db os stamp id s
        ≡ run_action os stamp step action (with_step StepStatus.running step.id s)

  refused-IsIdle :
      (id : String) (s t : State) (stamp : Stamp) (step_id : String) (p : Problem)
      → t.files ≡ s.files
      → step_id ≡ id
      → IsIdle id s (receipt (refused stamp step_id p) t)
  unfolding receipt
  refused-IsIdle id s t stamp step_id p h own = record {
    files = h;
    names = λ r e. sym (ap (λ (x : ReceiptRow). x.step_id) (ok-result e)) ∙ own;
    raises = λ e k. absurd (cc k);
    refuses = λ r e. sym (ap (λ (x : ReceiptRow). x.passed) (ok-result e));
  }

  raised-IsIdle : (id : String) (s : State) (e : ActionError) → IsIdle id s (err e, s)
  raised-IsIdle id s e = record {
    files = refl;
    names = λ r h. absurd (cc h);
    raises = λ _ _. refl;
    refuses = λ r h. absurd (cc h);
  }

  pub execute_step-cases :
      (stamp : Stamp) (id : String) (s : State)
      → IsIdle id s (execute_step policy db os stamp id s) ⊎ IsRun stamp id s
  unfolding execute_step check_claims check_approval start
  execute_step-cases stamp id s = elim (Option-cases (find_step id s.steps)) [
    | inl missing ↦
        inl
          (subst (IsIdle id s) (rw (execute_step, missing)) (raised-IsIdle id s (unknown_step id)))
    | inr (step, found) ↦ elim (Result-cases (claim_problem policy db step.required_claims)) [
      | inr (e, failed) ↦ inl (
          subst (IsIdle id s) (rw (execute_step, found, failed)) (raised-IsIdle id s (in_ledger e)))
      | inl (some p, failed) ↦ inl (
          subst (IsIdle id s) (rw (execute_step, found, failed))
            (refused-IsIdle id s s stamp step.id p refl (find_step-id id s.steps step found)))
      | inl (none, warranted) ↦ elim (Bool-cases (lacks_approval step s)) [
        | inl lacks ↦ inl (
            subst (IsIdle id s) (rw (execute_step, found, warranted, lacks)) (
              refused-IsIdle id s (with_step StepStatus.waiting_approval step.id s) stamp step.id
                needs_approval refl (find_step-id id s.steps step found)))
        | inr admitted ↦ elim (Option-cases (action_named os step.action_type)) [
          | inl unknown ↦ inl (
              subst (IsIdle id s) (rw (execute_step, found, warranted, admitted, start, unknown)) (
                refused-IsIdle id s s stamp step.id (unknown_action step.action_type) refl
                  (find_step-id id s.steps step found)))
          | inr (action, registered) ↦ inr (record {
            step = step;
            action = action;
            found = found;
            warranted = warranted;
            admitted = admitted;
            registered = registered;
            run = rw (execute_step, found, warranted, admitted, start, registered);
          })
        ]
      ]
    ]
  ]

module _ (os : Platform) where
  -- The files that a run leaves are those of its action.
  pub run_action-files :
      (stamp : Stamp) (step : StepRow) (action : Action) (s : State)
      → (run_action os stamp step action s).1.files
        ≡ (result_or_raised os s.files (action step.args s.files)).1
  unfolding run_action finish receipt
  run_action-files stamp step action s =
      let x = result_or_raised os s.files (action step.args s.files) in
      elim (Result-cases (verify_all os step.obligations x.0.outputs x.1)) [
        | inl (checks, e) ↦ rw e
        | inr (e, h) ↦ rw h
      ]

  -- Its receipt, if one is written, is of the step.
  pub run_action-step_id :
      (stamp : Stamp) (step : StepRow) (action : Action) (s t : State) (r : ReceiptRow)
      → run_action os stamp step action s ≡ (ok r, t)
      → r.step_id ≡ step.id
  unfolding run_action finish receipt
  run_action-step_id stamp step action s t r h =
      let x = result_or_raised os s.files (action step.args s.files) in
      elim (Result-cases (verify_all os step.obligations x.0.outputs x.1)) [
        | inl (checks, e) ↦
            let same =
              subst (λ v. finish os stamp step x.0 v (record s { files = x.1 }) ≡ (ok r, t)) e h in
            sym (
              ap (λ (q : ReceiptRow). q.step_id)
                (ok-result (ap (λ (y : Result ActionError ReceiptRow × State). y.0) same)))
        | inr (e, k) ↦ absurd (
            cc (subst (λ v. finish os stamp step x.0 v (record s { files = x.1 }) ≡ (ok r, t)) k h))
      ]
