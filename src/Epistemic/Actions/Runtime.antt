-- ===== src/Epistemic/Actions/Runtime.antt =====
-- src/orbita/actions.py: `SafeActionRuntime`. A method answers its result together with the state
-- it leaves, since it commits along the way and an exception undoes nothing. The identifiers that
-- `uuid4` draws are new, and the times are arguments. `hash_payload` is `_hash_payload`.
use orbita_agent_research_se.Base.{
  leb, filter, ℕ, zero, suc, String, List, [], ◌∷◌, ◌++◌, map, any, all, is_empty, Bool, true,
  false, not, ◌&&◌, Option, none, some, Result, ok, err, ◌>>=◌, if◌then◌else◌, ◌==◌,
}
use orbita_agent_research_se.Base.Json.{Fields, empty}
use orbita_agent_research_se.Epistemic.Models.{is_warranted}
use orbita_agent_research_se.Epistemic.Policy.{CommitPolicy}
use orbita_agent_research_se.Epistemic.Tables.{Db}
use orbita_agent_research_se.Epistemic.Ledger.{LedgerError}
use orbita_agent_research_se.Epistemic.Planner.{CandidateStep, CandidatePlan}
use orbita_agent_research_se.Epistemic.Support.{evaluate}
use orbita_agent_research_se.Epistemic.Models.{RiskLevel, StepStatus}
use orbita_agent_research_se.Epistemic.Actions.{
  PlanStatus, ApprovalStatus, ActionError, in_ledger, unknown_step, not_pending, Problem, claim_is,
  needs_approval, no_obligations, obligation_failed, unknown_action, PlanRow, StepRow, ApprovalRow,
  Check, ReceiptRow, ActionResult, State, Stamp,
}
use orbita_agent_research_se.Epistemic.Actions.Files.{
  Platform, Action, action_named, result_or_raised, verify_all,
}

unfoldable pub find_step : String → List StepRow → Option StepRow
find_step id [] = none
find_step id (s ∷ ss) = if s.id == id then some s else find_step id ss

-- `UPDATE steps SET status = ? WHERE id = ?`
unfoldable pub set_step : StepStatus → String → List StepRow → List StepRow
set_step status id = map (λ (s : StepRow). if s.id == id then record s { status = status } else s)

abbrev pub with_step : StepStatus → String → State → State
with_step status id s = record s { steps = set_step status id s.steps }

abbrev pub with_plan : PlanStatus → String → State → State
with_plan status id s = record s {
  plans = map (λ (p : PlanRow). if p.id == id then record p { status = status } else p) s.plans;
}

abbrev pub is_approved : ApprovalStatus → Bool
is_approved ApprovalStatus.pending = false
is_approved ApprovalStatus.approved = true

abbrev pub is_risky : RiskLevel → Bool
is_risky RiskLevel.low = false
is_risky RiskLevel.medium = true
is_risky RiskLevel.high = true

-- an approval of the step and of its exact arguments
abbrev pub approves : String → (args_hash : String) → ApprovalRow → Bool
approves id args_hash a = a.step_id == id && a.args_hash == args_hash && is_approved a.status

abbrev pub lacks_approval : StepRow → State → Bool
lacks_approval step s =
    is_risky step.risk && not (any (approves step.id step.args_hash) s.approvals)

-- the INSERTs of the steps of `persist_plan`
unfoldable pub step_rows :
    (hash_payload : Fields → String) (ids : ℕ → String) (plan_id now : String) (sequence : ℕ)
    → List CandidateStep
    → List StepRow
step_rows hash_payload ids plan_id now n [] = []
step_rows hash_payload ids plan_id now n (c ∷ cs) =
    (record {
      id = ids n;
      plan_id = plan_id;
      sequence = n;
      intent = c.intent;
      action_type = c.action_type;
      args = c.args;
      required_claims = c.required_claims;
      obligations = c.obligations;
      risk = c.risk;
      status = StepStatus.pending;
      args_hash = hash_payload c.args;
      created_at = now;
    })
    ∷ step_rows hash_payload ids plan_id now (suc n) cs

unfoldable pub persist_plan :
    (hash_payload : Fields → String) (ids : ℕ → String)
    → Stamp
    → CandidatePlan
    → State
    → String × State
unfolding step_rows
persist_plan hash_payload ids stamp plan s =
    let row : PlanRow = record {
      id = stamp.fresh_id;
      goal = plan.goal;
      status = PlanStatus.pending;
      created_at = stamp.now;
    } in
    (
      stamp.fresh_id,
      record s {
        plans = s.plans ++ row ∷ [];
        steps = s.steps ++ step_rows hash_payload ids stamp.fresh_id stamp.now 0 plan.steps;
      },
    )

abbrev pub pending_approval : Stamp → StepRow → ApprovalRow
pending_approval stamp step = record {
  id = stamp.fresh_id;
  step_id = step.id;
  args_hash = step.args_hash;
  status = ApprovalStatus.pending;
  approved_by = none;
  created_at = stamp.now;
  decided_at = none;
}

unfoldable pub request_approval : Stamp → String → State → Result ActionError String × State
unfolding find_step set_step
request_approval stamp id s = elim (find_step id s.steps) [
  | none ↦ (err (unknown_step id), s)
  | some step ↦ (
    ok stamp.fresh_id,
    with_step StepStatus.waiting_approval id
        (record s { approvals = s.approvals ++ pending_approval stamp step ∷ [] }),
  )
]

-- the UPDATE of `approve`, with its row count
unfoldable pub decide :
    (approval_id approved_by now : String) → List ApprovalRow → ℕ × List ApprovalRow
decide id by now [] = (0, [])
decide id by now (a ∷ rows) =
    let (count, rest) = decide id by now rows in
    if a.id == id && not (is_approved a.status)
    then (
      suc count,
      record a { status = ApprovalStatus.approved; approved_by = some by; decided_at = some now }
          ∷ rest,
    )
    else (count, a ∷ rest)

-- the check of the row count
abbrev pub decided : ℕ → List ApprovalRow → State → Result ActionError (Unit {0}) × State
decided (suc zero) rows s = (ok tt, record s { approvals = rows })
decided _ rows s = (err not_pending, s)

unfoldable pub approve :
    (approval_id approved_by now : String) → State → Result ActionError (Unit {0}) × State
unfolding decide
approve id by now s = let (count, rows) = decide id by now s.approvals in decided count rows s

abbrev pub receipt_row : Stamp → String → Bool → Fields → List Check → Option Problem → ReceiptRow
receipt_row stamp id passed outputs checks error = record {
  id = stamp.fresh_id;
  step_id = id;
  passed = passed;
  outputs = outputs;
  checks = checks;
  error = error;
  created_at = stamp.now;
}

-- `_receipt`
unfoldable pub receipt : ReceiptRow → State → Result ActionError ReceiptRow × State
unfolding set_step
receipt row s = (
  ok row,
  with_step (if row.passed then StepStatus.succeeded else StepStatus.failed) row.step_id
      (record s { receipts = s.receipts ++ row ∷ [] }),
)

abbrev pub refused : Stamp → String → Problem → ReceiptRow
refused stamp id p = receipt_row stamp id false empty [] (some p)

abbrev pub final_error :
    ActionResult → (obligations : List Fields) → (checks_ok : Bool) → Option Problem
final_error result obligations checks_ok =
    if result.passed && is_empty obligations
    then some no_obligations
    else if result.passed && not checks_ok
    then some obligation_failed
    else result.error

abbrev pub all_passed : List Check → Bool
all_passed checks = all (λ (c : Check). c.passed) checks

abbrev pub final_receipt : Stamp → StepRow → ActionResult → List Check → ReceiptRow
final_receipt stamp step result checks =
    let checks_ok = not (is_empty step.obligations) && all_passed checks in
    receipt_row stamp step.id (result.passed && checks_ok) result.outputs checks
      (final_error result step.obligations checks_ok)

module _ (policy : CommitPolicy) (db : Db) where
  -- the loop over the required claims: the first that has no warrant
  unfoldable pub claim_problem : List String → Result LedgerError (Option Problem)
  claim_problem [] = ok none
  claim_problem (c ∷ cs) = do
    report ← evaluate policy db c
    let rest = claim_problem cs
    if is_warranted report.state then rest else ok (some (claim_is c report.state))

module _ (os : Platform) where
  unfoldable pub finish :
      Stamp
      → StepRow
      → ActionResult
      → Result ActionError (List Check)
      → State
      → Result ActionError ReceiptRow × State
  unfolding receipt
  finish stamp step result (err e) s = (err e, s)
  finish stamp step result (ok checks) s = receipt (final_receipt stamp step result checks) s

  -- from the action on
  unfoldable pub run_action :
      Stamp → StepRow → Action → State → Result ActionError ReceiptRow × State
  unfolding finish
  run_action stamp step action s =
      let (result, files) = result_or_raised os s.files (action step.args s.files) in
      finish stamp step result (verify_all os step.obligations result.outputs files)
        (record s { files = files })

  -- from the look-up of the action on
  unfoldable pub start : Stamp → StepRow → State → Result ActionError ReceiptRow × State
  unfolding run_action receipt set_step
  start stamp step s = elim (action_named os step.action_type) [
    | none ↦ receipt (refused stamp step.id (unknown_action step.action_type)) s
    | some action ↦ run_action stamp step action (with_step StepStatus.running step.id s)
  ]

  -- from the check of the risk on
  unfoldable pub check_approval : Stamp → StepRow → State → Result ActionError ReceiptRow × State
  unfolding receipt set_step start
  check_approval stamp step s =
      if lacks_approval step s
      then receipt (refused stamp step.id needs_approval)
          (with_step StepStatus.waiting_approval step.id s)
      else start stamp step s

  unfoldable pub check_claims :
      Stamp
      → StepRow
      → Result LedgerError (Option Problem)
      → State
      → Result ActionError ReceiptRow × State
  unfolding receipt check_approval
  check_claims stamp step (err e) s = (err (in_ledger e), s)
  check_claims stamp step (ok (some p)) s = receipt (refused stamp step.id p) s
  check_claims stamp step (ok none) s = check_approval stamp step s

module _ (policy : CommitPolicy) (db : Db) (os : Platform) where
  unfoldable pub execute_step : Stamp → String → State → Result ActionError ReceiptRow × State
  unfolding check_claims
  execute_step stamp id s = elim (find_step id s.steps) [
    | none ↦ (err (unknown_step id), s)
    | some step ↦ check_claims os stamp step (claim_problem policy db step.required_claims) s
  ]

-- `ORDER BY sequence`
insert_by_sequence : StepRow → List StepRow → List StepRow
insert_by_sequence x [] = x ∷ []
insert_by_sequence x (y ∷ ys) =
    let rest = insert_by_sequence x ys in if leb x.sequence y.sequence then x ∷ y ∷ ys else y ∷ rest

by_sequence : List StepRow → List StepRow
unfolding insert_by_sequence
by_sequence [] = []
by_sequence (x ∷ xs) = insert_by_sequence x (by_sequence xs)

-- `SELECT id FROM steps WHERE plan_id = ? ORDER BY sequence`
unfoldable pub step_ids : String → List StepRow → List String
unfolding by_sequence
step_ids plan_id steps =
    map (λ (x : StepRow). x.id) (by_sequence (filter (λ (x : StepRow). x.plan_id == plan_id) steps))

abbrev pub prepend :
    ReceiptRow
    → Result ActionError (List ReceiptRow) × State
    → Result ActionError (List ReceiptRow) × State
prepend r (ok rs, s) = (ok (r ∷ rs), s)
prepend r (err e, s) = (err e, s)

-- after a step: an exception leaves, a receipt that is not passed ends the plan
abbrev pub go_on :
    String
    → Result ActionError ReceiptRow × State
    → (rest : Result ActionError (List ReceiptRow) × State)
    → Result ActionError (List ReceiptRow) × State
go_on plan_id (err e, s) rest = (err e, s)
go_on plan_id (ok r, s) rest =
    if r.passed then prepend r rest else (ok (r ∷ []), with_plan PlanStatus.failed plan_id s)

module _ (policy : CommitPolicy) (db : Db) (os : Platform) where
  -- the loop over the steps; the step numbered `n` draws the stamp `n`
  unfoldable pub run_steps :
      (ℕ → Stamp)
      → ℕ
      → (plan_id : String) → List String
      → State
      → Result ActionError (List ReceiptRow) × State
  unfolding execute_step
  run_steps stamps n plan_id [] s = (ok [], with_plan PlanStatus.succeeded plan_id s)
  run_steps stamps n plan_id (id ∷ ids) s =
      let answer = execute_step policy db os (stamps n) id s in
      let rest = run_steps stamps (suc n) plan_id ids answer.1 in go_on plan_id answer rest

  unfoldable pub execute_plan :
      (ℕ → Stamp) → (plan_id : String) → State → Result ActionError (List ReceiptRow) × State
  unfolding run_steps step_ids
  execute_plan stamps plan_id s =
      run_steps stamps 0 plan_id (step_ids plan_id s.steps) (with_plan PlanStatus.running plan_id s)
