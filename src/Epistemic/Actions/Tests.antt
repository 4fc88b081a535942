-- ===== src/Epistemic/Actions/Tests.antt =====
-- src/orbita/actions.py and src/orbita/planner.py: tests. The claim "b" is supported in the ledger.
use orbita_agent_research_se.Base.{
  any, all, ℕ, String, List, [], ◌∷◌, true, not, none, some, Result, ok, err, ◌≡◌, refl, ◌≢◌, ◌⊎◌,
  ◌==◌, All, Memᴰ, distinct,
}
use orbita_agent_research_se.Base.Json.{Json, str, int, pos, Fields, empty, field}
use orbita_agent_research_se.Base.Texts.{sorted}
use orbita_agent_research_se.Epistemic.Models.{RiskLevel, StepStatus}
use orbita_agent_research_se.Epistemic.Policy.{default_policy}
use orbita_agent_research_se.Epistemic.Tests.{ledger, program}
use orbita_agent_research_se.Epistemic.Planner.{
  CandidatePlan, PlanScore, score, choose, comes_first, sort_plans, score_all,
}
use orbita_agent_research_se.Epistemic.Planner.Least.{choose-IsLess, IsLess}
use orbita_agent_research_se.Epistemic.Actions.{
  ActionError, missing_key, not_pending, PlanStatus, StepRow, ApprovalRow, ApprovalStatus,
  ReceiptRow, State, Stamp,
}
use orbita_agent_research_se.Epistemic.Actions.Files.{
  verify_all, verify, path_item, safe_path, write_file, write_text, action_named, contains,
  Platform, read_file,
}
use orbita_agent_research_se.Epistemic.Actions.Runtime.{
  run_steps, set_step, claim_problem, check_claims, check_approval, start, run_action, finish,
  receipt, decide, find_step, execute_step, execute_plan, approve, receipt_row, step_ids,
}
use orbita_agent_research_se.Epistemic.Actions.Licensed.{
  IsLicensed, IsMet, execute_step-IsLicensed, execute_step-IsMet,
}
use orbita_agent_research_se.Epistemic.Actions.Raised.{IsRunning, execute_step-IsRunning}
use orbita_agent_research_se.Epistemic.Actions.Confined.{AreKept}
use orbita_agent_research_se.Epistemic.Actions.Plans.{
  Course, HasStatus, execute_plan-AreKept, execute_plan-Course,
}
use orbita_agent_research_se.Epistemic.Actions.Approvals.{approve-approve}

abbrev text_of : Json → String
text_of (str s) = s
text_of _ = ""

abbrev platform : Platform
platform = record {
  resolve = λ s. s;
  is_within = λ s. not (s == "/etc/passwd");
  is_writable = λ _. true;
  utf8 = λ s. s;
  sha256 = λ s. s;
  str_of = text_of;
}

abbrev write_args : Fields
write_args = field "path" (str "out") (field "text" (str "hi") empty)

abbrev file_there : Fields
file_there = field "type" (str "file_exists") (field "path" (str "out") empty)

abbrev pathless : Fields
pathless = field "type" (str "file_exists") empty

abbrev step : String → Fields → StepRow
step id obligation = record {
  id = id;
  plan_id = "p";
  sequence = 0;
  intent = "write";
  action_type = "write_text";
  args = write_args;
  required_claims = "b" ∷ [];
  obligations = obligation ∷ [];
  risk = RiskLevel.medium;
  status = StepStatus.pending;
  args_hash = "h";
  created_at = "t0";
}

abbrev approval : ApprovalStatus → ApprovalRow
approval status = record {
  id = "apr";
  step_id = "s";
  args_hash = "h";
  status = status;
  approved_by = none;
  created_at = "t0";
  decided_at = none;
}

abbrev state : ApprovalStatus → Fields → State
state status obligation = record {
  plans = (record { id = "p"; goal = "g"; status = PlanStatus.pending; created_at = "t0" }) ∷ [];
  steps = step "s" obligation ∷ [];
  approvals = approval status ∷ [];
  receipts = [];
  files = (record { path = "/etc/passwd"; content = "root" }) ∷ [];
}

abbrev stamp : Stamp
stamp = record { fresh_id = "r"; now = "t1" }

abbrev outputs : Fields
outputs =
    field "path" (str "out") (field "bytes_written" (int (pos 2)) (field "sha256" (str "hi") empty))

abbrev written : ReceiptRow
written =
    receipt_row stamp "s" true outputs ((record { obligation = file_there; passed = true }) ∷ [])
      none

abbrev approved_state : State
approved_state = state ApprovalStatus.approved file_there

abbrev run : State → Result ActionError ReceiptRow × State
run s = execute_step default_policy ledger platform stamp "s" s

runtime : Unit {0}
unfolding program execute_step execute_plan run_steps step_ids find_step set_step claim_problem
    check_claims check_approval start run_action finish receipt verify_all verify path_item
    safe_path read_file write_file write_text action_named contains decide approve choose score
    score_all sort_plans comes_first any all distinct sorted
runtime = tt

run_passes : run approved_state ≡ (ok written, (run approved_state).1)
unfolding runtime
run_passes = refl

-- without the approval the status ends as failed, though the runtime set waiting_approval
run_refused :
    (run (state ApprovalStatus.pending file_there)).1.steps
    ≡ record (step "s" file_there) { status = StepStatus.failed } ∷ []
unfolding runtime
run_refused = refl

run_raises :
    run (state ApprovalStatus.approved pathless)
    ≡ (err (missing_key "path"), (run (state ApprovalStatus.approved pathless)).1)
unfolding runtime
run_raises = refl

execute_step-IsMet_example :
    (x : StepRow) × (find_step "s" approved_state.steps ≡ some x)
    × IsLicensed default_policy ledger approved_state x
    × (x.obligations ≢ [])
    × All (IsMet platform outputs (run approved_state).1.files) x.obligations
execute_step-IsMet_example =
    execute_step-IsMet platform default_policy ledger stamp "s" approved_state
      (run approved_state).1 written run_passes refl

execute_step-IsLicensed_example :
    ((run approved_state).1.files ≡ approved_state.files)
    ⊎ (x : StepRow) × (find_step "s" approved_state.steps ≡ some x)
      × IsLicensed default_policy ledger approved_state x
execute_step-IsLicensed_example =
    execute_step-IsLicensed default_policy ledger platform stamp "s" approved_state

execute_step-IsRunning_example :
    ((run (state ApprovalStatus.approved pathless)).1 ≡ state ApprovalStatus.approved pathless)
    ⊎ IsRunning "s"
        (state ApprovalStatus.approved pathless)
        (run (state ApprovalStatus.approved pathless)).1
execute_step-IsRunning_example =
    execute_step-IsRunning platform default_policy ledger stamp "s"
      (state ApprovalStatus.approved pathless) (run (state ApprovalStatus.approved pathless)).1
      (missing_key "path") run_raises

abbrev stamps : ℕ → Stamp
stamps n = stamp

abbrev run_plan : Result ActionError (List ReceiptRow) × State
run_plan = execute_plan default_policy ledger platform stamps "p" approved_state

run_plan-returns : run_plan ≡ (ok (written ∷ []), run_plan.1)
unfolding runtime
run_plan-returns = refl

execute_plan-Course_example :
    (end : PlanStatus) × Course (step_ids "p" approved_state.steps) (written ∷ []) end
    × HasStatus "p" end run_plan.1
execute_plan-Course_example =
    execute_plan-Course platform default_policy ledger stamps "p" approved_state run_plan.1
      (written ∷ []) run_plan-returns

execute_plan-AreKept_example : AreKept platform approved_state.files run_plan.1.files
execute_plan-AreKept_example =
    execute_plan-AreKept platform default_policy ledger stamps "p" approved_state

abbrev waiting : State
waiting = state ApprovalStatus.pending file_there

abbrev decided_state : State
decided_state = (approve "apr" "ann" "t2" waiting).1

approve-returns : approve "apr" "ann" "t2" waiting ≡ (ok tt, decided_state)
unfolding runtime
approve-returns = refl

approve-approve_example : approve "apr" "bob" "t3" decided_state ≡ (err not_pending, decided_state)
approve-approve_example =
    approve-approve "apr" "ann" "t2" "bob" "t3" waiting decided_state approve-returns

abbrev candidate : String → List Fields → CandidatePlan
candidate name obligations = record {
  name = name;
  goal = "g";
  steps =
      (record {
        intent = "write";
        action_type = "write_text";
        args = write_args;
        required_claims = "b" ∷ [];
        obligations = obligations;
        risk = RiskLevel.low;
      })
      ∷ [];
}

abbrev plan_score : String → ℕ → List ℕ → PlanScore
plan_score name total missing = record {
  name = name;
  total = total;
  unsupported_claims = [];
  challenged_claims = [];
  missing_obligations = missing;
  risk_cost = 1;
}

abbrev candidates : List CandidatePlan
candidates = candidate "loose" [] ∷ candidate "tight" (file_there ∷ []) ∷ []

abbrev scores : List PlanScore
scores = plan_score "tight" 1 [] ∷ plan_score "loose" 7 (0 ∷ []) ∷ []

choose_tight :
    choose default_policy ledger candidates ≡ ok (candidate "tight" (file_there ∷ []), scores)
unfolding runtime
choose_tight = refl

choose-IsLess_example :
    (s : PlanScore) × Memᴰ (candidate "tight" (file_there ∷ [])) candidates
    × (score default_policy ledger (candidate "tight" (file_there ∷ [])) ≡ ok s)
    × All
        (λ (p : CandidatePlan).
          (t : PlanScore) × (score default_policy ledger p ≡ ok t)
          × IsLess (candidate "tight" (file_there ∷ []), s) (p, t))
        candidates
choose-IsLess_example =
    choose-IsLess default_policy ledger candidates (candidate "tight" (file_there ∷ [])) scores
      choose_tight
