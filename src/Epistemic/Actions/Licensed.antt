-- ===== src/Epistemic/Actions/Licensed.antt =====
-- src/orbita/actions.py: what stands behind a step that ran, and behind a receipt that passed.
use orbita_agent_research_se.Base.{
  all, subst, String, List, [], ◌∷◌, Bool, true, false, not, ◌&&◌, any, is_empty, none, some,
  Result, ok, Result-cases, >>=-eq-ok, Bool-cases, ◌≡◌, ◌≢◌, refl, sym, ap, ◌∙◌, ◌⊎◌, inl, inr,
  arith, ok-result, All, Memᴰ, eq_iff,
}
use orbita_agent_research_se.Base.Json.{Fields}
use orbita_agent_research_se.Epistemic.Models.{is_warranted}
use orbita_agent_research_se.Epistemic.Policy.{CommitPolicy}
use orbita_agent_research_se.Epistemic.Tables.{Db}
use orbita_agent_research_se.Epistemic.Support.{evaluate}
use orbita_agent_research_se.Epistemic.Support.Warrant.{Warranted, evaluate-Warranted}
use orbita_agent_research_se.Epistemic.Models.{RiskLevel}
use orbita_agent_research_se.Epistemic.Actions.{
  ActionError, Check, ApprovalStatus, ApprovalRow, StepRow, ReceiptRow, File, State, Stamp,
}
use orbita_agent_research_se.Epistemic.Actions.Files.{
  Platform, Action, result_or_raised, verify, verify_all,
}
use orbita_agent_research_se.Epistemic.Actions.Runtime.{
  find_step, is_risky, is_approved, approves, lacks_approval, claim_problem, run_action,
  execute_step, finish, receipt, final_receipt, all_passed,
}
use orbita_agent_research_se.Epistemic.Actions.Runs.{IsRun, execute_step-cases}

-- an approved approval of the step for exactly these arguments
abbrev pub IsApproved : State → StepRow → Type 0
IsApproved s step =
    (a : ApprovalRow) × Memᴰ a s.approvals
    × (a.step_id ≡ step.id)
    × (a.args_hash ≡ step.args_hash)
    × (a.status ≡ ApprovalStatus.approved)

-- Every required claim has a derivation from evidence, and a step that is risky is approved.
pub record IsLicensed (policy : CommitPolicy) (db : Db) (s : State) (step : StepRow) : Type 0 where
  pub claims : All (Warranted policy db) step.required_claims
  pub approval : (step.risk ≡ RiskLevel.low) ⊎ IsApproved s step

approved_status : (t : ApprovalStatus) → is_approved t ≡ true → t ≡ ApprovalStatus.approved
approved_status ApprovalStatus.pending h = absurd (ground arith)
approved_status ApprovalStatus.approved h = refl

low_or_true :
    (r : RiskLevel) (b : Bool) → (is_risky r && not b) ≡ false → (r ≡ RiskLevel.low) ⊎ (b ≡ true)
low_or_true RiskLevel.low b h = inl refl
low_or_true RiskLevel.medium b h = inr (ground arith)
low_or_true RiskLevel.high b h = inr (ground arith)

any-IsApproved :
    (id hash : String) (rows : List ApprovalRow)
    → any (approves id hash) rows ≡ true
    → (a : ApprovalRow) × Memᴰ a rows
      × (a.step_id ≡ id)
      × (a.args_hash ≡ hash)
      × (a.status ≡ ApprovalStatus.approved)
unfolding any
any-IsApproved id hash [] h = absurd (cc h)
any-IsApproved id hash (a ∷ rows) h = elim (Bool-cases (approves id hash a)) [
  | inl holds ↦ (
    a,
    Memᴰ.head refl,
    ground (arith, eq_iff a.step_id id),
    ground (arith, eq_iff a.args_hash hash),
    approved_status a.status (ground arith),
  )
  | inr other ↦
      let (b, m, one, same, done) = any-IsApproved id hash rows (ground arith) in
      (b, Memᴰ.tail m, one, same, done)
]

lacks_approval-IsApproved :
    (step : StepRow) (s : State)
    → lacks_approval step s ≡ false
    → (step.risk ≡ RiskLevel.low) ⊎ IsApproved s step
lacks_approval-IsApproved step s h =
    elim (low_or_true step.risk (any (approves step.id step.args_hash) s.approvals) h) [
      | inl calm ↦ inl calm
      | inr holds ↦ inr (any-IsApproved step.id step.args_hash s.approvals holds)
    ]

module _ (policy : CommitPolicy) (db : Db) where
  claim_problem-Warranted :
      (cs : List String) → claim_problem policy db cs ≡ ok none → All (Warranted policy db) cs
  unfolding claim_problem
  claim_problem-Warranted [] h = tt
  claim_problem-Warranted (c ∷ cs) h =
      let (report, e, h1) = >>=-eq-ok (evaluate policy db c) _ h in
      elim (Bool-cases (is_warranted report.state)) [
        | inl holds ↦ (
          evaluate-Warranted policy db c report e holds,
          claim_problem-Warranted cs (ground arith),
        )
        | inr other ↦ absurd (ground arith)
      ]

  module _ (os : Platform) where
    IsRun-IsLicensed :
        (stamp : Stamp) (id : String) (s : State) (ran : IsRun policy db os stamp id s)
        → IsLicensed policy db s ran.step
    IsRun-IsLicensed stamp id s ran = record {
      claims = claim_problem-Warranted ran.step.required_claims ran.warranted;
      approval = lacks_approval-IsApproved ran.step s ran.admitted;
    }

    -- A step leaves every file as it was, unless each claim that it requires has a derivation from
    -- evidence and it is of low risk or approved for exactly its arguments.
    pub execute_step-IsLicensed :
        (stamp : Stamp) (id : String) (s : State)
        → ((execute_step policy db os stamp id s).1.files ≡ s.files)
          ⊎ (step : StepRow) × (find_step id s.steps ≡ some step) × IsLicensed policy db s step
    execute_step-IsLicensed stamp id s = elim (execute_step-cases policy db os stamp id s) [
      | inl idle ↦ inl idle.files
      | inr ran ↦ inr (ran.step, ran.found, IsRun-IsLicensed stamp id s ran)
    ]

module _ (os : Platform) where
  -- the obligation holds of the outputs and the files
  abbrev pub IsMet : (outputs : Fields) → List File → Fields → Type 0
  IsMet outputs files o = (c : Check) × (verify os o outputs files ≡ ok c) × (c.passed ≡ true)

  verify_all-IsMet :
      (obligations : List Fields) (outputs : Fields) (files : List File) (checks : List Check)
      → verify_all os obligations outputs files ≡ ok checks
      → all_passed checks ≡ true
      → All (IsMet outputs files) obligations
  unfolding verify_all all
  verify_all-IsMet [] outputs files checks h p = tt
  verify_all-IsMet (o ∷ rest) outputs files checks h p =
      let (c, e, h1) = >>=-eq-ok (verify os o outputs files) _ h in
      let (cs, es, h2) = >>=-eq-ok (verify_all os rest outputs files) _ h1 in
      let both : (c.passed && all_passed cs) ≡ true = ap all_passed (ok-result h2) ∙ p in
      ((c, e, ground arith), verify_all-IsMet rest outputs files cs es (ground arith))

  receipt-row :
      (row r : ReceiptRow) (s t : State)
      → receipt row s ≡ (ok r, t)
      → (row ≡ r) × (s.files ≡ t.files)
  unfolding receipt
  receipt-row row r s t h = (
    ok-result (ap (λ (x : Result ActionError ReceiptRow × State). x.0) h),
    ap (λ (x : Result ActionError ReceiptRow × State). x.1.files) h,
  )

  run_action-IsMet :
      (stamp : Stamp) (step : StepRow) (action : Action) (s t : State) (r : ReceiptRow)
      → run_action os stamp step action s ≡ (ok r, t)
      → r.passed ≡ true
      → (step.obligations ≢ []) × All (IsMet r.outputs t.files) step.obligations
  unfolding run_action finish receipt
  run_action-IsMet stamp step action s t r h p =
      let x = result_or_raised os s.files (action step.args s.files) in
      elim (Result-cases (verify_all os step.obligations x.0.outputs x.1)) [
        | inl (checks, e) ↦
            let same =
              subst (λ v. finish os stamp step x.0 v (record s { files = x.1 }) ≡ (ok r, t)) e h in
            let (row, left) =
              receipt-row (final_receipt stamp step x.0 checks) r (record s { files = x.1 }) t
                same in
            let passed : (final_receipt stamp step x.0 checks).passed ≡ true =
              ap (λ (q : ReceiptRow). q.passed) row ∙ p in
            let met = verify_all-IsMet step.obligations x.0.outputs x.1 checks e (ground arith) in
            (
              λ none_left.
                  absurd (ground (arith, ap (λ (os' : List Fields). is_empty os') none_left)),
              subst (λ (fs : List File). All (IsMet r.outputs fs) step.obligations) left
                  (subst (λ (q : ReceiptRow). All (IsMet q.outputs x.1) step.obligations) row met),
            )
        | inr (e, k) ↦ absurd (
            cc (subst (λ v. finish os stamp step x.0 v (record s { files = x.1 }) ≡ (ok r, t)) k h))
      ]

  -- A receipt that passed is of a step whose required claims have derivations from evidence, which is
  -- of low risk or approved for exactly its arguments, and which has obligations, each met by the
  -- outputs and the files that the step left.
  pub execute_step-IsMet :
      (policy : CommitPolicy) (db : Db) (stamp : Stamp) (id : String) (s t : State) (r : ReceiptRow)
      → execute_step policy db os stamp id s ≡ (ok r, t)
      → r.passed ≡ true
      → (step : StepRow) × (find_step id s.steps ≡ some step)
        × IsLicensed policy db s step
        × (step.obligations ≢ [])
        × All (IsMet r.outputs t.files) step.obligations
  execute_step-IsMet policy db stamp id s t r h p =
      elim (execute_step-cases policy db os stamp id s) [
        | inl idle ↦ absurd (ground (arith, idle.refuses r (ap (λ x. x.0) h)))
        | inr ran ↦
            let met = run_action-IsMet stamp ran.step ran.action _ t r (sym ran.run ∙ h) p in
            (ran.step, ran.found, IsRun-IsLicensed policy db os stamp id s ran, met.0, met.1)
      ]
