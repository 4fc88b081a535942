-- ===== src/Epistemic/Commit/Gate.antt =====
-- What has to hold for `commit_claim` to go through.
use orbita_agent_research_se.Base.{
  String, Bool, true, false, Option, some, ok, err, >>=-eq-ok, ◌≡◌, ◌⊎◌, inl, inr, length, arith,
  Bool-cases, Option-cases, ◌↔◌, ap,
}
use orbita_agent_research_se.Base.Json.{ℤ, get_truthy, to_int, count_lt}
use orbita_agent_research_se.Epistemic.Models.{is_warranted}
use orbita_agent_research_se.Epistemic.Policy.{CommitPolicy, actor_can_commit}
use orbita_agent_research_se.Epistemic.Tables.{Claim, Db}
use orbita_agent_research_se.Epistemic.Ledger.{Env, Actor}
use orbita_agent_research_se.Epistemic.Support.{SupportReport, get_claim, evaluate}
use orbita_agent_research_se.Epistemic.Support.Warrant.{Warranted, evaluate-Warranted}
use orbita_agent_research_se.Epistemic.Commit.{
  warranting_keys, minimum_value, check_replication, check_support, check_commit, commit_claim,
  not_supported, cannot_commit, bad_minimum, committed_db,
}

module _ (parse_int : String → Option ℤ) (policy : CommitPolicy) where
  -- `claim` has the independent sources that its metadata ask for
  abbrev pub HasSources : Db → String → Claim → Type 0
  HasSources db c claim =
      (minimum : ℤ) × (to_int parse_int (minimum_value claim.metadata) ≡ some minimum)
      × (count_lt (length (warranting_keys policy db c)) minimum ≡ false)

  -- The replication that the claim asks for, if it asks for one, is there.
  abbrev pub IsReplicated : Db → String → Claim → Type 0
  IsReplicated db c claim =
      get_truthy claim.metadata "requires_independent_replication" ≡ true → HasSources db c claim

  -- the engine's report on the claim
  abbrev pub IsReported : Db → String → Type 0
  IsReported db c =
      (r : SupportReport) × (evaluate policy db c ≡ ok r) × (is_warranted r.state ≡ true)

  -- what `commit_claim` demands
  pub record Gate (by : Actor) (c : String) (override : Bool) (db : Db) : Type 0 where
    pub claim : Claim
    pub found : get_claim db c ≡ ok claim
    pub allowed : actor_can_commit policy by.role claim.claim_type ≡ true
    pub grounds : (override ≡ true) ⊎ IsReported db c × IsReplicated db c claim

  check_replication-ok :
      (c : String) (claim : Claim) (db : Db)
      → check_replication parse_int policy c claim db ≡ ok tt
      → HasSources db c claim
  unfolding check_replication
  check_replication-ok c claim db h =
      elim (Option-cases (to_int parse_int (minimum_value claim.metadata))) [
        | inl raised ↦ let refused : err bad_minimum ≡ ok tt = rw raised at h in cc
        | inr (minimum, parsed) ↦ (minimum, parsed, ground (arith, h, parsed))
      ]

  check_replication-HasSources :
      (c : String) (claim : Claim) (db : Db)
      → HasSources db c claim
      → check_replication parse_int policy c claim db ≡ ok tt
  unfolding check_replication
  check_replication-HasSources c claim db (minimum, parsed, enough) = rw (parsed, enough)

  check_support-ok :
      (c : String) (claim : Claim) (db : Db)
      → check_support parse_int policy c claim db ≡ ok tt
      → IsReported db c × IsReplicated db c claim
  unfolding check_support
  check_support-ok c claim db h =
      let (report, evaluated, h1) = >>=-eq-ok (evaluate policy db c) _ h in
      elim (Bool-cases (is_warranted report.state)) [
        | inr unwarranted ↦
            let refused : err (not_supported report.reasons) ≡ ok tt = rw unwarranted at h1 in cc
        | inl warranted ↦ (
          (report, evaluated, warranted),
          λ asked. check_replication-ok c claim db (rw (warranted, asked) at h1),
        )
      ]

  check_support-both :
      (c : String) (claim : Claim) (db : Db)
      → IsReported db c
      → IsReplicated db c claim
      → check_support parse_int policy c claim db ≡ ok tt
  unfolding check_support
  check_support-both c claim db (report, evaluated, warranted) replicated =
      elim (Bool-cases (get_truthy claim.metadata "requires_independent_replication")) [
        | inl asked ↦
            rw (evaluated, warranted, asked)
              (check_replication-HasSources c claim db (replicated asked))
        | inr free ↦ rw (evaluated, warranted, free)
      ]

  check_commit-Gate :
      (by : Actor) (c : String) (override : Bool) (db : Db)
      → check_commit parse_int policy by c override db ≡ ok tt
      → Gate by c override db
  unfolding check_commit
  check_commit-Gate by c override db h =
      let (claim, found, h1) = >>=-eq-ok (get_claim db c) _ h in
      elim (Bool-cases (actor_can_commit policy by.role claim.claim_type)) [
        | inr refused ↦
            let raised : err (cannot_commit by.role claim.claim_type) ≡ ok tt = rw refused at h1 in
            cc
        | inl allowed ↦ record {
          claim = claim;
          found = found;
          allowed = allowed;
          grounds = elim (Bool-cases override) [
            | inl forced ↦ inl forced
            | inr free ↦ inr (check_support-ok c claim db (rw (allowed, free) at h1))
          ];
        }
      ]

  Gate-check_commit :
      (by : Actor) (c : String) (override : Bool) (db : Db)
      → Gate by c override db
      → check_commit parse_int policy by c override db ≡ ok tt
  unfolding check_commit
  Gate-check_commit by c override db g = elim g.grounds [
    | inl forced ↦ rw (g.found, g.allowed, forced)
    | inr (reported, replicated) ↦ elim (Bool-cases override) [
      | inl forced ↦ rw (g.found, g.allowed, forced)
      | inr free ↦
          rw (g.found, g.allowed, free) (check_support-both c g.claim db reported replicated)
    ]
  ]

  -- A commit goes through exactly when the claim is in the ledger, the policy lets the actor commit
  -- claims of its type, and either the override is set, or the engine reports the claim as supported
  -- or challenged and the replication that its metadata ask for is there. It then writes
  -- `committed_db`.
  pub commit_claim-Gate :
      (env : Env) (by : Actor) (c rationale : String) (override : Bool) (db db' : Db)
      → (commit_claim parse_int policy env by c rationale override db ≡ ok db') ↔ (
          Gate by c override db
          × (committed_db parse_int policy env by c rationale override db ≡ db'))
  unfolding commit_claim
  commit_claim-Gate env by c rationale override db db' = (
    λ h.
        let (u, checked, h1) = >>=-eq-ok (check_commit parse_int policy by c override db) _ h in
        (check_commit-Gate by c override db checked, cc),
    λ (g, same). rw (Gate-check_commit by c override db g) (ap ok same),
  )

  -- Without the override only a warranted claim is committed, and only by an actor whom the policy
  -- lets commit it.
  pub commit_claim-Warranted :
      (env : Env) (by : Actor) (c rationale : String) (db db' : Db)
      → commit_claim parse_int policy env by c rationale false db ≡ ok db'
      → Warranted policy db c
        × (claim : Claim) × (get_claim db c ≡ ok claim)
        × (actor_can_commit policy by.role claim.claim_type ≡ true)
  commit_claim-Warranted env by c rationale db db' h =
      let g : Gate by c false db = ((commit_claim-Gate env by c rationale false db db').0 h).0 in
      elim g.grounds [
        | inl forced ↦ absurd (cc)
        | inr ((r, evaluated, warranted), replicated) ↦
            (evaluate-Warranted policy db c r evaluated warranted, g.claim, g.found, g.allowed)
      ]
