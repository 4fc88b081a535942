-- ===== src/Epistemic/Commit.antt =====
-- src/orbita/ledger.py, `commit_claim`.
pub mod Gate
use orbita_agent_research_se.Base.{
  ℕ, String, List, [], ◌∷◌, map, Bool, true, false, not, ◌&&◌, Option, none, some, Result, ok, err,
  ◌>>=◌, ◌>>◌, guard, raise_if, ◌==◌, filter, distinct, length, if◌then◌else◌,
}
use orbita_agent_research_se.Base.Json.{
  ℤ, pos, Json, str, bool, int, Fields, empty, field, get, get_truthy, to_int, count_lt,
}
use orbita_agent_research_se.Epistemic.Models.{ClaimStatus, is_support, has_kind, is_warranted}
use orbita_agent_research_se.Epistemic.Policy.{CommitPolicy, actor_can_commit}
use orbita_agent_research_se.Epistemic.Tables.{Claim, Db}
use orbita_agent_research_se.Epistemic.Ledger.{
  LedgerError, cannot_commit, not_supported, needs_replication, bad_minimum, Env, Actor,
  insert_event, update_status,
}
use orbita_agent_research_se.Epistemic.Support.{
  SupportReport, SupportRow, support_rows, get_claim, evaluate,
}

-- `SELECT DISTINCT ... WHERE a.stance = 'support' AND e.active = 1`, then the set of `warranting`
unfoldable pub warranting_keys : CommitPolicy → Db → String → List String
warranting_keys policy db c =
    let rows = filter (λ (r : SupportRow). is_support r.stance && r.active) (support_rows db c) in
    distinct (
      map (λ (r : SupportRow). r.independence_key)
        (filter (λ (r : SupportRow). not (has_kind r.source_kind policy.non_warrant_source_kinds))
          rows))

-- `metadata.get("replication_min_independent_sources", 2)`
abbrev pub minimum_value : Fields → Json
minimum_value metadata = elim (get metadata "replication_min_independent_sources") [
  | none ↦ int (pos 2)
  | some v ↦ v
]

module _ (parse_int : String → Option ℤ) (policy : CommitPolicy) where
  abbrev pub minimum_or_raise : Option ℤ → Result LedgerError ℤ
  minimum_or_raise none = err bad_minimum
  minimum_or_raise (some i) = ok i

  unfoldable pub check_replication : String → Claim → Db → Result LedgerError (Unit {0})
  check_replication claim_id claim db = do
    minimum ← minimum_or_raise (to_int parse_int (minimum_value claim.metadata))
    let found = length (warranting_keys policy db claim_id)
    raise_if (count_lt found minimum) (needs_replication found minimum)

  unfoldable pub check_support : String → Claim → Db → Result LedgerError (Unit {0})
  check_support claim_id claim db = do
    report ← evaluate policy db claim_id
    guard (is_warranted report.state) (not_supported report.reasons)
    if get_truthy claim.metadata "requires_independent_replication"
        then check_replication claim_id claim db
        else ok tt

  unfoldable pub check_commit : Actor → String → Bool → Db → Result LedgerError (Unit {0})
  check_commit by claim_id override db = do
    claim ← get_claim db claim_id
    guard (actor_can_commit policy by.role claim.claim_type)
        (cannot_commit by.role claim.claim_type)
    if override then ok tt else check_support claim_id claim db

  -- the database as a commit leaves it
  unfoldable pub committed_db : Env → Actor → String → String → Bool → Db → Db
  unfolding insert_event
  committed_db env by claim_id rationale override db =
      insert_event "claim" claim_id "CLAIM_COMMITTED"
        (field "rationale" (str rationale) (field "override" (bool override) empty)) by
        (env.clock 1)
        (record db {
          claims = update_status claim_id ClaimStatus.committed (env.clock 0) db.claims;
        })

  unfoldable pub commit_claim : Env → Actor → String → String → Bool → Db → Result LedgerError Db
  unfolding check_commit committed_db
  commit_claim env by claim_id rationale override db = do
    check_commit by claim_id override db
    ok (committed_db env by claim_id rationale override db)
