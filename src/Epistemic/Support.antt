-- ===== src/Epistemic/Support.antt =====
-- src/orbita/support.py, `SupportEngine`: what currently supports a claim. All premises of one
-- proof must hold, and any proof is enough. The memo and the stack are explicit; the recursion is
-- on fuel, and a call passes itself, with less fuel, to the loops over proofs and premises.
pub mod Warrant
pub mod Total
use orbita_agent_research_se.Base.{
  ℕ, zero, suc, String, List, [], ◌∷◌, ◌++◌, map, Bool, true, false, not, ◌&&◌, ◌||◌, Option, none,
  some, Result, ok, err, ◌>>=◌, ◌==◌, elem, any, filter, find, is_empty, distinct, length, leb,
  if◌then◌else◌,
}
use orbita_agent_research_se.Base.Texts.{sorted}
use orbita_agent_research_se.Epistemic.Models.{
  SupportState, Stance, is_support, EvidenceKind, has_kind, is_warranted, is_withdrawn,
  status_value,
}
use orbita_agent_research_se.Epistemic.Policy.{CommitPolicy}
use orbita_agent_research_se.Epistemic.Tables.{
  Claim, Evidence, Attestation, Proof, ProofPremise, Contradiction, Db,
}
use orbita_agent_research_se.Epistemic.Ledger.{LedgerError, unknown_claim, out_of_fuel}
use Prim.Native.String

pub record SupportReport : Type 0 where
  pub claim_id : String
  pub state : SupportState
  pub direct_support_sources : List String
  pub direct_refute_sources : List String
  pub satisfied_proofs : List String
  pub broken_proofs : List (String × List String)
  pub contradictions : List String
  pub reasons : List String

abbrev pub Memo : Type 0
Memo = List (String × SupportReport)

-- `memo[claim_id]`
unfoldable pub recall : Memo → String → Option SupportReport
recall [] c = none
recall ((k, r) ∷ memo) c = if k == c then some r else recall memo c

-- `memo[claim_id] = report`
abbrev pub remember : String → SupportReport → Memo → Memo
remember c r memo = (c, r) ∷ memo

-- the columns that the join of attestations and evidence selects
pub record SupportRow : Type 0 where
  pub stance : Stance
  pub independence_key : String
  pub source_kind : EvidenceKind
  pub active : Bool

join_evidence : List Evidence → List Attestation → List SupportRow
join_evidence es [] = []
join_evidence es (a ∷ rest) =
    let rows = join_evidence es rest in
    elim (find (λ (e : Evidence). e.id == a.evidence_id) es) [
      | none ↦ rows
      | some e ↦
          record {
            stance = a.stance;
            independence_key = e.independence_key;
            source_kind = e.source_kind;
            active = e.active;
          }
          ∷ rows
    ]

unfoldable pub support_rows : Db → String → List SupportRow
unfolding join_evidence
support_rows db c =
    join_evidence db.evidence (filter (λ (a : Attestation). a.claim_id == c) db.attestations)

module _ (policy : CommitPolicy) where
  -- the rows that the loop does not skip
  abbrev pub counts : SupportRow → Bool
  counts row = row.active && not (has_kind row.source_kind policy.non_warrant_source_kinds)

  -- the keys of `support_by_key` and of `refute_by_key`
  unfoldable pub support_keys : List SupportRow → List String
  support_keys rows = distinct (
      map (λ (r : SupportRow). r.independence_key)
        (filter (λ (r : SupportRow). counts r && is_support r.stance) rows))

  unfoldable pub refute_keys : List SupportRow → List String
  refute_keys rows = distinct (
      map (λ (r : SupportRow). r.independence_key)
        (filter (λ (r : SupportRow). counts r && not (is_support r.stance)) rows))

  unfoldable pub strong_support : List SupportRow → Bool
  strong_support rows =
      any
        (λ (r : SupportRow).
          counts r
          && is_support r.stance
          && has_kind r.source_kind policy.strong_single_source_kinds)
        rows

  unfoldable pub direct_supported : Db → String → Bool
  unfolding support_rows support_keys strong_support
  direct_supported db c =
      let rows = support_rows db c in
      leb policy.min_independent_sources (length (support_keys rows)) || strong_support rows

unfoldable pub active_proofs : Db → String → List Proof
active_proofs db c = filter (λ (p : Proof). p.conclusion_claim_id == c && p.active) db.proofs

insert_row : ProofPremise → List ProofPremise → List ProofPremise
insert_row r [] = r ∷ []
insert_row r (s ∷ rows) =
    let rest = insert_row r rows in if leb r.position s.position then r ∷ s ∷ rows else s ∷ rest

-- `ORDER BY position`
by_position : List ProofPremise → List ProofPremise
unfolding insert_row
by_position [] = []
by_position (r ∷ rows) = insert_row r (by_position rows)

unfoldable pub premises_of : Db → String → List String
unfolding by_position
premises_of db proof_id =
    map (λ (r : ProofPremise). r.premise_claim_id)
      (by_position (filter (λ (r : ProofPremise). r.proof_id == proof_id) db.proof_premises))

-- the other side of each active contradiction that names the claim
unfoldable pub opposing_claims : Db → String → List String
opposing_claims db c =
    map (λ (k : Contradiction). if k.claim_a == c then k.claim_b else k.claim_a)
      (filter (λ (k : Contradiction). k.active && (k.claim_a == c || k.claim_b == c))
        db.contradictions)

abbrev pub Eval : Type 0
Eval = String → Memo → Result LedgerError (SupportReport × Memo)

-- the loop over the premises of one proof: those that lack warrant
unfoldable pub check_premises : Eval → List String → Memo → Result LedgerError (List String × Memo)
check_premises eval [] memo = ok ([], memo)
check_premises eval (q ∷ qs) memo = do
  (report, memo1) ← eval q memo
  (missing, memo2) ← check_premises eval qs memo1
  ok (if is_warranted report.state then missing else q ∷ missing, memo2)

pub record ProofCheck : Type 0 where
  pub satisfied : List String
  pub broken : List (String × List String)

abbrev pub file_proof : String → List String → ProofCheck → ProofCheck
file_proof id [] checks = record checks { satisfied = id ∷ checks.satisfied }
file_proof id (q ∷ missing) checks = record checks { broken = (id, q ∷ missing) ∷ checks.broken }

-- the loop over the proofs
unfoldable pub check_proofs : Db → Eval → List Proof → Memo → Result LedgerError (ProofCheck × Memo)
check_proofs db eval [] memo = ok (record { satisfied = []; broken = [] }, memo)
check_proofs db eval (p ∷ ps) memo = do
  (missing, memo1) ← check_premises eval (premises_of db p.id) memo
  (checks, memo2) ← check_proofs db eval ps memo1
  ok (file_proof p.id missing checks, memo2)

-- the loop over the contradictions
unfoldable pub check_contradictions :
    Eval → List String → List String → Memo → Result LedgerError (List String × Memo)
check_contradictions eval stack [] memo = ok ([], memo)
check_contradictions eval stack (other ∷ others) memo =
    let skipped = check_contradictions eval stack others memo in
    let evaluated : Result LedgerError (List String × Memo) = (do
      (report, memo1) ← eval other memo
      (rest, memo2) ← check_contradictions eval stack others memo1
      ok (if is_warranted report.state then other ∷ rest else rest, memo2)) in
    if elem other stack then skipped else evaluated

unfoldable pub support_state : (has_support has_refutation : Bool) → SupportState
support_state true true = SupportState.challenged
support_state true false = SupportState.supported
support_state false true = SupportState.unsupported
support_state false false = SupportState.unknown

abbrev reason_if : Bool → String → List String
reason_if b text = if b then text ∷ [] else []

abbrev or_default : List String → List String
or_default [] = "No active evidence or complete proof supports this claim" ∷ []
or_default (r ∷ rs) = r ∷ rs

unfoldable pub unsupported_report : String → String → SupportReport
unsupported_report c reason = record {
  claim_id = c;
  state = SupportState.unsupported;
  direct_support_sources = [];
  direct_refute_sources = [];
  satisfied_proofs = [];
  broken_proofs = [];
  contradictions = [];
  reasons = reason ∷ [];
}

-- the report at the end of `_evaluate`
unfoldable pub final_report : CommitPolicy → Db → String → ProofCheck → List String → SupportReport
unfolding support_state
final_report policy db c checks conflicts =
    let rows = support_rows db c in
    let direct = direct_supported policy db c in
    let refuting = refute_keys policy rows in
    record {
      claim_id = c;
      state =
          support_state (direct || not (is_empty checks.satisfied))
            (not (is_empty refuting) || not (is_empty conflicts));
      direct_support_sources = sorted (support_keys policy rows);
      direct_refute_sources = sorted refuting;
      satisfied_proofs = checks.satisfied;
      broken_proofs = checks.broken;
      contradictions = conflicts;
      reasons = or_default (
          reason_if direct "Direct evidence meets the current support policy"
          ++ reason_if (not (is_empty checks.satisfied))
              "At least one complete proof set is satisfied"
          ++ reason_if (not (is_empty checks.broken)) "One or more proof sets have missing premises"
          ++ reason_if (not (is_empty refuting)) "Active refuting evidence exists"
          ++ reason_if (not (is_empty conflicts))
              "An actively supported contradictory claim exists");
    }

abbrev pub find_claim : Db → String → Option Claim
find_claim db c = find (λ (row : Claim). row.id == c) db.claims

-- `get_claim`, but for the columns that a relation claim adds
unfoldable pub get_claim : Db → String → Result LedgerError Claim
get_claim db c = elim (find_claim db c) [ none ↦ err (unknown_claim c) | some claim ↦ ok claim ]

-- the rest of `_evaluate` behind the tests on memo, stack and status
unfoldable pub weigh :
    CommitPolicy
    → Db
    → Eval
    → List String
    → String
    → Memo
    → Result LedgerError (SupportReport × Memo)
weigh policy db eval stack c memo = do
  (checks, memo1) ← check_proofs db eval (active_proofs db c) memo
  (conflicts, memo2) ← check_contradictions eval stack (opposing_claims db c) memo1
  let report = final_report policy db c checks conflicts
  ok (report, remember c report memo2)

unfoldable pub visit :
    CommitPolicy
    → Db
    → Eval
    → List String
    → String
    → Memo
    → Result LedgerError (SupportReport × Memo)
visit policy db eval stack c memo = do
  claim ← get_claim db c
  let withdrawn =
      unsupported_report c (Prim.Native.String.◌++◌ "Claim status is " (status_value claim.status))
  if is_withdrawn claim.status
      then ok (withdrawn, remember c withdrawn memo)
      else weigh policy db eval stack c memo

-- `if claim_id in memo: return memo[claim_id]`
abbrev pub or_recalled :
    Option SupportReport
    → Memo
    → Result LedgerError (SupportReport × Memo)
    → Result LedgerError (SupportReport × Memo)
or_recalled (some report) memo rest = ok (report, memo)
or_recalled none memo rest = rest

-- `_evaluate`
unfoldable pub evaluate_from :
    ℕ → CommitPolicy → Db → String → Memo → List String → Result LedgerError (SupportReport × Memo)
evaluate_from zero policy db c memo stack = err out_of_fuel
evaluate_from (suc fuel) policy db c memo stack =
    let cyclic = unsupported_report c "Cyclic derivation detected" in
    let visited =
      visit policy db (λ q m. evaluate_from fuel policy db q m (stack ++ c ∷ [])) stack c memo in
    let fresh = if elem c stack then ok (cyclic, remember c cyclic memo) else visited in
    or_recalled (recall memo c) memo fresh

-- A call that goes on has one more claim on the stack.
abbrev pub support_fuel : Db → ℕ
support_fuel db = suc (length db.claims)

unfoldable pub evaluate : CommitPolicy → Db → String → Result LedgerError SupportReport
evaluate policy db c = do
  (report, memo) ← evaluate_from (support_fuel db) policy db c [] []
  ok report

evaluate_each :
    CommitPolicy → Db → List String → Memo → Result LedgerError (List (String × SupportReport))
evaluate_each policy db [] memo = ok []
evaluate_each policy db (c ∷ cs) memo = do
  (report, memo1) ← evaluate_from (support_fuel db) policy db c memo []
  rest ← evaluate_each policy db cs memo1
  ok ((c, report) ∷ rest)

-- one memo for all
unfoldable pub evaluate_many :
    CommitPolicy → Db → List String → Result LedgerError (List (String × SupportReport))
unfolding evaluate_each
evaluate_many policy db claim_ids = evaluate_each policy db claim_ids []
