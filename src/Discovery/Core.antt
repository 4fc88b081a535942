-- ===== src/Discovery/Core.antt =====
-- src/orbita_discovery/core.py: the status of a finding, the engine's loop and the survivors.
-- `Score` is Python's float with `greater`, its `>`; payloads and details are JSON values, and of a
-- falsification's detail the engine reads only the key "unscorable".
pub mod Outcome
use orbita_agent_research_se.Base.{
  ℕ, String, List, [], ◌∷◌, ◌++◌, map, Bool, true, false, not, ◌&&◌, ◌||◌, ◌==◌, any, all, filter,
  if◌then◌else◌,
}
use orbita_agent_research_se.Base.Json.{Fields, get_truthy}

pub data Status : Type 0 where
  unscorable refuted unknown provisional challenged supported : Status

pub record Candidate : Type 0 where
  pub id : String
  pub statement : String
  pub payload : Fields
  pub parents : List String

pub record Verdict (Score : Type 0) : Type 0 where
  pub status : Status
  pub score : Score
  pub detail : Fields

pub record Falsification (Score : Type 0) : Type 0 where
  pub name : String
  pub killed : Bool
  pub metric : Score
  pub detail : Fields

pub record Finding (Score : Type 0) : Type 0 where
  pub candidate : Candidate
  pub verdict : Verdict Score
  pub falsifications : List (Falsification Score)
  pub final_status : Status
  pub survived : List String
  pub sha256 : String
  pub prev : String
  pub ts : ℕ

-- `accepted` in `survivors`
abbrev pub is_accepted : Status → Bool
is_accepted Status.supported = true
is_accepted Status.challenged = true
is_accepted Status.provisional = true
is_accepted _ = false

module _ {Score : Type 0} where
  unfoldable pub is_unscorable : Falsification Score → Bool
  is_unscorable x = get_truthy x.detail "unscorable"

  -- the attacks that were carried out and did not kill
  abbrev pub withstood : Falsification Score → Bool
  withstood x = not x.killed && not (is_unscorable x)

  unfoldable pub survived_names : List (Falsification Score) → List String
  survived_names attacks = map (λ (x : Falsification Score). x.name) (filter withstood attacks)

  unfoldable pub resolve_status : Verdict Score → List (Falsification Score) → Status × List String
  resolve_status verdict falsifications =
      let survived = survived_names falsifications in
      if any is_unscorable falsifications
      then (Status.unscorable, survived)
      else if any (λ (x : Falsification Score). x.killed) falsifications
      then (Status.refuted, survived)
      else (verdict.status, survived)

  unfoldable pub is_survivor : Finding Score → Bool
  is_survivor f =
      is_accepted f.final_status && all (λ (x : Falsification Score). not x.killed) f.falsifications

  insert_finding :
      (Score → Score → Bool) → Finding Score → List (Finding Score) → List (Finding Score)
  insert_finding greater f [] = f ∷ []
  insert_finding greater f (g ∷ gs) =
      let rest = insert_finding greater f gs in
      if greater g.verdict.score f.verdict.score then g ∷ rest else f ∷ g ∷ gs

  -- `sorted(out, key=score, reverse=True)`: stable, the greatest score first
  unfoldable pub by_score : (Score → Score → Bool) → List (Finding Score) → List (Finding Score)
  unfolding insert_finding
  by_score greater [] = []
  by_score greater (f ∷ fs) = insert_finding greater f (by_score greater fs)

  unfoldable pub survivors : (Score → Score → Bool) → List (Finding Score) → List (Finding Score)
  unfolding by_score
  survivors greater entries = by_score greater (filter is_survivor entries)

  -- what `run` makes of one candidate: the judge's verdict and one attack for each falsifier
  module _ {Evidence : Type 0} (evidence_for : Candidate → Evidence)
      (judge : Candidate → Evidence → Verdict Score)
      (falsifiers : List (Candidate → Evidence → Falsification Score)) where
    unfoldable pub examine : Candidate → Finding Score
    unfolding resolve_status
    examine candidate =
        let evidence = evidence_for candidate in
        let verdict = judge candidate evidence in
        let attacks = map (λ attack. attack candidate evidence) falsifiers in
        let (final_status, survived) = resolve_status verdict attacks in
        record {
          candidate = candidate;
          verdict = verdict;
          falsifications = attacks;
          final_status = final_status;
          survived = survived;
          sha256 = "";
          prev = "";
          ts = 0;
        }
