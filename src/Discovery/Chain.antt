-- ===== src/Discovery/Chain.antt =====
-- src/orbita_discovery/core.py: the append-only `Ledger`, `Engine.run` and `verify_ledger`. A file
-- is the list of its lines, a line any text, and what is written is JSON that is read again. The
-- type of texts and what the program takes from the libraries `json` and `hashlib` are parameters.
pub mod Entries
pub mod Verified
use mathlib.Core.Option
use orbita_agent_research_se.Base.{
  is_empty, Option, none, some, ℕ, zero, suc, ◌+◌, String, List, [], ◌∷◌, ◌++◌, map, Bool, true,
  false, not, ◌&&◌, ◌||◌, ◌==◌, if◌then◌else◌, Result, ok, err, ◌>>=◌,
}
use orbita_agent_research_se.Base.Canonical.{sort_keys}
use orbita_agent_research_se.Base.Json.{
  Json, null, bool, str, arr, obj, Items, nil, cons, Fields, empty, field, get,
}
use orbita_agent_research_se.Discovery.Core.{
  Candidate, Verdict, Falsification, Status, Finding, examine,
}

-- What is taken from Python: a score and a rounded time as JSON; `json.dumps` of a value whose keys
-- are sorted, with the separators `(",", ":")` and without; `json.loads`, `none` where it raises;
-- `not line.strip()`; the digest of a text; and `==` of two JSON values neither of which is a string.
pub record Formats (Score Text : Type 0) : Type 0 where
  pub number : Score → Json
  pub stamp : ℕ → Json
  pub compact : Json → Text
  pub dumps : Json → Text
  pub loads : Text → Option Json
  pub is_blank : Text → Bool
  pub sha256 : Text → String
  pub same_other : Json → Json → Bool

-- `path` is the content of the file, if there is one
pub record Ledger (Score Text : Type 0) : Type 0 where
  pub entries : List (Finding Score)
  pub prev : String
  pub path : Option (List Text)

-- `Ledger(path)` with `truncate`
abbrev pub open_ledger : {Score Text : Type 0} → Bool → Ledger Score Text
open_ledger has_path = record {
  entries = [];
  prev = "GENESIS";
  path = if has_path then some [] else none;
}

pub data ChainError : Type 0 where
  invalid_json prev_mismatch hash_mismatch : (line_no : ℕ) → ChainError

-- what `verify_ledger` raises: AttributeError and KeyError
pub data VerifyError : Type 0 where
  not_an_object : VerifyError
  missing_key : String → VerifyError

status_name : Status → String
status_name Status.unscorable = "unscorable"
status_name Status.refuted = "refuted"
status_name Status.unknown = "unknown"
status_name Status.provisional = "provisional"
status_name Status.challenged = "challenged"
status_name Status.supported = "supported"

texts : List String → Items
texts [] = nil
texts (s ∷ ss) = cons (str s) (texts ss)

pub candidate_document : Candidate → Json
unfolding texts
candidate_document c = obj (
    field "id" (str c.id) (
      field "statement" (str c.statement)
        (field "payload" (obj c.payload) (field "parents" (arr (texts c.parents)) empty))))

-- the keys that `verify_ledger` takes from a record
abbrev pub body_keys : List String
body_keys = "candidate" ∷ "verdict" ∷ "falsifications" ∷ "final_status" ∷ "survived" ∷ "prev" ∷ []

-- `{k: record[k] for k in keys}`
unfoldable pub pick : List String → Fields → Result VerifyError Fields
pick [] d = ok empty
pick (k ∷ ks) d = do
  v ← elim (get d k) [ none ↦ err (missing_key k) | some v ↦ ok v ]
  rest ← pick ks d
  ok (field k v rest)

-- `d.get(key, default)`
abbrev pub value_or : Option Json → Json → Json
value_or none v = v
value_or (some w) v = w

abbrev pub error_if : Bool → ChainError → List ChainError
error_if b e = if b then e ∷ [] else []

-- `==` of two JSON values
abbrev pub equal : (Json → Json → Bool) → Json → Json → Bool
equal other (str s) (str t) = s == t
equal other (str s) _ = false
equal other _ (str t) = false
equal other v w = other v w

module _ {Score Text : Type 0} (io : Formats Score Text) where
  pub verdict_document : Verdict Score → Json
  unfolding status_name
  verdict_document v = obj (
      field "status" (str (status_name v.status))
        (field "score" (io.number v.score) (field "detail" (obj v.detail) empty)))

  falsification_document : Falsification Score → Json
  falsification_document x = obj (
      field "name" (str x.name) (
        field "killed" (bool x.killed)
          (field "metric" (io.number x.metric) (field "detail" (obj x.detail) empty))))

  pub falsification_items : List (Falsification Score) → Items
  unfolding falsification_document
  falsification_items [] = nil
  falsification_items (x ∷ xs) = cons (falsification_document x) (falsification_items xs)

  -- `_finding_body`, before the further keys `rest`
  unfoldable pub finding_body : Finding Score → (rest : Fields) → Fields
  unfolding candidate_document verdict_document falsification_items status_name texts
  finding_body f rest = field "candidate" (candidate_document f.candidate) (
      field "verdict" (verdict_document f.verdict) (
        field "falsifications" (arr (falsification_items f.falsifications)) (
          field "final_status" (str (status_name f.final_status))
            (field "survived" (arr (texts f.survived)) (field "prev" (str f.prev) rest)))))

  -- the hash of a canonical body
  abbrev pub digest : Fields → String
  digest body = io.sha256 (io.compact (sort_keys (obj body)))

  unfoldable pub linked_finding : ℕ → String → Finding Score → Finding Score
  unfolding finding_body sort_keys
  linked_finding now prev f =
      let linked = record f { prev = prev; ts = now } in
      record linked { sha256 = digest (finding_body linked empty) }

  -- the line that `append` writes
  unfoldable pub line_of : Finding Score → Text
  unfolding finding_body sort_keys
  line_of f = io.dumps (
      sort_keys
        (obj (finding_body f (field "sha256" (str f.sha256) (field "ts" (io.stamp f.ts) empty)))))

  unfoldable pub append : ℕ → Finding Score → Ledger Score Text → Ledger Score Text
  unfolding linked_finding line_of
  append now f ledger =
      let f' = linked_finding now ledger.prev f in
      record {
        entries = ledger.entries ++ f' ∷ [];
        prev = f'.sha256;
        path = Option.map (λ lines. lines ++ line_of f' ∷ []) ledger.path;
      }

  -- `Engine.run`, with the clock's reading at each `append`
  unfoldable pub run :
      (Candidate → Finding Score) → (ℕ → ℕ) → List Candidate → Ledger Score Text → Ledger Score Text
  unfolding append
  run examined clock [] ledger = ledger
  run examined clock (c ∷ cs) ledger =
      run examined (λ n. clock (suc n)) cs (append (clock 0) (examined c) ledger)

  -- the body of the loop of `verify_ledger` for a record: its errors and the new `previous`
  unfoldable pub verify_record : ℕ → Json → Fields → Result VerifyError (List ChainError × Json)
  unfolding pick get sort_keys
  verify_record line_no previous d = do
    body ← pick body_keys d
    let prev = value_or (get d "prev") null
    let hash = value_or (get d "sha256") null
    ok (
      error_if (not (equal io.same_other prev previous)) (prev_mismatch line_no)
          ++ error_if (not (equal io.same_other hash (str (digest body)))) (hash_mismatch line_no),
      value_or (get d "sha256") (str ""),
    )

  unfoldable pub verify_loaded :
      ℕ → Json → Option Json → Result VerifyError (List ChainError × Json)
  unfolding verify_record
  verify_loaded line_no previous none = ok (invalid_json line_no ∷ [], previous)
  verify_loaded line_no previous (some (obj d)) = verify_record line_no previous d
  verify_loaded line_no previous (some _) = err not_an_object

  unfoldable pub verify_line : ℕ → Json → Text → Result VerifyError (List ChainError × Json)
  unfolding verify_loaded
  verify_line line_no previous line =
      if io.is_blank line then ok ([], previous) else verify_loaded line_no previous (io.loads line)

  -- the loop over the lines from `line_no` on
  unfoldable pub verify_from : ℕ → Json → List Text → Result VerifyError (List ChainError)
  unfolding verify_line
  verify_from line_no previous [] = ok []
  verify_from line_no previous (line ∷ lines) = do
    (errors, next) ← verify_line line_no previous line
    rest ← verify_from (suc line_no) next lines
    ok (errors ++ rest)

  -- `return not errors, errors`
  unfoldable pub verify_ledger : List Text → Result VerifyError (Bool × List ChainError)
  unfolding verify_from
  verify_ledger lines = do
    errors ← verify_from 1 (str "GENESIS") lines
    ok (is_empty errors, errors)
