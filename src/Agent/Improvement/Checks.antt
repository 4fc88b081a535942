-- ===== src/Agent/Improvement/Checks.antt =====
-- src/orbita_agent/improvement_registry.py: the checks of the arguments.
use orbita_agent_research_se.Base.{
  ℕ, String, List, [], ◌∷◌, Bool, true, false, ◌&&◌, ◌||◌, Option, none, some, Result, ok, err,
  ◌>>=◌, ◌>>◌, raise_if, guard, if◌then◌else◌, ◌==◌, elem, leb, nat_eq, suc,
}
use orbita_agent_research_se.Base.Texts.{strip, char_count, is_nonempty}
use orbita_agent_research_se.Base.Json.{
  Json, null, str, obj, arr, Fields, empty, field, Items, nil, cons, get,
}
use orbita_agent_research_se.Agent.Opportunity.{stable, known_fields, object_or}

pub data RegistryError : Type 0 where
  unknown_kind unknown_limitation empty_artifact bad_certificate bad_text bad_list bad_object
        not_finite unknown_plan_field incomplete_plan unknown_candidate already_frozen not_frozen
        already_evaluated candidate_mismatch plan_mismatch bad_verdict duplicate_candidate
        duplicate_diagnosis bad_diagnosis activation_disabled integrity :
      RegistryError

-- `_text`, of a value that is a string
unfoldable pub short_text : (minimum maximum : ℕ) → String → Result RegistryError String
short_text minimum maximum value = do
  let stripped = strip value
  guard (leb minimum (char_count stripped) && leb (char_count stripped) maximum) bad_text
  ok stripped

-- `_text(name, d.get(key))`
unfoldable pub checked_text : (minimum maximum : ℕ) → Option Json → Result RegistryError String
unfolding short_text
checked_text minimum maximum (some (str s)) = short_text minimum maximum s
checked_text minimum maximum _ = err bad_text

item_count : Items → ℕ
item_count nil = 0
item_count (cons v vs) = suc (item_count vs)

checked_items : Items → Result RegistryError Items
checked_items nil = ok nil
checked_items (cons (str s) vs) = do
  guard (is_nonempty (strip s) && leb (char_count s) 500) bad_list
  rest ← checked_items vs
  ok (cons (str (strip s)) rest)
checked_items (cons _ vs) = err bad_list

-- `_string_list`
unfoldable pub string_list : Option Json → Result RegistryError Items
unfolding item_count checked_items
string_list none = ok nil
string_list (some null) = ok nil
string_list (some (arr items)) = do guard (leb (item_count items) 100) bad_list; checked_items items
string_list (some _) = err bad_list

abbrev pub is_nil : Items → Bool
is_nil nil = true
is_nil (cons _ _) = false

abbrev pub is_empty_object : Fields → Bool
is_empty_object empty = true
is_empty_object (field _ _ _) = false

unfoldable pub candidate_kinds : List String
candidate_kinds =
    "policy_patch" ∷ "code_patch" ∷ "execution_adapter" ∷ "research_operator" ∷ "language_primitive"
    ∷ "verifier" ∷ "retrieval_change" ∷ "ui_workflow" ∷ "performance_change"
    ∷ "safety_reliability_change" ∷ []

unfoldable pub limitation_kinds : List String
limitation_kinds =
    "MISSING_ANSWER" ∷ "MISSING_EXPERIMENT" ∷ "MISSING_DATA" ∷ "SEARCH_FAILURE" ∷ "LANGUAGE_LIMIT"
    ∷ "MODEL_LIMIT" ∷ "EXECUTION_LIMIT" ∷ "ENGINE_CAPABILITY_LIMIT" ∷ "POLICY_LIMIT"
    ∷ "VERIFIER_LIMIT" ∷ "NON_IDENTIFIABILITY" ∷ "PRODUCT_FRICTION" ∷ "PERFORMANCE_LIMIT"
    ∷ "SAFETY_BLOCK" ∷ "QUESTION_ILL_POSED" ∷ []

unfoldable pub proof_paths : List String
proof_paths =
    "finite_enumeration" ∷ "structural_induction" ∷ "smt_model_check" ∷ "theorem_verifier" ∷ []

-- `proof_path not in PROOF_PATHS`; a list or a dict cannot be hashed and raises there as well
abbrev pub is_proof_path : Option Json → Bool
is_proof_path (some (str s)) = elem s proof_paths
is_proof_path _ = false

-- a string of 64 characters
abbrev pub is_digest : Option Json → Bool
is_digest (some (str s)) = nat_eq (char_count s) 64
is_digest _ = false

abbrev pub has_certificate : Option Json → Bool
has_certificate (some (obj certificate)) =
    is_proof_path (get certificate "proof_path")
    && is_digest (get certificate "grammar_hash")
    && is_digest (get certificate "proof_artifact_hash")
    && is_digest (get certificate "checker_receipt_hash")
has_certificate _ = false

-- `_validate_language_limit_evidence`
unfoldable pub validate_language_limit_evidence : String → Fields → Result RegistryError (Unit {0})
validate_language_limit_evidence limitation_kind evidence = do
  if limitation_kind == "LANGUAGE_LIMIT"
      then guard (has_certificate (get evidence "language_limit_certificate")) bad_certificate
      else ok tt

plan_fields : List String
plan_fields =
    "objective" ∷ "benchmark_case_ids" ∷ "positive_controls" ∷ "negative_controls" ∷ "metrics"
    ∷ "acceptance_gates" ∷ "anti_rescue_rules" ∷ "global_safety_checks" ∷ "execution_contract"
    ∷ "independent_verifier" ∷ []

-- `d.get(key, {})`
abbrev or_empty : Option Json → Json
or_empty none = obj empty
or_empty (some v) = v

module _ (dumps : Json → Option String) (sha256 : String → String) where
  -- `_object`
  unfoldable pub checked_object : Json → Result RegistryError Fields
  checked_object v = do d ← object_or bad_object v; s ← stable dumps sha256 not_finite v; ok d

  -- `_validate_evaluation_plan`
  unfoldable pub checked_plan : Json → Result RegistryError Fields
  unfolding known_fields checked_object checked_text string_list plan_fields
  checked_plan v = do
    plan ← checked_object v
    guard (known_fields plan_fields plan) unknown_plan_field
    objective ← checked_text 12 4000 (get plan "objective")
    cases ← string_list (get plan "benchmark_case_ids")
    positive ← string_list (get plan "positive_controls")
    negative ← string_list (get plan "negative_controls")
    metrics ← string_list (get plan "metrics")
    gates ← checked_object (or_empty (get plan "acceptance_gates"))
    rules ← string_list (get plan "anti_rescue_rules")
    safety ← string_list (get plan "global_safety_checks")
    contract ← checked_object (or_empty (get plan "execution_contract"))
    verifier ← checked_object (or_empty (get plan "independent_verifier"))
    raise_if (is_nil metrics || is_empty_object gates) incomplete_plan
    raise_if (is_nil rules) incomplete_plan
    ok (
        field "objective" (str objective) (
          field "benchmark_case_ids" (arr cases) (
            field "positive_controls" (arr positive) (
              field "negative_controls" (arr negative) (
                field "metrics" (arr metrics) (
                  field "acceptance_gates" (obj gates) (
                    field "anti_rescue_rules" (arr rules) (
                      field "global_safety_checks" (arr safety) (
                        field "execution_contract" (obj contract)
                          (field "independent_verifier" (obj verifier) empty))))))))))
