-- ===== src/Agent/Opportunity/Audit.antt =====
-- src/orbita_agent/opportunity_diagnosis.py: `audit_observation_only_instrument`. The two behaviours
-- are lists of JSON values; `dumps` and `sha256` are those of the diagnosis.
use orbita_agent_research_se.Base.{
  ℕ, suc, String, List, [], ◌∷◌, Bool, false, not, Option, none, some, Result, ok, err, ◌>>=◌,
  if◌then◌else◌, ◌==◌, length, nat_eq, ◌≡◌, refl, ◌↔◌, arith, eq_iff, ◌++◌, map, is_empty,
  >>=-eq-ok, ok-result, inl, inr, Bool-cases, Option-cases, ap, sym, ◌∙◌,
}
use orbita_agent_research_se.Base.Json.{
  Json, null, bool, int, str, arr, obj, Fields, empty, field, Items, nil, cons, pos, truthy,
}
use orbita_agent_research_se.Agent.Opportunity.{
  DiagnosisError, not_finite, bad_instrument, bad_context, stable, content_hash, instrument_of,
  object_or,
}

pub data Mismatch : Type 0 where
  differs : (index : ℕ) (baseline_hash instrumented_hash : String) → Mismatch
  lengths : (baseline_length instrumented_length : ℕ) → Mismatch

pub record Audit : Type 0 where
  pub mismatches : List Mismatch
  pub behavior_changed : Bool
  pub body : Fields
  pub audit_hash : String

items : List Json → Items
items [] = nil
items (v ∷ vs) = cons v (items vs)

mismatch_document : Mismatch → Json
mismatch_document (differs index old new) = obj (
    field "index" (int (pos index))
      (field "baseline_hash" (str old) (field "instrumented_hash" (str new) empty)))
mismatch_document (lengths old new) = obj (
    field "index" (str "length")
      (field "baseline_length" (int (pos old)) (field "instrumented_length" (int (pos new)) empty)))

-- the mismatch that is appended if `not same_length`
abbrev pub with_lengths : (baseline instrumented : ℕ) → List Mismatch → List Mismatch
with_lengths n m found = if nat_eq n m then found else found ++ lengths n m ∷ []

-- `instrument` as an argument that has to be given
abbrev pub given_instrument : Json → Result DiagnosisError Json
given_instrument null = err bad_instrument
given_instrument v = ok v

-- `context or {}`
abbrev pub context_of : Option Json → Result DiagnosisError Fields
context_of none = ok empty
context_of (some v) = if truthy v then object_or bad_context v else ok empty

with_lengths-empty :
    (n m : ℕ) (found : List Mismatch) → (with_lengths n m found ≡ []) ↔ ((n ≡ m) × (found ≡ []))
with_lengths-empty n m [] = (λ e. ground arith, λ e. ground arith)
with_lengths-empty n m (x ∷ xs) = (λ e. absurd (ground arith), λ e. absurd (cc e.1))

is_empty-nil : (ms : List Mismatch) → not (is_empty ms) ≡ false → ms ≡ []
is_empty-nil [] h = refl
is_empty-nil (m ∷ ms) h = cc

module _ (dumps : Json → Option String) (sha256 : String → String) where
  -- the loop over `enumerate(zip(...))`
  unfoldable pub compare_behavior :
      ℕ → (baseline instrumented : List Json) → Result DiagnosisError (List Mismatch)
  compare_behavior index [] instrumented = ok []
  compare_behavior index (before ∷ rest) [] = ok []
  compare_behavior index (before ∷ rest) (after ∷ others) = do
    old ← stable dumps sha256 not_finite before
    new ← stable dumps sha256 not_finite after
    found ← compare_behavior (suc index) rest others
    ok (if old == new then found else differs index (sha256 old) (sha256 new) ∷ found)

  audit_body :
      (instrument : Json) (instrument_hash baseline_hash instrumented_hash : String)
      → List Mismatch
      → (changed : Bool) (context : Fields) → Fields
  unfolding items mismatch_document
  audit_body instrument instrument_hash baseline_hash instrumented_hash mismatches changed context =
      field "schema" (str "orbita-observation-only-instrument-audit/1") (
        field "instrument" instrument (
          field "instrument_hash" (str instrument_hash) (
            field "baseline_behavior_hash" (str baseline_hash) (
              field "instrumented_behavior_hash" (str instrumented_hash) (
                field "behavior_changed" (bool changed) (
                  field "mismatches" (arr (items (map mismatch_document mismatches))) (
                    field "verdict"
                      (str (if changed then "BEHAVIOR_CHANGED" else "NO_BEHAVIOR_CHANGE_OBSERVED"))
                      (field "context" (obj context) (
                        field "scope" (str "supplied_behavior_projection_only") (
                          field "claim_boundary"
                            (str
                              "no-behavior-change on these traces is not a universal neutrality proof")
                            (field "activation_authority" (bool false) empty)))))))))))

  unfoldable pub audit_observation_only_instrument :
      Json → (baseline instrumented : List Json) → Option Json → Result DiagnosisError Audit
  unfolding compare_behavior audit_body items instrument_of content_hash
  audit_observation_only_instrument instrument baseline instrumented context = do
    checked ← instrument_of dumps sha256 (some instrument)
    kept ← given_instrument checked
    old ← stable dumps sha256 not_finite (arr (items baseline))
    new ← stable dumps sha256 not_finite (arr (items instrumented))
    fields ← context_of context
    written ← stable dumps sha256 not_finite (obj fields)
    found ← compare_behavior 0 baseline instrumented
    let mismatches = with_lengths (length baseline) (length instrumented) found
    instrument_hash ← content_hash dumps sha256 not_finite kept
    let changed = not (is_empty mismatches)
    let body = audit_body kept instrument_hash (sha256 old) (sha256 new) mismatches changed fields
    digest ← content_hash dumps sha256 not_finite (obj body)
    ok (record {
      mismatches = mismatches;
      behavior_changed = changed;
      body = body;
      audit_hash = digest;
    })

  stable-some : (v : Json) (s : String) → stable dumps sha256 not_finite v ≡ ok s → dumps v ≡ some s
  stable-some v s h = elim (Option-cases (dumps v)) [
    | inl e ↦ absurd (ground arith)
    | inr (t, e) ↦ ground arith
  ]

  compare_behavior-equal :
      (index : ℕ) (xs ys : List Json) (found : List Mismatch)
      → compare_behavior index xs ys ≡ ok found
      → (with_lengths (length xs) (length ys) found ≡ []) ↔ (map dumps xs ≡ map dumps ys)
  unfolding compare_behavior
  compare_behavior-equal index [] [] found h = (λ _. refl, λ _. ground arith)
  compare_behavior-equal index [] (y ∷ ys) found h =
      (λ e. absurd (cc ((with_lengths-empty 0 (suc (length ys)) found).0 e).0), λ e. cc)
  compare_behavior-equal index (x ∷ xs) [] found h =
      (λ e. absurd (cc ((with_lengths-empty (suc (length xs)) 0 found).0 e).0), λ e. cc)
  compare_behavior-equal index (x ∷ xs) (y ∷ ys) found h =
      let (old, read_x, h1) = >>=-eq-ok (stable dumps sha256 not_finite x) _ h in
      let (new, read_y, h2) = >>=-eq-ok (stable dumps sha256 not_finite y) _ h1 in
      let (rest, compared, h3) = >>=-eq-ok (compare_behavior (suc index) xs ys) _ h2 in
      let ih = compare_behavior-equal (suc index) xs ys rest compared in
      let text_x = stable-some x old read_x in
      let text_y = stable-some y new read_y in
      let here = with_lengths-empty (suc (length xs)) (suc (length ys)) found in
      let there = with_lengths-empty (length xs) (length ys) rest in
      elim (Bool-cases (old == new)) [
        | inl same ↦
            let unchanged : rest ≡ found = ground arith in
            (
              λ e.
                  let tail = ih.0 (there.1 (ground (arith, here.0 e), unchanged ∙ (here.0 e).1)) in
                  cc (text_x, text_y, (eq_iff old new).0 same, tail),
              λ e.
                  let both = there.0 (ih.1 (cc)) in
                  here.1 (ground (arith, both.0), sym unchanged ∙ both.1),
            )
        | inr other ↦ (
          λ e. absurd (ground (arith, (here.0 e).1)),
          λ e. absurd (ground (arith, (eq_iff old new).1 (cc (text_x, text_y, e)))),
        )
      ]

  -- An audit that is returned reports no change exactly when the two behaviours have one length and
  -- the same JSON text at each place.
  pub audit-behavior_changed_iff :
      (instrument : Json) (baseline instrumented : List Json) (context : Option Json) (a : Audit)
      → audit_observation_only_instrument instrument baseline instrumented context ≡ ok a
      → (a.behavior_changed ≡ false) ↔ (map dumps baseline ≡ map dumps instrumented)
  unfolding audit_observation_only_instrument
  audit-behavior_changed_iff instrument baseline instrumented context a h =
      let (checked, _, h1) = >>=-eq-ok (instrument_of dumps sha256 (some instrument)) _ h in
      let (kept, _, h2) = >>=-eq-ok (given_instrument checked) _ h1 in
      let (old, _, h3) = >>=-eq-ok (stable dumps sha256 not_finite (arr (items baseline))) _ h2 in
      let (new, _, h4) =
        >>=-eq-ok (stable dumps sha256 not_finite (arr (items instrumented))) _ h3 in
      let (fields, _, h5) = >>=-eq-ok (context_of context) _ h4 in
      let (written, _, h6) = >>=-eq-ok (stable dumps sha256 not_finite (obj fields)) _ h5 in
      let (found, compared, h7) = >>=-eq-ok (compare_behavior 0 baseline instrumented) _ h6 in
      let (hash, _, h8) = >>=-eq-ok (content_hash dumps sha256 not_finite kept) _ h7 in
      let (digest, _, h9) = >>=-eq-ok (content_hash dumps sha256 not_finite _) _ h8 in
      let same = compare_behavior-equal 0 baseline instrumented found compared in
      let changed : not (is_empty (with_lengths (length baseline) (length instrumented) found))
          ≡ a.behavior_changed =
        ap (λ (x : Audit). x.behavior_changed) (ok-result h9) in
      (
        λ e. same.0 (is_empty-nil _ (changed ∙ e)),
        λ e. sym changed ∙ ap (λ (ms : List Mismatch). not (is_empty ms)) (same.1 e),
      )
