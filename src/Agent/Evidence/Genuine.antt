-- ===== src/Agent/Evidence/Genuine.antt =====
-- src/orbita_agent/evidence_normalization.py: the receipts that records leave, and their check.
use orbita_agent_research_se.Base.{
  String, List, [], ◌∷◌, any, true, ◌&&◌, Option, none, some, Result, ok, err, >>=-eq-ok, elem,
  guard-ok, raise_if-ok, ok-result, Result-cases, Bool-cases, ◌==◌, eq_refl, ◌≡◌, refl, subst, All,
  All-append, inl, inr, arith,
}
use orbita_agent_research_se.Base.Json.{Json, obj, empty, get}
use orbita_agent_research_se.Agent.Opportunity.{stable, content_hash, known_fields, object_or}
use orbita_agent_research_se.Agent.Evidence.{
  independence_levels, EvidenceError, bad_scope, bad_independence, bad_result, bad_provenance,
  not_finite, Scope, Independence, Core, evidence_eligibility, source_decisions, scope_document,
  independence_document, normalize_scope, normalize_independence, text_at_most, nonempty_object,
  assumptions_of, optional_digest, value_or, normalize_hashes, normalize_evaluator, scope_fields,
  independence_fields,
}
use orbita_agent_research_se.Agent.Evidence.Receipts.{
  Submission, Body, Receipt, core_document, body_document, flag_of, find_receipt, find_source,
  collides, persisted_or_conflict, insert_receipt, get_receipt, same_texts, same_eligibility,
  normalize, body_of, record_receipt, verify,
}

module _ (lower : String → String) (dumps : Json → Option String) (sha256 : String → String) where
  -- The digests of a receipt are those of what it holds, and its eligibility is that of its source.
  pub record IsGenuine (r : Receipt) : Type 0 where
    pub receipt : content_hash dumps sha256 not_finite (body_document r.body) ≡ ok r.receipt_hash
    pub core :
        content_hash dumps sha256 not_finite (obj (core_document r.body.core empty))
        ≡ ok r.body.normalization_hash
    pub scope :
        content_hash dumps sha256 not_finite (obj (scope_document r.body.core.scope))
        ≡ ok r.body.core.scope_hash
    pub independence :
        content_hash dumps sha256 not_finite (obj (independence_document r.body.core.independence))
        ≡ ok r.body.core.independence_hash
    pub eligibility : evidence_eligibility r.body.core ≡ ok r.body.eligibility

  normalize_scope-hash :
      (v : Json) (s : Scope) (h : String)
      → normalize_scope lower dumps sha256 v ≡ ok (s, h)
      → content_hash dumps sha256 not_finite (obj (scope_document s)) ≡ ok h
  unfolding normalize_scope
  normalize_scope-hash v s h e =
      let (d, _, e1) = >>=-eq-ok (object_or bad_scope v) _ e in
      let (_, e2) = guard-ok (known_fields scope_fields d) bad_scope _ e1 in
      let (boundary, _, e3) = >>=-eq-ok (nonempty_object bad_scope (get d "boundary")) _ e2 in
      let (assumptions, _, e4) = >>=-eq-ok (assumptions_of (get d "assumptions")) _ e3 in
      let (domain, _, e5) = >>=-eq-ok (text_at_most 200 (get d "domain")) _ e4 in
      let (quantifier, _, e6) = >>=-eq-ok (text_at_most 80 (get d "quantifier")) _ e5 in
      let (written, _, e7) = >>=-eq-ok (stable dumps sha256 not_finite (obj boundary)) _ e6 in
      let (digest, found, e8) = >>=-eq-ok (content_hash dumps sha256 not_finite _) _ e7 in
      subst
        (λ (x : Scope × String).
          content_hash dumps sha256 not_finite (obj (scope_document x.0)) ≡ ok x.1)
        (ok-result e8) found

  normalize_independence-hash :
      (v : Json) (id : String) (i : Independence) (h : String)
      → normalize_independence lower dumps sha256 v id ≡ ok (i, h)
      → content_hash dumps sha256 not_finite (obj (independence_document i)) ≡ ok h
  unfolding normalize_independence
  normalize_independence-hash v id i h e =
      let (d, _, e1) = >>=-eq-ok (object_or bad_independence v) _ e in
      let (_, e2) = guard-ok (known_fields independence_fields d) bad_independence _ e1 in
      let (level, _, e3) = >>=-eq-ok (text_at_most 40 (get d "level")) _ e2 in
      let (_, e4) = guard-ok (elem level independence_levels) bad_independence _ e3 in
      let (subject, _, e5) =
        >>=-eq-ok (text_at_most 300 (some (value_or (get d "subject_id") id))) _ e4 in
      let (evaluator, _, e6) = >>=-eq-ok (text_at_most 300 (get d "evaluator_id")) _ e5 in
      let (_, e7) =
        raise_if-ok (level == "external" && evaluator == subject) bad_independence _ e6 in
      let (verifier, _, e8) =
        >>=-eq-ok (optional_digest lower (get d "verifier_receipt_hash")) _ e7 in
      let (rationale, _, e9) = >>=-eq-ok (text_at_most 2000 (get d "rationale")) _ e8 in
      let (digest, found, e10) = >>=-eq-ok (content_hash dumps sha256 not_finite _) _ e9 in
      subst
        (λ (x : Independence × String).
          content_hash dumps sha256 not_finite (obj (independence_document x.0)) ≡ ok x.1)
        (ok-result e10) found

  -- what `normalize` establishes
  record IsNormal (c : Core) : Type 0 where
    scope : content_hash dumps sha256 not_finite (obj (scope_document c.scope)) ≡ ok c.scope_hash
    independence :
        content_hash dumps sha256 not_finite (obj (independence_document c.independence))
        ≡ ok c.independence_hash

  normalize-IsNormal :
      (x : Submission) (c : Core) → normalize lower dumps sha256 x ≡ ok c → IsNormal c
  unfolding normalize
  normalize-IsNormal x c h =
      let (_, _, h1) = >>=-eq-ok (source_decisions x.source_kind) _ h in
      let (source_id, _, h2) = >>=-eq-ok (text_at_most 300 (some x.source_id)) _ h1 in
      let (frozen, _, h3) = >>=-eq-ok (flag_of x.frozen_before_reveal) _ h2 in
      let (hashes, _, h4) = >>=-eq-ok (normalize_hashes lower x.source_hashes) _ h3 in
      let (result, _, h5) = >>=-eq-ok (nonempty_object bad_result (some x.result)) _ h4 in
      let (evaluator, _, h6) = >>=-eq-ok (normalize_evaluator lower x.evaluator) _ h5 in
      let (provenance, _, h7) =
        >>=-eq-ok (nonempty_object bad_provenance (some x.provenance)) _ h6 in
      let ((scope, scope_hash), scoped, h8) =
        >>=-eq-ok (normalize_scope lower dumps sha256 x.scope) _ h7 in
      let (_, _, h9) = >>=-eq-ok (stable dumps sha256 not_finite (obj result)) _ h8 in
      let ((i, i_hash), independent, h10) =
        >>=-eq-ok (normalize_independence lower dumps sha256 x.independence source_id) _ h9 in
      let (_, _, h11) = >>=-eq-ok (stable dumps sha256 not_finite (obj provenance)) _ h10 in
      subst IsNormal (ok-result h11) (record {
        scope = normalize_scope-hash x.scope scope scope_hash scoped;
        independence = normalize_independence-hash x.independence source_id i i_hash independent;
      })

  persisted-All :
      (new r : Receipt) (old : Option Receipt) (rows rows' : List Receipt)
      → persisted_or_conflict new old rows ≡ ok (r, rows')
      → All IsGenuine rows
      → All IsGenuine rows'
  persisted-All new r none rows rows' h g = absurd (cc h)
  persisted-All new r (some old) rows rows' h g =
      elim (Bool-cases (old.body.normalization_hash == new.body.normalization_hash)) [
        | inl same ↦ subst (All IsGenuine) (ground arith) g
        | inr other ↦ absurd (ground arith)
      ]

  insert_receipt-All :
      (new r : Receipt) (rows rows' : List Receipt)
      → insert_receipt new rows ≡ ok (r, rows')
      → IsGenuine new
      → All IsGenuine rows
      → All IsGenuine rows'
  unfolding insert_receipt
  insert_receipt-All new r rows rows' h own g = elim (Bool-cases (any (collides new) rows)) [
    | inl taken ↦
        persisted-All new r (find_source new.body.core.source_kind new.body.core.source_id rows)
          rows rows' (ground arith) g
    | inr free ↦
        subst (All IsGenuine) (ground arith) (All-append IsGenuine rows (new ∷ []) g (own, tt))
  ]

  record_receipt-All :
      (fresh_id now : String) (x : Submission) (rows rows' : List Receipt) (r : Receipt)
      → record_receipt lower dumps sha256 fresh_id now x rows ≡ ok (r, rows')
      → All IsGenuine rows
      → All IsGenuine rows'
  unfolding record_receipt body_of
  record_receipt-All fresh_id now x rows rows' r h g =
      let (core, normal, h1) = >>=-eq-ok (normalize lower dumps sha256 x) _ h in
      let (body, built, h2) = >>=-eq-ok (body_of lower dumps sha256 now core) _ h1 in
      let (digest, hashed, h3) =
        >>=-eq-ok (content_hash dumps sha256 not_finite (body_document body)) _ h2 in
      let (core_hash, core_hashed, b1) =
        >>=-eq-ok (content_hash dumps sha256 not_finite (obj (core_document core empty))) _ built in
      let (e, eligible, b2) = >>=-eq-ok (evidence_eligibility core) _ b1 in
      let facts = normalize-IsNormal x core normal in
      let same = ok-result b2 in
      insert_receipt-All (record { id = fresh_id; body = body; receipt_hash = digest }) r rows rows'
        h3
        (record {
          receipt = hashed;
          core =
              subst
                (λ (b : Body).
                  content_hash dumps sha256 not_finite (obj (core_document b.core empty))
                  ≡ ok b.normalization_hash)
                same core_hashed;
          scope =
              subst
                (λ (b : Body).
                  content_hash dumps sha256 not_finite (obj (scope_document b.core.scope))
                  ≡ ok b.core.scope_hash)
                same facts.scope;
          independence =
              subst
                (λ (b : Body).
                  content_hash dumps sha256 not_finite
                    (obj (independence_document b.core.independence))
                  ≡ ok b.core.independence_hash)
                same facts.independence;
          eligibility =
              subst (λ (b : Body). evidence_eligibility b.core ≡ ok b.eligibility) same eligible;
        })
        g

  -- the receipts that a sequence of records leaves; a record that raises leaves them as they were
  abbrev pub kept_or : List Receipt → Result EvidenceError (Receipt × List Receipt) → List Receipt
  kept_or rows (ok (r, rows')) = rows'
  kept_or rows (err e) = rows

  unfoldable pub record_all : List (String × String × Submission) → List Receipt → List Receipt
  record_all [] rows = rows
  record_all ((fresh_id, now, x) ∷ calls) rows =
      record_all calls (kept_or rows (record_receipt lower dumps sha256 fresh_id now x rows))

  pub record_all-IsGenuine :
      (calls : List (String × String × Submission)) (rows : List Receipt)
      → All IsGenuine rows
      → All IsGenuine (record_all calls rows)
  unfolding record_all
  record_all-IsGenuine [] rows g = g
  record_all-IsGenuine ((fresh_id, now, x) ∷ calls) rows g =
      record_all-IsGenuine calls _
        (elim (Result-cases (record_receipt lower dumps sha256 fresh_id now x rows)) [
          | inl ((r, rows'), e) ↦ rw e (record_receipt-All fresh_id now x rows rows' r e g)
          | inr (e, h) ↦ rw h g
        ])

  pub get_receipt-IsGenuine :
      (id : String) (rows : List Receipt) (r : Receipt)
      → All IsGenuine rows
      → get_receipt id rows ≡ ok r
      → IsGenuine r
  unfolding get_receipt find_receipt
  get_receipt-IsGenuine id [] r g h = absurd (cc h)
  get_receipt-IsGenuine id (x ∷ rows) r g h = elim (Bool-cases (x.id == id)) [
    | inl own ↦ subst IsGenuine (ground arith) g.0
    | inr other ↦ get_receipt-IsGenuine id rows r g.1 (ground arith)
  ]

  same_texts_refl : (xs : List String) → same_texts xs xs ≡ true
  unfolding same_texts
  same_texts_refl [] = refl
  same_texts_refl (x ∷ xs) = rw (eq_refl x, same_texts_refl xs)

  -- Whatever was recorded, each receipt passes its verification: its digests are those of what it
  -- holds, and its eligibility is that of the policy.
  pub verify-record_all :
      (calls : List (String × String × Submission)) (id : String) (r : Receipt)
      → get_receipt id (record_all calls []) ≡ ok r
      → verify lower dumps sha256 id (record_all calls [])
        ≡ ok (record { receipt_id = id; valid = true; failures = [] })
  unfolding verify same_eligibility
  verify-record_all calls id r h =
      let g =
        get_receipt-IsGenuine id (record_all calls []) r (record_all-IsGenuine calls [] tt) h in
      rw (
        h,
        g.receipt,
        g.core,
        g.scope,
        g.independence,
        g.eligibility,
        eq_refl r.receipt_hash,
        eq_refl r.body.normalization_hash,
        eq_refl r.body.core.scope_hash,
        eq_refl r.body.core.independence_hash,
        same_texts_refl r.body.eligibility.allowed_decisions,
        same_texts_refl r.body.eligibility.prohibited_decisions,
        same_texts_refl r.body.eligibility.reasons,
      )
