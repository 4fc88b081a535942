-- ===== src/Agent/Evidence/Decisions.antt =====
-- src/orbita_agent/evidence_normalization.py: the decisions that a receipt may support.
use orbita_agent_research_se.Base.{
  String, List, [], ◌∷◌, filter, Bool, true, false, not, ◌&&◌, ◌||◌, Option, ok, >>=-eq-ok,
  guard-ok, ok-result, Bool-cases, if◌then◌else◌, ◌==◌, elem, eq_iff, ◌≡◌, ◌≢◌, refl, sym, ap,
  subst, ◌∙◌, inl, inr, ◌⊎◌, arith,
}
use orbita_agent_research_se.Base.Texts.{elem-sorted}
use orbita_agent_research_se.Base.Json.{Json, get}
use orbita_agent_research_se.Agent.Evidence.{
  unsupported_decision, Core, Eligibility, evidence_eligibility, source_decisions, is_unfinished,
  is_unfrozen, is_too_close, allowed_of, discard, decision_kinds, never_evidence_only,
}
use orbita_agent_research_se.Agent.Evidence.Receipts.{
  Submission, Receipt, Decision, get_receipt, check_decision,
}
use orbita_agent_research_se.Agent.Evidence.Genuine.{
  record_all, record_all-IsGenuine, get_receipt-IsGenuine,
}

-- The decisions that evidence may support: the kind of source for each, and what it asks for.
pub data IsSupported (c : Core) : String → Type 0 where
  found_claim : c.source_kind ≡ "DISCOVERY_RUN" → IsSupported c "SCIENTIFIC_CLAIM_REVIEW"
  found_policy : c.source_kind ≡ "DISCOVERY_RUN" → IsSupported c "RESEARCH_POLICY_REVIEW"
  operator :
      c.source_kind ≡ "GENOME_TOURNAMENT"
      → c.frozen_before_reveal ≡ true
      → IsSupported c "DISCOVERY_OPERATOR_REVIEW"
  tested_claim : c.source_kind ≡ "EXTERNAL_EXPERIMENT" → IsSupported c "SCIENTIFIC_CLAIM_REVIEW"
  repair :
      c.source_kind ≡ "EXTERNAL_EXPERIMENT"
      → c.frozen_before_reveal ≡ true
      → c.independence.level ≢ "same_execution"
      → c.independence.level ≢ "same_case"
      → IsSupported c "REPAIR_CANDIDATE_REVIEW"
  certificate :
      c.source_kind ≡ "PROOF_ASSISTANT" → IsSupported c "LANGUAGE_LIMIT_CERTIFICATE_REVIEW"
  verification : c.source_kind ≡ "INDEPENDENT_VERIFIER" → IsSupported c "VERIFICATION_REVIEW"

IsSupported-never :
    (c : Core) (kind : String) → IsSupported c kind → elem kind never_evidence_only ≡ false
unfolding elem
IsSupported-never c _ (found_claim e) = refl
IsSupported-never c _ (found_policy e) = refl
IsSupported-never c _ (operator e f) = refl
IsSupported-never c _ (tested_claim e) = refl
IsSupported-never c _ (repair e f g h) = refl
IsSupported-never c _ (certificate e) = refl
IsSupported-never c _ (verification e) = refl

-- a member of `allowed` is a decision of the source, and each `discard` leaves it
elem-discard :
    (x y : String) (xs : List String) → elem x (discard y xs) ≡ (elem x xs && not (x == y))
unfolding elem discard filter
elem-discard x y [] = refl
elem-discard x y (z ∷ zs) =
    let ih = elem-discard x y zs in
    elim (Bool-cases (z == y)) [
      | inl own ↦ ground (arith, ih, eq_iff z y, eq_iff x z, eq_iff x y)
      | inr other ↦ ground (arith, ih, eq_iff z y, eq_iff x z, eq_iff x y)
    ]

elem-unless :
    (b : Bool) (x y : String) (xs : List String)
    → elem x (if b then discard y xs else xs) ≡ true
    → (elem x xs ≡ true) × ((b && x == y) ≡ false)
elem-unless true x y xs h =
    let both : (elem x xs && not (x == y)) ≡ true = sym (elem-discard x y xs) ∙ h in
    (ground arith, ground arith)
elem-unless false x y xs h = (h, refl)

elem-unless_both :
    (b : Bool) (x : String) (xs : List String)
    → elem x (
        if b
        then discard "REPAIR_CANDIDATE_REVIEW" (discard "DISCOVERY_OPERATOR_REVIEW" xs)
        else xs)
      ≡ true
    → (elem x xs ≡ true)
      × ((b && (x == "REPAIR_CANDIDATE_REVIEW" || x == "DISCOVERY_OPERATOR_REVIEW")) ≡ false)
elem-unless_both true x xs h =
    let outer =
      elem-unless true x "REPAIR_CANDIDATE_REVIEW" (discard "DISCOVERY_OPERATOR_REVIEW" xs) h in
    let inner = elem-unless true x "DISCOVERY_OPERATOR_REVIEW" xs outer.0 in
    (inner.0, ground (arith, outer.1, inner.1))
elem-unless_both false x xs h = (h, refl)

elem-started :
    (b : Bool) (x : String) (xs : List String)
    → elem x (if b then [] else xs) ≡ true
    → (b ≡ false) × (elem x xs ≡ true)
unfolding elem
elem-started true x xs h = absurd (ground arith)
elem-started false x xs h = (refl, h)

allowed_of-elem :
    (kind : String) (unfinished : Bool) (c : Core) (decisions : List String)
    → elem kind (allowed_of unfinished c decisions) ≡ true
    → (unfinished ≡ false)
      × (elem kind decisions ≡ true)
      × ((is_unfrozen c
            && (kind == "REPAIR_CANDIDATE_REVIEW" || kind == "DISCOVERY_OPERATOR_REVIEW"))
          ≡ false)
      × ((is_too_close c && kind == "REPAIR_CANDIDATE_REVIEW") ≡ false)
unfolding allowed_of elem
allowed_of-elem kind unfinished c decisions h =
    let started : List String = if unfinished then [] else decisions in
    let frozen : List String =
      if is_unfrozen c
      then discard "REPAIR_CANDIDATE_REVIEW" (discard "DISCOVERY_OPERATOR_REVIEW" started)
      else started in
    let (m1, far) = elem-unless (is_too_close c) kind "REPAIR_CANDIDATE_REVIEW" frozen h in
    let (m2, early) = elem-unless_both (is_unfrozen c) kind started m1 in
    let (done, m3) = elem-started unfinished kind decisions m2 in (done, m3, early, far)

either : (x a b : String) → elem x (a ∷ b ∷ []) ≡ true → (x ≡ a) ⊎ (x ≡ b)
unfolding elem
either x a b h = elim (Bool-cases (x == a)) [
  | inl first ↦ inl ((eq_iff x a).0 first)
  | inr other ↦ inr ((eq_iff x b).0 (ground arith))
]

only : (x a : String) → elem x (a ∷ []) ≡ true → x ≡ a
unfolding elem
only x a h = (eq_iff x a).0 (ground arith)

source_decisions-IsSupported :
    (c : Core) (kind : String) (decisions : List String)
    → source_decisions c.source_kind ≡ ok decisions
    → elem kind decisions ≡ true
    → (is_unfrozen c && (kind == "REPAIR_CANDIDATE_REVIEW" || kind == "DISCOVERY_OPERATOR_REVIEW"))
      ≡ false
    → (is_too_close c && kind == "REPAIR_CANDIDATE_REVIEW") ≡ false
    → IsSupported c kind
unfolding source_decisions elem
source_decisions-IsSupported c kind decisions h m frozen far =
    elim (Bool-cases (c.source_kind == "DISCOVERY_RUN")) [
      | inl one ↦
          let same : decisions ≡ "SCIENTIFIC_CLAIM_REVIEW" ∷ "RESEARCH_POLICY_REVIEW" ∷ [] =
            ground arith in
          elim (either kind "SCIENTIFIC_CLAIM_REVIEW" "RESEARCH_POLICY_REVIEW"
            (subst (λ (ds : List String). elem kind ds ≡ true) same m)) [
              | inl claim ↦
                  supported claim (found_claim ((eq_iff c.source_kind "DISCOVERY_RUN").0 one))
              | inr policy ↦
                  supported policy (found_policy ((eq_iff c.source_kind "DISCOVERY_RUN").0 one))
            ]
      | inr not_one ↦ elim (Bool-cases (c.source_kind == "GENOME_TOURNAMENT")) [
        | inl two ↦
            let same : decisions ≡ "DISCOVERY_OPERATOR_REVIEW" ∷ [] = ground arith in
            let this =
              only kind "DISCOVERY_OPERATOR_REVIEW"
                (subst (λ (ds : List String). elem kind ds ≡ true) same m) in
            supported this (
              operator ((eq_iff c.source_kind "GENOME_TOURNAMENT").0 two)
                (ground (arith, frozen, two, (eq_iff kind "DISCOVERY_OPERATOR_REVIEW").1 this)))
        | inr not_two ↦ elim (Bool-cases (c.source_kind == "EXTERNAL_EXPERIMENT")) [
          | inl three ↦
              let same : decisions ≡ "SCIENTIFIC_CLAIM_REVIEW" ∷ "REPAIR_CANDIDATE_REVIEW" ∷ [] =
                ground arith in
              let kind_is = (eq_iff c.source_kind "EXTERNAL_EXPERIMENT").0 three in
              elim (either kind "SCIENTIFIC_CLAIM_REVIEW" "REPAIR_CANDIDATE_REVIEW"
                (subst (λ (ds : List String). elem kind ds ≡ true) same m)) [
                  | inl claim ↦ supported claim (tested_claim kind_is)
                  | inr mend ↦
                      let this = (eq_iff kind "REPAIR_CANDIDATE_REVIEW").1 mend in
                      supported mend (
                        repair kind_is (ground (arith, frozen, three, this))
                          (λ e.
                            let near = (eq_iff c.independence.level "same_execution").1 e in
                            absurd (ground (arith, far, three, this, near)))
                          (λ e.
                            let near = (eq_iff c.independence.level "same_case").1 e in
                            absurd (ground (arith, far, three, this, near))))
                ]
          | inr not_three ↦ elim (Bool-cases (c.source_kind == "PROOF_ASSISTANT")) [
            | inl four ↦
                let same : decisions ≡ "LANGUAGE_LIMIT_CERTIFICATE_REVIEW" ∷ [] = ground arith in
                supported
                  (only kind "LANGUAGE_LIMIT_CERTIFICATE_REVIEW"
                    (subst (λ (ds : List String). elem kind ds ≡ true) same m))
                  (certificate ((eq_iff c.source_kind "PROOF_ASSISTANT").0 four))
            | inr not_four ↦ elim (Bool-cases (c.source_kind == "INDEPENDENT_VERIFIER")) [
              | inl five ↦
                  let same : decisions ≡ "VERIFICATION_REVIEW" ∷ [] = ground arith in
                  supported
                    (only kind "VERIFICATION_REVIEW"
                      (subst (λ (ds : List String). elem kind ds ≡ true) same m))
                    (verification ((eq_iff c.source_kind "INDEPENDENT_VERIFIER").0 five))
              | inr not_five ↦ absurd (ground arith)
            ]
          ]
        ]
      ]
    ]
  where
    supported : {name : String} → kind ≡ name → IsSupported c name → IsSupported c kind
    supported e d = subst (IsSupported c) (sym e) d

-- Whatever was recorded, a decision that is eligible is one that the source of its receipt supports,
-- whose result is finished, and that needs no separate authority.
pub check_decision-IsSupported :
    (lower : String → String) (dumps : Json → Option String) (sha256 : String → String)
    (calls : List (String × String × Submission)) (id kind : String) (d : Decision)
    → check_decision id kind (record_all lower dumps sha256 calls []) ≡ ok d
    → d.eligible ≡ true
    → (r : Receipt) × (get_receipt id (record_all lower dumps sha256 calls []) ≡ ok r)
      × (is_unfinished (get r.body.core.result "status") ≡ ok false)
      × IsSupported r.body.core kind
      × (d.requires_separate_authority ≡ false)
unfolding check_decision evidence_eligibility
check_decision-IsSupported lower dumps sha256 calls id kind d h granted =
    let rows = record_all lower dumps sha256 calls [] in
    let (_, h1) = guard-ok (elem kind decision_kinds) unsupported_decision _ h in
    let (r, found, h2) = >>=-eq-ok (get_receipt id rows) _ h1 in
    let g =
      get_receipt-IsGenuine lower dumps sha256 id rows r
        (record_all-IsGenuine lower dumps sha256 calls [] tt) found in
    let c = r.body.core in
    let (decisions, listed, e1) = >>=-eq-ok (source_decisions c.source_kind) _ g.eligibility in
    let (unfinished, finished, e2) = >>=-eq-ok (is_unfinished (get c.result "status")) _ e1 in
    let member : elem kind r.body.eligibility.allowed_decisions ≡ true =
      ap (λ (x : Decision). x.eligible) (ok-result h2) ∙ granted in
    let allowed : elem kind (allowed_of unfinished c decisions) ≡ true =
      sym (elem-sorted kind (allowed_of unfinished c decisions))
      ∙ ap (λ (e : Eligibility). elem kind e.allowed_decisions) (ok-result e2)
      ∙ member in
    let (done, m, frozen, far) = allowed_of-elem kind unfinished c decisions allowed in
    let supported = source_decisions-IsSupported c kind decisions listed m frozen far in
    (
      r,
      found,
      finished ∙ ap (λ (b : Bool). ok b) done,
      supported,
      sym (ap (λ (x : Decision). x.requires_separate_authority) (ok-result h2))
          ∙ IsSupported-never c kind supported,
    )
