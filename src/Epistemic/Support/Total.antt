-- ===== src/Epistemic/Support/Total.antt =====
-- The support engine answers: it never runs out of fuel, and meets no unknown claim.
use orbita_agent_research_se.Base.{
  eq_refl, ℕ, zero, suc, ◌<◌, String, List, [], ◌∷◌, ◌++◌, map, true, some, ok, ◌≡◌, refl, inl, inr,
  ◌==◌, eq_iff, elem, Bool-cases, Option-cases, arith, All, All-filter, All-imp, find, missing,
  missing-le, missing-append_lt, length, if◌then◌else◌, Answers, Answers->>=,
}
use orbita_agent_research_se.Epistemic.Models.{is_withdrawn}
use orbita_agent_research_se.Epistemic.Policy.{CommitPolicy}
use orbita_agent_research_se.Epistemic.Tables.{
  Claim, Proof, ProofPremise, Contradiction, Db, has_claim, claim_ids,
}
use orbita_agent_research_se.Epistemic.Integrity.{
  IsLinked, IsLinkedPremise, IsLinkedContradiction, elem-column,
}
use orbita_agent_research_se.Epistemic.Support.{
  SupportReport, Memo, recall, active_proofs, insert_row, by_position, premises_of, opposing_claims,
  Eval, check_premises, check_proofs, check_contradictions, get_claim, weigh, visit, evaluate_from,
  support_fuel, evaluate,
}

module _ (P : ProofPremise → Type 0) where
  All-insert_row :
      (r : ProofPremise) (rows : List ProofPremise) → P r → All P rows → All P (insert_row r rows)
  unfolding insert_row
  All-insert_row r [] h hs = (h, tt)
  All-insert_row r (s ∷ rows) h hs = ground (arith, All-insert_row r rows h hs.1)

  All-by_position : (rows : List ProofPremise) → All P rows → All P (by_position rows)
  unfolding by_position
  All-by_position [] h = tt
  All-by_position (r ∷ rows) h = All-insert_row r (by_position rows) h.0 (All-by_position rows h.1)

abbrev Known : Db → List String → Type 0
Known db qs = (q : String) → elem q qs ≡ true → has_claim db q ≡ true

find-total :
    (c : String) (rows : List Claim)
    → elem c (map (λ (r : Claim). r.id) rows) ≡ true
    → (claim : Claim) × (find (λ (r : Claim). r.id == c) rows ≡ some claim)
unfolding find elem
find-total c [] h = cc
find-total c (r ∷ rows) h = elim (Bool-cases (r.id == c)) [
  | inl same ↦ (r, rw same)
  | inr other ↦ rw other (find-total c rows (ground (arith, eq_iff c r.id, eq_iff r.id c)))
]

get_claim-Answers : (db : Db) (c : String) → has_claim db c ≡ true → Answers (get_claim db c)
unfolding get_claim
get_claim-Answers db c known =
    let (claim, found) = find-total c db.claims known in (claim, rw (found, get_claim))

module _ (policy : CommitPolicy) (db : Db) (linked : IsLinked db) where
  abbrev PremiseKnown : ProofPremise → Type 0
  PremiseKnown r = has_claim db r.premise_claim_id ≡ true

  premises_of-Known : (id : String) → Known db (premises_of db id)
  unfolding premises_of
  premises_of-Known id q m =
      let known =
        All-imp (IsLinkedPremise db) PremiseKnown db.proof_premises (λ r l. l.1) linked.premises in
      elem-column (λ x. has_claim db x ≡ true) (λ (r : ProofPremise). r.premise_claim_id) _ q
        (All-by_position PremiseKnown _ (All-filter PremiseKnown _ db.proof_premises known)) m

  abbrev other_side : String → Contradiction → String
  other_side c k = if k.claim_a == c then k.claim_b else k.claim_a

  opposing_claims-Known : (c : String) → Known db (opposing_claims db c)
  unfolding opposing_claims
  opposing_claims-Known c q m =
      let OtherKnown : Contradiction → Type 0 = λ k. has_claim db (other_side c k) ≡ true in
      let known =
        All-imp (IsLinkedContradiction db) OtherKnown db.contradictions
          (λ k l. elim (Bool-cases (k.claim_a == c)) [ inl a ↦ rw a l.1 | inr b ↦ rw b l.0 ])
          linked.contradictions in
      elem-column (λ x. has_claim db x ≡ true) (other_side c) _ q
        (All-filter OtherKnown _ db.contradictions known) m

  module _ (eval : Eval)
      (answers : (q : String) (m : Memo) → has_claim db q ≡ true → Answers (eval q m)) where
    check_premises-Answers :
        (qs : List String) (m : Memo) → Known db qs → Answers (check_premises eval qs m)
    unfolding check_premises elem
    check_premises-Answers [] m known = (([], m), refl)
    check_premises-Answers (q ∷ qs) m known =
        Answers->>= (eval q m) _ (answers q m (known q (ground (arith, eq_refl q))))
          λ (report, m1) _.
            Answers->>= (check_premises eval qs m1) _
              (check_premises-Answers qs m1 (λ x h. known x (ground arith))) λ a _. (_, refl)

    check_proofs-Answers : (ps : List Proof) (m : Memo) → Answers (check_proofs db eval ps m)
    unfolding check_proofs
    check_proofs-Answers [] m = (_, refl)
    check_proofs-Answers (p ∷ ps) m =
        Answers->>= (check_premises eval (premises_of db p.id) m) _
          (check_premises-Answers (premises_of db p.id) m (premises_of-Known p.id))
          λ (missing, m1) _.
            Answers->>= (check_proofs db eval ps m1) _ (check_proofs-Answers ps m1) λ a _. (_, refl)

    check_contradictions-Answers :
        (stack others : List String) (m : Memo)
        → Known db others
        → Answers (check_contradictions eval stack others m)
    unfolding check_contradictions elem
    check_contradictions-Answers stack [] m known = (_, refl)
    check_contradictions-Answers stack (other ∷ others) m known =
        let known_rest : Known db others = λ x h. known x (ground arith) in
        elim (Bool-cases (elem other stack)) [
          | inl on_stack ↦
              let (a, rest) = check_contradictions-Answers stack others m known_rest in
              (a, rw on_stack rest)
          | inr fresh ↦ rw fresh (
              Answers->>= (eval other m) _
                (answers other m (known other (ground (arith, eq_refl other))))
                λ (report, m1) _.
                  Answers->>= (check_contradictions eval stack others m1) _
                    (check_contradictions-Answers stack others m1 known_rest) λ a _. (_, refl))
        ]

    weigh-Answers :
        (stack : List String) (c : String) (m : Memo) → Answers (weigh policy db eval stack c m)
    unfolding weigh
    weigh-Answers stack c m =
        Answers->>= (check_proofs db eval (active_proofs db c) m) _
          (check_proofs-Answers (active_proofs db c) m)
          λ (checks, m1) _.
            Answers->>= (check_contradictions eval stack (opposing_claims db c) m1) _
              (check_contradictions-Answers stack (opposing_claims db c) m1
                (opposing_claims-Known c))
              λ a _. (_, refl)

    visit-Answers :
        (stack : List String) (c : String) (m : Memo)
        → has_claim db c ≡ true
        → Answers (visit policy db eval stack c m)
    unfolding visit
    visit-Answers stack c m known =
        Answers->>= (get_claim db c) _ (get_claim-Answers db c known) λ claim _.
          elim (Bool-cases (is_withdrawn claim.status)) [
            | inl gone ↦ rw gone (_, refl)
            | inr standing ↦ rw standing (weigh-Answers stack c m)
          ]

length-claim_ids : (rows : List Claim) → length (map (λ (r : Claim). r.id) rows) ≡ length rows
length-claim_ids [] = refl
length-claim_ids (r ∷ rows) = omega (arith, length-claim_ids rows)

-- Enough fuel for the claims that are not on the stack is enough.
evaluate_from-Answers :
    (fuel : ℕ) (policy : CommitPolicy) (db : Db) (linked : IsLinked db) (stack : List String)
    → missing stack (claim_ids db) < fuel
    → (c : String) (m : Memo) → has_claim db c ≡ true
    → Answers (evaluate_from fuel policy db c m stack)
unfolding evaluate_from
evaluate_from-Answers zero policy db linked stack enough c m known = absurd (omega arith)
evaluate_from-Answers (suc fuel) policy db linked stack enough c m known =
    elim (Option-cases (recall m c)) [
      | inr (r, hit) ↦ rw hit (_, refl)
      | inl fresh ↦ elim (Bool-cases (elem c stack)) [
        | inl cyclic ↦ rw (fresh, cyclic) (_, refl)
        | inr open_claim ↦
            let lower = missing-append_lt c stack (claim_ids db) known open_claim in
            rw (fresh, open_claim)
              (visit-Answers policy db linked
                (λ q k. evaluate_from fuel policy db q k (stack ++ c ∷ []))
                (evaluate_from-Answers fuel policy db linked (stack ++ c ∷ []) (omega arith)) stack
                c m known)
      ]
    ]

-- Over a ledger whose references all resolve, the engine reports on every claim of the ledger: its
-- recursion is never cut off, whatever cycles of proofs and contradictions there are.
pub evaluate-Answers :
    (policy : CommitPolicy) (db : Db) (c : String)
    → IsLinked db
    → has_claim db c ≡ true
    → (r : SupportReport) × (evaluate policy db c ≡ ok r)
unfolding evaluate
evaluate-Answers policy db c linked known =
    Answers->>= (evaluate_from (support_fuel db) policy db c [] []) _
      (evaluate_from-Answers (support_fuel db) policy db linked []
        (omega (arith, missing-le [] (claim_ids db), length-claim_ids db.claims)) c [] known)
      λ (r, m) _. (r, refl)
