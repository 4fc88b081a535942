-- ===== src/Epistemic/Support/Warrant.antt =====
-- The support engine reports a claim as supported or challenged only if it is warranted.
use mathlib.Core.Path.{subst₂}
use orbita_agent_research_se.Base.{
  zero, suc, ◌++◌, String, List, [], ◌∷◌, Memᴰ, true, false, some, ok, >>=-eq-ok, ◌≡◌, refl, inl,
  inr, ◌==◌, eq_iff, elem, Bool-cases, arith, subst, sym, is_empty, List-cases, Result, ℕ, suc,
  Option-cases,
}
use orbita_agent_research_se.Epistemic.Models.{is_warranted, is_withdrawn}
use orbita_agent_research_se.Epistemic.Policy.{CommitPolicy}
use orbita_agent_research_se.Epistemic.Tables.{Claim, Proof, Db}
use orbita_agent_research_se.Epistemic.Support.{
  SupportReport, Memo, recall, remember, direct_supported, active_proofs, premises_of, Eval,
  check_premises, ProofCheck, check_proofs, check_contradictions, find_claim, final_report, weigh,
  get_claim, visit, opposing_claims, unsupported_report, evaluate_from, LedgerError, evaluate,
  support_fuel,
}

-- A warranted claim is in the ledger, neither rejected nor superseded, and either its direct
-- evidence meets the policy or the premises of one of its active proofs are all warranted.
pub data Warranted (policy : CommitPolicy) (db : Db) : String → Type 0 where
  direct :
      {c : String} (claim : Claim)
      → find_claim db c ≡ some claim
      → is_withdrawn claim.status ≡ false
      → direct_supported policy db c ≡ true
      → Warranted policy db c
  derived :
      {c : String} (claim : Claim)
      → find_claim db c ≡ some claim
      → is_withdrawn claim.status ≡ false
      → (p : Proof) → Memᴰ p (active_proofs db c)
      → ((q : String) → elem q (premises_of db p.id) ≡ true → Warranted policy db q)
      → Warranted policy db c

module _ (policy : CommitPolicy) (db : Db) where
  -- what the memo reports as warranted is warranted
  pub record IsSound (memo : Memo) : Type 0 where
    pub at :
        (c : String) (r : SupportReport)
        → recall memo c ≡ some r
        → is_warranted r.state ≡ true
        → Warranted policy db c

  -- one answer: the memo stays sound, and the report is right
  pub record Sound (c : String) (r : SupportReport) (memo : Memo) : Type 0 where
    pub memo_sound : IsSound memo
    pub report_sound : is_warranted r.state ≡ true → Warranted policy db c

  abbrev pub EvalSound : Eval → Type 0
  EvalSound eval =
      (q : String) (m m' : Memo) (r : SupportReport)
      → IsSound m
      → eval q m ≡ ok (r, m')
      → Sound q r m'

  remember-Sound :
      (c : String) (r : SupportReport) (memo : Memo)
      → IsSound memo
      → (is_warranted r.state ≡ true → Warranted policy db c)
      → Sound c r (remember c r memo)
  unfolding recall
  remember-Sound c r memo sound right = record {
    memo_sound = record {
      at = λ k s e w. elim (Bool-cases (c == k)) [
        | inl same ↦
            let r_is_s : some r ≡ some s = ground (arith) in
            subst (λ z. Warranted policy db z) ((eq_iff c k).0 same) (right (ground arith))
        | inr other ↦ sound.at k s (ground arith) w
      ];
    };
    report_sound = right;
  }

  -- a report that is refused at once
  refused-Sound :
      (c reason : String) (m m' : Memo) (r : SupportReport)
      → IsSound m
      → ◌≡◌ {A = Result LedgerError (SupportReport × Memo)}
          (ok (unsupported_report c reason, remember c (unsupported_report c reason) m))
          (ok (r, m'))
      → Sound c r m'
  unfolding unsupported_report
  refused-Sound c reason m m' r sound e =
      let report : SupportReport = unsupported_report c reason in
      let same_report : report ≡ r = cc in
      let same_memo : remember c report m ≡ m' = cc in
      subst₂ (Sound c) same_report same_memo (remember-Sound c report m sound (λ w. cc))

  abbrev AllWarranted : List String → Type 0
  AllWarranted qs = (q : String) → elem q qs ≡ true → Warranted policy db q

  AllWarranted-cons :
      (q : String) (qs : List String)
      → Warranted policy db q
      → AllWarranted qs
      → AllWarranted (q ∷ qs)
  unfolding elem
  AllWarranted-cons q qs w all x m = elim (Bool-cases (x == q)) [
    | inl same ↦ subst (λ z. Warranted policy db z) (sym ((eq_iff x q).0 same)) w
    | inr other ↦ all x (ground arith)
  ]

  module _ (eval : Eval) (right : EvalSound eval) where
    check_premises-IsSound :
        (qs : List String) (m m' : Memo) (missing : List String)
        → IsSound m
        → check_premises eval qs m ≡ ok (missing, m')
        → IsSound m' × (missing ≡ [] → AllWarranted qs)
    unfolding check_premises elem
    check_premises-IsSound [] m m' missing sound e =
        let same : m ≡ m' = cc in (subst IsSound same sound, λ _ q h. cc)
    check_premises-IsSound (q ∷ qs) m m' missing sound e =
        let ((report, m1), first, e1) = >>=-eq-ok (eval q m) _ e in
        let ((rest, m2), second, e2) = >>=-eq-ok (check_premises eval qs m1) _ e1 in
        let here = right q m m1 report sound first in
        let (sound2, there) = check_premises-IsSound qs m1 m2 rest here.memo_sound second in
        let same : m2 ≡ m' = cc in
        (
          subst IsSound same sound2,
          λ none_missing. elim (Bool-cases (is_warranted report.state)) [
            | inl w ↦
                let rest_empty : rest ≡ [] = ground (arith, e2) in
                AllWarranted-cons q qs (here.report_sound w) (there rest_empty)
            | inr w ↦ let no_rest : q ∷ rest ≡ [] = ground (arith, e2) in cc
          ],
        )

    -- Some proof of the list has all its premises warranted.
    abbrev HoldsIn : List Proof → Type 0
    HoldsIn ps = (p : Proof) × Memᴰ p ps × AllWarranted (premises_of db p.id)

    HoldsIn-tail : (p : Proof) (ps : List Proof) → HoldsIn ps → HoldsIn (p ∷ ps)
    HoldsIn-tail p ps (p', m, all) = (p', Memᴰ.tail m, all)

    check_proofs-IsSound :
        (ps : List Proof) (m m' : Memo) (checks : ProofCheck)
        → IsSound m
        → check_proofs db eval ps m ≡ ok (checks, m')
        → IsSound m' × (is_empty checks.satisfied ≡ false → HoldsIn ps)
    unfolding check_proofs
    check_proofs-IsSound [] m m' checks sound e =
        let same : m ≡ m' = cc in (subst IsSound same sound, λ h. ground (arith, e))
    check_proofs-IsSound (p ∷ ps) m m' checks sound e =
        let ((missing, m1), first, e1) =
          >>=-eq-ok (check_premises eval (premises_of db p.id) m) _ e in
        let ((rest, m2), second, e2) = >>=-eq-ok (check_proofs db eval ps m1) _ e1 in
        let (sound1, here) =
          check_premises-IsSound (premises_of db p.id) m m1 missing sound first in
        let (sound2, there) = check_proofs-IsSound ps m1 m2 rest sound1 second in
        let same : m2 ≡ m' = cc in
        (
          subst IsSound same sound2,
          λ some_satisfied. elim (List-cases missing) [
            | inl complete ↦ (p, Memᴰ.head refl, here complete)
            | inr (x, xs, broken) ↦ HoldsIn-tail p ps (there (ground (arith, e2)))
          ],
        )

    check_contradictions-IsSound :
        (stack others : List String) (m m' : Memo) (conflicts : List String)
        → IsSound m
        → check_contradictions eval stack others m ≡ ok (conflicts, m')
        → IsSound m'
    unfolding check_contradictions
    check_contradictions-IsSound stack [] m m' conflicts sound e =
        let same : m ≡ m' = cc in subst IsSound same sound
    check_contradictions-IsSound stack (other ∷ others) m m' conflicts sound e =
        elim (Bool-cases (elem other stack)) [
          | inl on_stack ↦
              check_contradictions-IsSound stack others m m' conflicts sound (rw on_stack at e)
          | inr fresh ↦
              let ((report, m1), first, e1) = >>=-eq-ok (eval other m) _ (rw fresh at e) in
              let ((rest, m2), second, e2) =
                >>=-eq-ok (check_contradictions eval stack others m1) _ e1 in
              let here = right other m m1 report sound first in
              let same : m2 ≡ m' = cc in
              subst IsSound same
                (check_contradictions-IsSound stack others m1 m2 rest here.memo_sound second)
        ]

    final_report-Warranted :
        (c : String) (claim : Claim) (checks : ProofCheck) (conflicts : List String)
        → find_claim db c ≡ some claim
        → is_withdrawn claim.status ≡ false
        → (is_empty checks.satisfied ≡ false → HoldsIn (active_proofs db c))
        → is_warranted (final_report policy db c checks conflicts).state ≡ true
        → Warranted policy db c
    unfolding final_report
    final_report-Warranted c claim checks conflicts found standing holds w =
        elim (Bool-cases (direct_supported policy db c)) [
          | inl now ↦ direct claim found standing now
          | inr later ↦
              let (p, m, all) = holds (ground arith) in derived claim found standing p m all
        ]

    weigh-Sound :
        (stack : List String) (c : String) (claim : Claim) (m m' : Memo) (r : SupportReport)
        → find_claim db c ≡ some claim
        → is_withdrawn claim.status ≡ false
        → IsSound m
        → weigh policy db eval stack c m ≡ ok (r, m')
        → Sound c r m'
    unfolding weigh
    weigh-Sound stack c claim m m' r found standing sound e =
        let ((checks, m1), first, e1) =
          >>=-eq-ok (check_proofs db eval (active_proofs db c) m) _ e in
        let ((conflicts, m2), second, e2) =
          >>=-eq-ok (check_contradictions eval stack (opposing_claims db c) m1) _ e1 in
        let (sound1, holds) = check_proofs-IsSound (active_proofs db c) m m1 checks sound first in
        let sound2 =
          check_contradictions-IsSound stack (opposing_claims db c) m1 m2 conflicts sound1 second in
        let report : SupportReport = final_report policy db c checks conflicts in
        let same_report : report ≡ r = cc in
        let same_memo : remember c report m2 ≡ m' = cc in
        subst₂ (Sound c) same_report same_memo (
          remember-Sound c report m2 sound2
            (final_report-Warranted c claim checks conflicts found standing holds))

    get_claim-found :
        (c : String) (claim : Claim) → get_claim db c ≡ ok claim → find_claim db c ≡ some claim
    unfolding get_claim
    get_claim-found c claim e = ground arith

    visit-Sound :
        (stack : List String) (c : String) (m m' : Memo) (r : SupportReport)
        → IsSound m
        → visit policy db eval stack c m ≡ ok (r, m')
        → Sound c r m'
    unfolding visit unsupported_report
    visit-Sound stack c m m' r sound e =
        let (claim, got, e1) = >>=-eq-ok (get_claim db c) _ e in
        let found = get_claim-found c claim got in
        elim (Bool-cases (is_withdrawn claim.status)) [
          | inl gone ↦ refused-Sound c _ m m' r sound (rw gone at e1)
          | inr standing ↦ weigh-Sound stack c claim m m' r found standing sound (rw standing at e1)
        ]

-- Every answer of the engine over a sound memo is sound, for any fuel and stack.
pub evaluate_from-Sound :
    (fuel : ℕ) (policy : CommitPolicy) (db : Db) (stack : List String)
    → (c : String) (m m' : Memo) (r : SupportReport) → IsSound policy db m
    → evaluate_from fuel policy db c m stack ≡ ok (r, m')
    → Sound policy db c r m'
unfolding evaluate_from
evaluate_from-Sound zero policy db stack c m m' r sound e = cc
evaluate_from-Sound (suc fuel) policy db stack c m m' r sound e = elim (Option-cases (recall m c)) [
  | inl fresh ↦
      let eval : Eval = λ q k. evaluate_from fuel policy db q k (stack ++ c ∷ []) in
      elim (Bool-cases (elem c stack)) [
        | inl cyclic ↦ refused-Sound policy db c _ m m' r sound (rw (fresh, cyclic) at e)
        | inr open_claim ↦
            visit-Sound policy db eval
              (λ q k k' s. evaluate_from-Sound fuel policy db (stack ++ c ∷ []) q k k' s) stack c m
              m' r sound (rw (fresh, open_claim) at e)
      ]
  | inr (known, hit) ↦
      let e' : ◌≡◌ {A = Result LedgerError (SupportReport × Memo)} (ok (known, m)) (ok (r, m')) =
        rw hit at e in
      let same_report : known ≡ r = cc in
      let same_memo : m ≡ m' = cc in
      subst₂ (Sound policy db c) same_report same_memo
        (record { memo_sound = sound; report_sound = λ w. sound.at c known hit w })
]

no_memo : (policy : CommitPolicy) (db : Db) → IsSound policy db []
unfolding recall
no_memo policy db = record { at = λ c r e w. cc }

-- A claim that `evaluate` reports as supported or challenged is warranted.
pub evaluate-Warranted :
    (policy : CommitPolicy) (db : Db) (c : String) (r : SupportReport)
    → evaluate policy db c ≡ ok r
    → is_warranted r.state ≡ true
    → Warranted policy db c
unfolding evaluate
evaluate-Warranted policy db c r e w =
    let ((report, memo), first, e1) =
      >>=-eq-ok (evaluate_from (support_fuel db) policy db c [] []) _ e in
    let same : report ≡ r = cc in
    (evaluate_from-Sound (support_fuel db) policy db [] c [] memo report (no_memo policy db)
        first).report_sound
      (rw same w)
