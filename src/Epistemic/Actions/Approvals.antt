-- ===== src/Epistemic/Actions/Approvals.antt =====
-- src/orbita/actions.py: an approval is decided once.
use orbita_agent_research_se.Base.{
  ℕ, zero, suc, String, List, [], ◌∷◌, not, ◌&&◌, Result, ok, err, Bool-cases, ◌≡◌, refl, sym, ap,
  inl, inr, arith, ◌==◌,
}
use orbita_agent_research_se.Epistemic.Actions.{ActionError, not_pending, ApprovalRow, State}
use orbita_agent_research_se.Epistemic.Actions.Runtime.{decide, decided, approve, is_approved}

decide-decide :
    (id by now by' now' : String) (rows : List ApprovalRow)
    → decide id by' now' (decide id by now rows).1 ≡ (0, (decide id by now rows).1)
unfolding decide
decide-decide id by now by' now' [] = refl
decide-decide id by now by' now' (a ∷ rows) =
    let ih = decide-decide id by now by' now' rows in
    elim (Bool-cases (a.id == id && not (is_approved a.status))) [
      | inl waits ↦ ground (arith, ih)
      | inr other ↦ ground (arith, ih)
    ]

decided-ok :
    (n : ℕ) (rows : List ApprovalRow) (s t : State)
    → decided n rows s ≡ (ok tt, t)
    → t.approvals ≡ rows
decided-ok zero rows s t h = absurd (cc h)
decided-ok (suc zero) rows s t h =
    ap (λ (x : Result ActionError (Unit {0}) × State). x.1.approvals) (sym h)
decided-ok (suc (suc n)) rows s t h = absurd (cc h)

-- Once an approval was decided, deciding it again is refused and changes nothing.
pub approve-approve :
    (id by now by' now' : String) (s t : State)
    → approve id by now s ≡ (ok tt, t)
    → approve id by' now' t ≡ (err not_pending, t)
unfolding approve
approve-approve id by now by' now' s t h =
    let rows = decided-ok (decide id by now s.approvals).0 (decide id by now s.approvals).1 s t h in
    let none_left : decide id by' now' t.approvals ≡ (0, t.approvals) =
      rw rows (decide-decide id by now by' now' s.approvals) in
    rw none_left
