-- ===== src/Epistemic/Descendants/Ends.antt =====
-- The search of `descendants_of_claim` never runs out of fuel.
use orbita_agent_research_se.Base.{
  ℕ, zero, suc, ◌+◌, ◌≤◌, String, List, [], ◌∷◌, map, true, some, ◌≡◌, refl, arith, elem, eq_refl,
  length, length-append, missing, missing-le, missing-append_lt,
}
use orbita_agent_research_se.Epistemic.Tables.{Proof, ProofPremise, Db}
use orbita_agent_research_se.Epistemic.Descendants.{
  conclusions_from, children, Frontier, offer, enqueue, search_loop, search_fuel,
}

-- the claims that some proof concludes
abbrev conclusions : Db → List String
conclusions db = map (λ (p : Proof). p.conclusion_claim_id) db.proofs

conclusions_from_sub :
    (rows : List ProofPremise) (c x : String) (ps : List Proof)
    → elem x (conclusions_from rows c ps) ≡ true
    → elem x (map (λ (p : Proof). p.conclusion_claim_id) ps) ≡ true
unfolding conclusions_from elem
conclusions_from_sub rows c x [] h = h
conclusions_from_sub rows c x (p ∷ ps) h = ground (arith, conclusions_from_sub rows c x ps)

length-conclusions :
    (ps : List Proof) → length (map (λ (p : Proof). p.conclusion_claim_id) ps) ≡ length ps
length-conclusions [] = refl
length-conclusions (p ∷ ps) = omega (arith, length-conclusions ps)

-- what a frontier still costs: the claims that wait, and those that may come to wait
abbrev cost : List String → Frontier → ℕ
cost pool f = missing f.seen pool + length f.queue

offer-cost_le :
    (pool : List String) (r : String) (f : Frontier)
    → elem r pool ≡ true
    → cost pool (offer r f) ≤ cost pool f
unfolding offer
offer-cost_le pool r f h =
    ground (arith, missing-append_lt r f.seen pool, length-append f.queue (r ∷ []))

enqueue-cost_le :
    (pool rows : List String) (f : Frontier)
    → ((x : String) → elem x rows ≡ true → elem x pool ≡ true)
    → cost pool (enqueue rows f) ≤ cost pool f
unfolding enqueue elem
enqueue-cost_le pool [] f h = omega arith
enqueue-cost_le pool (r ∷ rows) f h =
    let first = offer-cost_le pool r f (h r (ground (arith, eq_refl r))) in
    let rest = enqueue-cost_le pool rows (offer r f) (λ x m. h x (ground arith)) in omega arith

search_loop-total :
    (fuel : ℕ) (db : Db) (seen queue : List String)
    → cost (conclusions db) (record { seen = seen; queue = queue }) ≤ fuel
    → (found : List String) × (search_loop fuel db seen queue ≡ some found)
unfolding search_loop
search_loop-total fuel db seen [] h = (seen, refl)
search_loop-total zero db seen (c ∷ queue) h = absurd (omega arith)
search_loop-total (suc fuel) db seen (c ∷ queue) h = search_loop-total fuel db _ _ (
    unfold children in
    let step =
      enqueue-cost_le (conclusions db) (children db c) (record { seen = seen; queue = queue })
        (λ x. conclusions_from_sub db.proof_premises c x db.proofs) in
    omega arith)

pub search_ends :
    (db : Db) (u : String)
    → (found : List String) × (search_loop (search_fuel db) db [] (u ∷ []) ≡ some found)
search_ends db u =
    search_loop-total (search_fuel db) db [] (u ∷ [])
      (omega (arith, missing-le [] (conclusions db), length-conclusions db.proofs))
