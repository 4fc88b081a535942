-- ===== src/Epistemic/Descendants/Reach.antt =====
-- The search of `descendants_of_claim` finds the claims that descend from a claim, and ends.
use orbita_agent_research_se.Base.{zero, ◌↔◌, eq_refl, ℕ, suc}
use mathlib.Core.Option.{some}
use orbita_agent_research_se.Base.{
  String, List, [], ◌∷◌, true, ◌||◌, ◌≡◌, ◌⊎◌, inl, inr, arith, elem, elem-append, ◌==◌, eq_iff,
  Bool-cases, subst, sym,
}
use orbita_agent_research_se.Epistemic.Tables.{Db}
use orbita_agent_research_se.Epistemic.Descendants.{children, Frontier, enqueue, offer, search_loop}

-- `v` is concluded from `u` by one active proof or by a chain of them
pub data Descends (db : Db) (u : String) : String → Type 0 where
  child : {v : String} → elem v (children db u) ≡ true → Descends db u v
  further : {v w : String} → Descends db u v → elem w (children db v) ≡ true → Descends db u w

elem-seen-offer :
    (x r : String) (f : Frontier) → elem x (offer r f).seen ≡ (elem x f.seen || x == r)
unfolding offer elem
elem-seen-offer x r f = ground (arith, eq_iff x r, elem-append x f.seen (r ∷ []))

elem-seen-enqueue :
    (x : String) (rows : List String) (f : Frontier)
    → elem x (enqueue rows f).seen ≡ (elem x f.seen || elem x rows)
unfolding enqueue elem
elem-seen-enqueue x [] f = ground arith
elem-seen-enqueue x (r ∷ rows) f =
    ground (arith, elem-seen-enqueue x rows (offer r f), elem-seen-offer x r f)

-- What waited waits; what is seen was seen before or waits; what waits waited before or is a row.
record Covers (x : String) (rows : List String) (f g : Frontier) : Type 0 where
  keeps : elem x f.queue ≡ true → elem x g.queue ≡ true
  waits : elem x g.seen ≡ true → (elem x f.seen ≡ true) ⊎ (elem x g.queue ≡ true)
  comes : elem x g.queue ≡ true → (elem x f.queue ≡ true) ⊎ (elem x rows ≡ true)

offer-Covers : (x r : String) (f : Frontier) → Covers x (r ∷ []) f (offer r f)
unfolding offer elem
offer-Covers x r f =
    let seen = elem-append x f.seen (r ∷ []) in
    let queue = elem-append x f.queue (r ∷ []) in
    record {
      keeps = ground (arith, queue);
      waits = ground (arith, seen, queue);
      comes = ground (arith, queue);
    }

enqueue-Covers : (x : String) (rows : List String) (f : Frontier) → Covers x rows f (enqueue rows f)
unfolding enqueue elem
enqueue-Covers x [] f = record { keeps = λ h. h; waits = inl; comes = inl }
enqueue-Covers x (r ∷ rows) f =
    let first = offer-Covers x r f in
    let rest = enqueue-Covers x rows (offer r f) in
    record {
      keeps = λ h. rest.keeps (first.keeps h);
      waits = λ h. elim (rest.waits h) [
        | inl a ↦ elim (first.waits a) [ inl b ↦ inl b | inr b ↦ inr (rest.keeps b) ]
        | inr b ↦ inr b
      ];
      comes = λ h. elim (rest.comes h) [
        | inl a ↦ elim (first.comes a) [ inl b ↦ inl b | inr b ↦ inr (ground arith) ]
        | inr b ↦ inr (ground arith)
      ];
    }

-- Between the rounds of the loop.
record Invariant (db : Db) (u : String) (seen queue : List String) : Type 0 where
  seen_sound : (x : String) → elem x seen ≡ true → Descends db u x
  queue_sound : (x : String) → elem x queue ≡ true → (x ≡ u) ⊎ Descends db u x
  root_done :
      (elem u queue ≡ true) ⊎ ((y : String) → elem y (children db u) ≡ true → elem y seen ≡ true)
  seen_done :
      (x : String)
      → elem x seen ≡ true
      → (elem x queue ≡ true) ⊎ ((y : String) → elem y (children db x) ≡ true → elem y seen ≡ true)

child_of :
    {db : Db} {u v w : String}
    → (v ≡ u) ⊎ Descends db u v
    → elem w (children db v) ≡ true
    → Descends db u w
child_of {db} {w = w} (inl e) h = child (subst (λ z. elem w (children db z) ≡ true) e h)
child_of (inr d) h = further d h

module _ (db : Db) (u c : String) (seen queue : List String) where
  abbrev next : Frontier
  next = enqueue (children db c) (record { seen = seen; queue = queue })

  abbrev start : Frontier
  start = record { seen = seen; queue = queue }

  abbrev Done : String → List String → Type 0
  Done x found = (y : String) → elem y (children db x) ≡ true → elem y found ≡ true

  grown : (x : String) → elem x seen ≡ true → elem x next.seen ≡ true
  grown x h = ground (arith, elem-seen-enqueue x (children db c) start)

  current-Done : Done c next.seen
  current-Done y h = ground (arith, elem-seen-enqueue y (children db c) start)

  waiting_or_Done :
      (x : String)
      → (elem x (c ∷ queue) ≡ true) ⊎ Done x seen
      → (elem x next.queue ≡ true) ⊎ Done x next.seen
  unfolding elem
  waiting_or_Done x (inr d) = inr (λ y h. grown y (d y h))
  waiting_or_Done x (inl h) = elim (Bool-cases (x == c)) [
    | inl same ↦ inr (subst (λ z. Done z next.seen) (sym ((eq_iff x c).0 same)) current-Done)
    | inr other ↦ inl ((enqueue-Covers x (children db c) start).keeps (ground arith))
  ]

  round-Invariant : Invariant db u seen (c ∷ queue) → Invariant db u next.seen next.queue
  unfolding elem
  round-Invariant inv =
      let from_root : (c ≡ u) ⊎ Descends db u c = inv.queue_sound c (ground (arith, eq_refl c)) in
      record {
        seen_sound = λ x h. elim (Bool-cases (elem x seen)) [
          | inl old ↦ inv.seen_sound x old
          | inr new ↦ child_of from_root (ground (arith, elem-seen-enqueue x (children db c) start))
        ];
        queue_sound = λ x h. elim ((enqueue-Covers x (children db c) start).comes h) [
          | inl old ↦ inv.queue_sound x (ground arith)
          | inr row ↦ inr (child_of from_root row)
        ];
        root_done = waiting_or_Done u inv.root_done;
        seen_done = λ x h. elim ((enqueue-Covers x (children db c) start).waits h) [
          | inl old ↦ waiting_or_Done x (inv.seen_done x old)
          | inr waits ↦ inl waits
        ];
      }

start-Invariant : (db : Db) (u : String) → Invariant db u [] (u ∷ [])
unfolding elem
start-Invariant db u = record {
  seen_sound = λ x h. cc;
  queue_sound = λ x h. inl ((eq_iff x u).0 (ground arith));
  root_done = inl (ground (arith, eq_refl u));
  seen_done = λ x h. cc;
}

end_complete :
    {db : Db} {u x : String} (seen : List String)
    → Invariant db u seen []
    → Descends db u x
    → elem x seen ≡ true
unfolding elem
end_complete {x = x} seen inv (child h) = elim inv.root_done [ inl w ↦ cc | inr d ↦ d x h ]
end_complete {x = x} seen inv (further {v = v} r h) =
    elim (inv.seen_done v (end_complete seen inv r)) [ inl w ↦ cc | inr d ↦ d x h ]

search_loop-Invariant :
    (fuel : ℕ) (db : Db) (u : String) (seen queue : List String) {found : List String}
    → Invariant db u seen queue
    → search_loop fuel db seen queue ≡ some found
    → Invariant db u found []
unfolding search_loop
search_loop-Invariant fuel db u seen [] {found} inv e =
    let same : seen ≡ found = cc in subst (λ l. Invariant db u l []) same inv
search_loop-Invariant zero db u seen (c ∷ queue) inv e = cc
search_loop-Invariant (suc fuel) db u seen (c ∷ queue) inv e =
    search_loop-Invariant fuel db u _ _ (round-Invariant db u c seen queue inv) e

pub search_sound_complete :
    (fuel : ℕ) (db : Db) (u : String) {found : List String}
    → search_loop fuel db [] (u ∷ []) ≡ some found
    → (x : String) → (elem x found ≡ true) ↔ Descends db u x
search_sound_complete fuel db u {found} e x =
    let inv = search_loop-Invariant fuel db u [] (u ∷ []) (start-Invariant db u) e in
    (inv.seen_sound x, end_complete found inv)
