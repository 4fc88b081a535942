-- ===== src/Discovery/Core/Outcome.antt =====
-- What the statuses of findings say of the attacks, and which findings survive.
use orbita_agent_research_se.Base.{
  All, refl, Memᴰ-cons, Memᴰ-filter, List, [], ◌∷◌, map, Memᴰ, Bool, true, false, not, ◌&&◌, ◌≡◌,
  refl, ◌↔◌, ◌⊎◌, inl, inr, any, all, filter, arith, Bool-cases,
}
use orbita_agent_research_se.Discovery.Core.{
  Status, Candidate, Verdict, Falsification, Finding, is_unscorable, withstood, is_accepted,
  is_survivor, insert_finding, by_score, survivors, examine,
}

-- the status is one that `survivors` accepts
abbrev pub IsAccepted : Status → Type 0
IsAccepted s = (s ≡ Status.supported) ⊎ (s ≡ Status.challenged) ⊎ (s ≡ Status.provisional)

is_accepted-IsAccepted : (s : Status) → (is_accepted s ≡ true) ↔ IsAccepted s
is_accepted-IsAccepted Status.unscorable = (λ h. cc, λ h. ground arith)
is_accepted-IsAccepted Status.refuted = (λ h. cc, λ h. ground arith)
is_accepted-IsAccepted Status.unknown = (λ h. cc, λ h. ground arith)
is_accepted-IsAccepted Status.provisional = (λ h. inr (inr refl), λ h. refl)
is_accepted-IsAccepted Status.challenged = (λ h. inr (inl refl), λ h. refl)
is_accepted-IsAccepted Status.supported = (λ h. inl refl, λ h. refl)

module _ {Score : Type 0} where
  abbrev pub killed : Falsification Score → Bool
  killed x = x.killed

  all-withstood :
      (attacks : List (Falsification Score))
      → all withstood attacks ≡ (not (any is_unscorable attacks) && not (any killed attacks))
  unfolding all any
  all-withstood [] = refl
  all-withstood (x ∷ xs) = ground (arith, all-withstood xs)

  all-alive :
      (attacks : List (Falsification Score))
      → all (λ (x : Falsification Score). not x.killed) attacks ≡ not (any killed attacks)
  unfolding all any
  all-alive [] = refl
  all-alive (x ∷ xs) = ground (arith, all-alive xs)

  -- Sorting keeps the members.
  Memᴰ-insert_finding :
      (greater : Score → Score → Bool) (f g : Finding Score) (fs : List (Finding Score))
      → Memᴰ f (insert_finding greater g fs) ↔ ((f ≡ g) ⊎ Memᴰ f fs)
  unfolding insert_finding
  Memᴰ-insert_finding greater f g [] = Memᴰ-cons f g []
  Memᴰ-insert_finding greater f g (h ∷ hs) =
      elim (Bool-cases (greater h.verdict.score g.verdict.score)) [
        | inr first ↦ rw first (Memᴰ-cons f g (h ∷ hs))
        | inl later ↦
            let ih = Memᴰ-insert_finding greater f g hs in
            rw later (
              λ m. elim ((Memᴰ-cons f h _).0 m) [
                | inl e ↦ inr (Memᴰ.head e)
                | inr r ↦ elim (ih.0 r) [ inl e ↦ inl e | inr t ↦ inr (Memᴰ.tail t) ]
              ],
              λ d. elim d [
                | inl e ↦ Memᴰ.tail (ih.1 (inl e))
                | inr m ↦ elim ((Memᴰ-cons f h hs).0 m) [
                  | inl e ↦ Memᴰ.head e
                  | inr t ↦ Memᴰ.tail (ih.1 (inr t))
                ]
              ],
            )
      ]

  Memᴰ-by_score :
      (greater : Score → Score → Bool) (f : Finding Score) (fs : List (Finding Score))
      → Memᴰ f (by_score greater fs) ↔ Memᴰ f fs
  unfolding by_score
  Memᴰ-by_score greater f [] = (λ m. m, λ m. m)
  Memᴰ-by_score greater f (g ∷ gs) =
      let ih = Memᴰ-by_score greater f gs in
      let step = Memᴰ-insert_finding greater f g (by_score greater gs) in
      (
        λ m. elim (step.0 m) [ inl e ↦ Memᴰ.head e | inr t ↦ Memᴰ.tail (ih.0 t) ],
        λ m. step.1 (elim ((Memᴰ-cons f g gs).0 m) [ inl e ↦ inl e | inr t ↦ inr (ih.1 t) ]),
      )

  -- no attack killed it
  abbrev pub IsAlive : Finding Score → Type 0
  IsAlive f = All (λ (x : Falsification Score). x.killed ≡ false) f.falsifications

  -- each score is at least as great as all that follow
  abbrev pub IsDescending : (Score → Score → Bool) → List (Finding Score) → Type 0
  IsDescending greater [] = Unit
  IsDescending greater (f ∷ fs) =
      All (λ (g : Finding Score). greater g.verdict.score f.verdict.score ≡ false) fs
      × IsDescending greater fs

  all-alive_iff :
      (xs : List (Falsification Score))
      → (all (λ (x : Falsification Score). not x.killed) xs ≡ true)
        ↔ All (λ (x : Falsification Score). x.killed ≡ false) xs
  unfolding all
  all-alive_iff [] = (λ h. tt, λ h. refl)
  all-alive_iff (x ∷ xs) =
      let ih = all-alive_iff xs in
      (λ h. (ground arith, ih.0 (ground arith)), λ h. ground (arith, ih.1 h.1, h.0))

  is_survivor_iff :
      (f : Finding Score) → (is_survivor f ≡ true) ↔ (IsAccepted f.final_status × IsAlive f)
  unfolding is_survivor
  is_survivor_iff f =
      let status = is_accepted-IsAccepted f.final_status in
      let alive = all-alive_iff f.falsifications in
      (
        λ h. (status.0 (ground arith), alive.0 (ground arith)),
        λ h. ground (arith, status.1 h.0, alive.1 h.1),
      )

  module _ (greater : Score → Score → Bool)
      (asym : (a b : Score) → greater a b ≡ true → greater b a ≡ false)
      (trans : (a b c : Score)
        → greater a b ≡ false
        → greater b c ≡ false
        → greater a c ≡ false) where
    All-insert_finding :
        (P : Finding Score → Type 0) (f : Finding Score) (gs : List (Finding Score))
        → P f
        → All P gs
        → All P (insert_finding greater f gs)
    unfolding insert_finding
    All-insert_finding P f [] own h = (own, tt)
    All-insert_finding P f (g ∷ gs) own h =
        elim (Bool-cases (greater g.verdict.score f.verdict.score)) [
          | inl later ↦ rw later (h.0, All-insert_finding P f gs own h.1)
          | inr first ↦ rw first (own, h)
        ]

    All-least :
        (f g : Finding Score) (hs : List (Finding Score))
        → greater g.verdict.score f.verdict.score ≡ false
        → All (λ (x : Finding Score). greater x.verdict.score g.verdict.score ≡ false) hs
        → All (λ (x : Finding Score). greater x.verdict.score f.verdict.score ≡ false) hs
    All-least f g [] e h = tt
    All-least f g (x ∷ xs) e h =
        (trans x.verdict.score g.verdict.score f.verdict.score h.0 e, All-least f g xs e h.1)

    insert_finding-IsDescending :
        (f : Finding Score) (gs : List (Finding Score))
        → IsDescending greater gs
        → IsDescending greater (insert_finding greater f gs)
    unfolding insert_finding
    insert_finding-IsDescending f [] h = (tt, tt)
    insert_finding-IsDescending f (g ∷ gs) h =
        elim (Bool-cases (greater g.verdict.score f.verdict.score)) [
          | inl later ↦ rw later (
            All-insert_finding
                (λ (x : Finding Score). greater x.verdict.score g.verdict.score ≡ false) f gs
                (asym g.verdict.score f.verdict.score later) h.0,
            insert_finding-IsDescending f gs h.1,
          )
          | inr first ↦ rw first ((first, All-least f g gs first h.0), h)
        ]

    by_score-IsDescending : (fs : List (Finding Score)) → IsDescending greater (by_score greater fs)
    unfolding by_score
    by_score-IsDescending [] = tt
    by_score-IsDescending (f ∷ fs) =
        insert_finding-IsDescending f (by_score greater fs) (by_score-IsDescending fs)

    -- The survivors are exactly the entries whose status is supported, challenged or provisional and
    -- which no attack killed, and their scores do not increase, where `greater` orders the scores.
    pub survivors-exact :
        (f : Finding Score) (entries : List (Finding Score))
        → (Memᴰ f (survivors greater entries)
            ↔ (Memᴰ f entries × IsAccepted f.final_status × IsAlive f))
          × IsDescending greater (survivors greater entries)
    unfolding survivors
    survivors-exact f entries =
        let sort = Memᴰ-by_score greater f (filter is_survivor entries) in
        let keep = Memᴰ-filter is_survivor f entries in
        let own = is_survivor_iff f in
        (
          (
            λ m.
                let (member, passes) = keep.0 (sort.0 m) in
                (member, (own.0 passes).0, (own.0 passes).1),
            λ m. sort.1 (keep.1 (m.0, own.1 (m.1, m.2))),
          ),
          by_score-IsDescending (filter is_survivor entries),
        )

  module _ {Evidence : Type 0} (evidence_for : Candidate → Evidence)
      (judge : Candidate → Evidence → Verdict Score)
      (falsifiers : List (Candidate → Evidence → Falsification Score)) where
    abbrev attacks_on : Candidate → List (Falsification Score)
    attacks_on c = map (λ attack. attack c (evidence_for c)) falsifiers

    -- A candidate that the engine examines survives exactly when the judge's status is an accepted
    -- one and it withstood every attack: each one was carried out, and none killed it.
    pub examine-survivor_iff :
        (c : Candidate)
        → (is_survivor (examine evidence_for judge falsifiers c) ≡ true) ↔ (
            (is_accepted (judge c (evidence_for c)).status ≡ true)
            × (all withstood (attacks_on c) ≡ true))
    unfolding examine is_survivor
    examine-survivor_iff c = ground (arith, all-withstood (attacks_on c), all-alive (attacks_on c))
