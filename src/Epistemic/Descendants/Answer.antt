-- ===== src/Epistemic/Descendants/Answer.antt =====
-- What `descendants_of_claim` answers.
use orbita_agent_research_se.Base.{String, List, true, ◌≡◌, ◌↔◌, some, elem}
use orbita_agent_research_se.Base.Texts.{sorted, elem-sorted}
use orbita_agent_research_se.Epistemic.Tables.{Db}
use orbita_agent_research_se.Epistemic.Descendants.{descendants_of_claim, search_fuel}
use orbita_agent_research_se.Epistemic.Descendants.Reach.{Descends, search_sound_complete}
use orbita_agent_research_se.Epistemic.Descendants.Ends.{search_ends}

-- The search ends, and its answer holds exactly the claims that chains of active proofs conclude
-- from the claim, the claim itself only if a chain leads back to it.
pub descendants_of_claim-exact :
    (db : Db) (u : String)
    → (answer : List String) × (descendants_of_claim db u ≡ some answer)
      × ((x : String) → (elem x answer ≡ true) ↔ Descends db u x)
unfolding descendants_of_claim
descendants_of_claim-exact db u =
    let (found, ends) = search_ends db u in
    let exact = search_sound_complete (search_fuel db) db u ends in
    (
      sorted found,
      rw (ends, descendants_of_claim),
      λ x. (λ h. (exact x).0 (rw elem-sorted at h), λ d. rw elem-sorted ((exact x).1 d)),
    )
