-- ===== src/Discovery/Tests.antt =====
-- A run of the engine on two candidates, and the theorems at it.
use orbita_agent_research_se.Base.{
  ℕ, String, List, [], ◌∷◌, map, Memᴰ, Bool, true, false, some, ◌≡◌, refl, ◌↔◌, any, all, filter,
  ◌==◌, ltb, ok, err, arith,
}
use orbita_agent_research_se.Base.Json.{Json, ℤ, obj, empty, field, str, get_truthy}
use orbita_agent_research_se.Discovery.Core.{
  Status, Candidate, Verdict, Falsification, Finding, is_accepted, is_survivor, is_unscorable,
  withstood, survivors, examine,
}
use orbita_agent_research_se.Discovery.Core.Outcome.{
  survivors-exact, examine-survivor_iff, IsAccepted, IsAlive, IsDescending,
}
use orbita_agent_research_se.Discovery.Chain.{
  Formats, Ledger, VerifyError, open_ledger, run, line_of, verify_ledger,
}
use orbita_agent_research_se.Discovery.Chain.Entries.{IsChained, verify_ledger_iff}
use orbita_agent_research_se.Discovery.Chain.Verified.{candidates, run-verifies}

abbrev candidate : String → Candidate
candidate id = record { id = id; statement = id; payload = empty; parents = [] }

abbrev accept : Candidate → ℕ → Verdict ℕ
accept c e = record { status = Status.supported; score = 1; detail = empty }

-- kills every candidate but "a"
abbrev spare_a : Candidate → ℕ → Falsification ℕ
spare_a c e = record {
  name = "spare_a";
  killed = elim (c.id == "a") [ true ↦ false | false ↦ true ];
  metric = 0;
  detail = empty;
}

-- cannot be carried out on "c"
abbrev skip_c : Candidate → ℕ → Falsification ℕ
skip_c c e = record {
  name = "skip_c";
  killed = false;
  metric = 0;
  detail = elim (c.id == "c") [ true ↦ field "unscorable" (str "no model") empty | false ↦ empty ];
}

abbrev attacks : List (Candidate → ℕ → Falsification ℕ)
attacks = spare_a ∷ skip_c ∷ []

abbrev no_evidence : Candidate → ℕ
no_evidence c = 0

abbrev examined : Candidate → Finding ℕ
examined = examine no_evidence accept attacks

statuses :
    map (λ c. (examined (candidate c)).final_status) ("a" ∷ "b" ∷ "c" ∷ [])
    ≡ Status.supported ∷ Status.refuted ∷ Status.unscorable ∷ []
unfolding examine any is_unscorable filter get_truthy
statuses = refl

abbrev attack_list : Candidate → List (Falsification ℕ)
attack_list c = spare_a c 0 ∷ skip_c c 0 ∷ []

abbrev above : ℕ → ℕ → Bool
above a b = ltb b a

above_asym : (a b : ℕ) → above a b ≡ true → above b a ≡ false
above_asym a b h = ground arith

above_trans : (a b c : ℕ) → above a b ≡ false → above b c ≡ false → above a c ≡ false
above_trans a b c h k = ground arith

abbrev both : List (Finding ℕ)
both = map examined (candidate "a" ∷ candidate "b" ∷ [])

survivors-exact_example :
    (Memᴰ (examined (candidate "a")) (survivors above both) ↔ (
      Memᴰ (examined (candidate "a")) both
      × IsAccepted (examined (candidate "a")).final_status
      × IsAlive (examined (candidate "a"))))
    × IsDescending above (survivors above both)
survivors-exact_example =
    survivors-exact above above_asym above_trans (examined (candidate "a")) both

examine-survivor_iff_example :
    (is_survivor (examined (candidate "a")) ≡ true)
    ↔ ((is_accepted Status.supported ≡ true) × (all withstood (attack_list (candidate "a")) ≡ true))
examine-survivor_iff_example = examine-survivor_iff no_evidence accept attacks (candidate "a")

abbrev clock : ℕ → ℕ
clock n = n

-- texts are JSON values here, and a digest is the candidate's id
abbrev id_of : Json → String
id_of (obj (field _ (obj (field _ (str s) _)) _)) = s
id_of _ = ""

abbrev formats : Formats ℕ Json
formats = record {
  number = λ n. Json.int (ℤ.pos n);
  stamp = λ n. Json.int (ℤ.pos n);
  compact = λ v. v;
  dumps = λ v. v;
  loads = λ v. some v;
  is_blank = λ v. false;
  sha256 = id_of;
  same_other = λ v w. false;
}

abbrev ledger : Ledger ℕ Json
unfolding run
ledger = run formats examined clock (candidate "a" ∷ candidate "b" ∷ []) (open_ledger true)

abbrev lines : List Json
unfolding line_of ledger
lines = map (line_of formats) ledger.entries

verify_ledger_iff_example :
    (verify_ledger formats lines ≡ ok (true, [])) ↔ IsChained formats "GENESIS" lines
verify_ledger_iff_example = verify_ledger_iff formats lines

no_candidate :
    verify_ledger formats (obj (field "prev" (str "GENESIS") empty) ∷ [])
    ≡ err (VerifyError.missing_key "candidate")
unfolding verify_ledger
no_candidate = refl

no_dict : verify_ledger formats (str "GENESIS" ∷ []) ≡ err VerifyError.not_an_object
unfolding verify_ledger
no_dict = refl

run-verifies_example :
    (candidates
        (run formats examined clock (candidate "a" ∷ candidate "b" ∷ []) (open_ledger true)).entries
      ≡ candidates both)
    × ((run formats examined clock (candidate "a" ∷ candidate "b" ∷ []) (open_ledger true)).path
        ≡ some (
            map
              (line_of formats)
              (run formats examined clock
                (candidate "a" ∷ candidate "b" ∷ [])
                (open_ledger true)).entries))
    × (verify_ledger formats (
          map
            (line_of formats)
            (run formats examined clock
              (candidate "a" ∷ candidate "b" ∷ [])
              (open_ledger true)).entries)
        ≡ ok (true, []))
run-verifies_example =
    run-verifies formats (λ v. refl) (λ v. refl) examined clock (candidate "a" ∷ candidate "b" ∷ [])
