-- ===== src/Discovery/Chain/Verified.antt =====
-- `verify_ledger` accepts what the engine writes.
use mathlib.Core.Option
use mathlib.Core.List.{map-append, append_assoc, append-nil}
use orbita_agent_research_se.Base.{
  ℕ, suc, String, List, [], ◌∷◌, ◌++◌, true, false, some, map, ok, ◌≡◌, refl, sym, ap, ◌∙◌, inl,
  inr, subst, ◌⊎◌,
}
use orbita_agent_research_se.Base.Canonical.{sort_keys, sort_fields, insert_field, sort_keys_idem}
use orbita_agent_research_se.Base.Json.{Json, str, arr, obj, Fields, empty, field, get}
use orbita_agent_research_se.Discovery.Core.{Candidate, Finding}
use orbita_agent_research_se.Discovery.Chain.{
  Formats, Ledger, open_ledger, candidate_document, verdict_document, falsification_items,
  status_name, texts, finding_body, digest, linked_finding, line_of, append, run, verify_ledger,
}
use orbita_agent_research_se.Discovery.Chain.Entries.{IsEntry, IsChained, verify_ledger_iff}

-- a dict of the six keys of a body
six_keys : Json → Json → Json → Json → Json → Json → Fields → Fields
six_keys c v f s u p rest = field "candidate" c (
    field "verdict" v (
      field "falsifications" f (field "final_status" s (field "survived" u (field "prev" p rest)))))

-- Sorting the keys of a dict whose values are sorted gives what sorting those of the dict gives.
sort_keys-six_keys :
    (c v f s u p : Json)
    → sort_keys (
        obj (
          six_keys
            (sort_keys c)
            (sort_keys v)
            (sort_keys f)
            (sort_keys s)
            (sort_keys u)
            (sort_keys p)
            empty))
      ≡ sort_keys (obj (six_keys c v f s u p empty))
unfolding sort_keys sort_fields six_keys
sort_keys-six_keys c v f s u p =
    rw
      (
        sort_keys_idem c,
        sort_keys_idem v,
        sort_keys_idem f,
        sort_keys_idem s,
        sort_keys_idem u,
        sort_keys_idem p,
      )
      refl

pub candidates : {Score : Type 0} → List (Finding Score) → List Candidate
candidates {Score} fs = map (λ (f : Finding Score). f.candidate) fs

module _ {Score Text : Type 0} (io : Formats Score Text) where
  -- a line from which a record of a body and two further keys is read
  read-IsEntry :
      (c v f s u : Json) (previous hash : String) (time : Json) (line : Text)
      → io.is_blank line ≡ false
      → io.loads line
        ≡ some (
            sort_keys (
              obj (
                six_keys c v f s u
                  (str previous)
                  (field "sha256" (str hash) (field "ts" time empty)))))
      → hash ≡ digest io (six_keys c v f s u (str previous) empty)
      → IsEntry io previous line hash
  unfolding six_keys sort_keys sort_fields insert_field get
  read-IsEntry c v f s u previous hash time line written loaded hashed = record {
    d =
        sort_fields
          (six_keys c v f s u (str previous) (field "sha256" (str hash) (field "ts" time empty)));
    candidate = sort_keys c;
    verdict = sort_keys v;
    falsifications = sort_keys f;
    final_status = sort_keys s;
    survived = sort_keys u;
    written = written;
    loaded = loaded;
    has_candidate = refl;
    has_verdict = refl;
    has_falsifications = refl;
    has_final_status = refl;
    has_survived = refl;
    has_prev = refl;
    has_sha256 = refl;
    hashed =
        hashed
        ∙ ap (λ (j : Json). io.sha256 (io.compact j))
            (sym (sort_keys-six_keys c v f s u (str previous)));
  }

  -- a chain of records whose last hash is `last`
  abbrev EndsIn : String → String → List Text → Type 0
  EndsIn last previous [] = last ≡ previous
  EndsIn last previous (line ∷ lines) =
      ((io.is_blank line ≡ true) × EndsIn last previous lines)
      ⊎ (hash : String) × IsEntry io previous line hash × EndsIn last hash lines

  EndsIn-IsChained :
      (last previous : String) (lines : List Text)
      → EndsIn last previous lines
      → IsChained io previous lines
  EndsIn-IsChained last previous [] c = tt
  EndsIn-IsChained last previous (line ∷ lines) (inl (blank, c)) =
      inl (blank, EndsIn-IsChained last previous lines c)
  EndsIn-IsChained last previous (line ∷ lines) (inr (hash, entry, c)) =
      inr (hash, entry, EndsIn-IsChained last hash lines c)

  EndsIn-concat :
      (last previous : String) (lines : List Text) (line : Text) (hash : String)
      → EndsIn last previous lines
      → IsEntry io last line hash
      → EndsIn hash previous (lines ++ line ∷ [])
  EndsIn-concat last previous [] line hash c entry =
      inr (hash, subst (λ (p : String). IsEntry io p line hash) c entry, refl)
  EndsIn-concat last previous (l ∷ lines) line hash (inl (blank, c)) entry =
      inl (blank, EndsIn-concat last previous lines line hash c entry)
  EndsIn-concat last previous (l ∷ lines) line hash (inr (h, first, c)) entry =
      inr (h, first, EndsIn-concat last h lines line hash c entry)

  -- a ledger with a file: its lines are those of the findings, and they end in the hash that the
  -- next one will name
  record IsRecorded (l : Ledger Score Text) : Type 0 where
    written : l.path ≡ some (map (line_of io) l.entries)
    chained : EndsIn l.prev "GENESIS" (map (line_of io) l.entries)

  module _ (read : (v : Json) → io.loads (io.dumps (sort_keys v)) ≡ some (sort_keys v))
      (shown : (v : Json) → io.is_blank (io.dumps v) ≡ false) where
    linked-IsEntry :
        (now : ℕ) (previous : String) (f : Finding Score)
        → IsEntry io previous
            (line_of io (linked_finding io now previous f))
            (linked_finding io now previous f).sha256
    unfolding line_of linked_finding finding_body six_keys
    linked-IsEntry now previous f =
        read-IsEntry (candidate_document f.candidate) (verdict_document io f.verdict)
          (arr (falsification_items io f.falsifications)) (str (status_name f.final_status))
          (arr (texts f.survived)) previous (linked_finding io now previous f).sha256 (io.stamp now)
          _ (shown _)
          (read (
            obj (
              finding_body io (linked_finding io now previous f) (
                field "sha256" (str (linked_finding io now previous f).sha256)
                  (field "ts" (io.stamp now) empty)))))
          refl

    append-IsRecorded :
        (now : ℕ) (f : Finding Score) (l : Ledger Score Text)
        → IsRecorded l
        → IsRecorded (append io now f l)
    unfolding append
    append-IsRecorded now f l r =
        let f' = linked_finding io now l.prev f in
        let lines = map-append (line_of io) l.entries (f' ∷ []) in
        record {
          written =
              ap (Option.map (λ ls. ls ++ line_of io f' ∷ [])) r.written ∙ ap some (sym lines);
          chained = subst (EndsIn f'.sha256 "GENESIS") (sym lines) (
              EndsIn-concat l.prev "GENESIS" (map (line_of io) l.entries) (line_of io f') f'.sha256
                r.chained (linked-IsEntry now l.prev f));
        }

    run-IsRecorded :
        (examined : Candidate → Finding Score) (clock : ℕ → ℕ) (cs : List Candidate)
        (l : Ledger Score Text)
        → IsRecorded l
        → IsRecorded (run io examined clock cs l)
    unfolding run
    run-IsRecorded examined clock [] l r = r
    run-IsRecorded examined clock (c ∷ cs) l r =
        run-IsRecorded examined (λ n. clock (suc n)) cs _
          (append-IsRecorded (clock 0) (examined c) l r)

  run-candidates :
      (examined : Candidate → Finding Score) (clock : ℕ → ℕ) (cs : List Candidate)
      (l : Ledger Score Text)
      → candidates (run io examined clock cs l).entries
        ≡ candidates l.entries ++ candidates (map examined cs)
  unfolding run append linked_finding candidates
  run-candidates examined clock [] l = sym (append-nil (candidates l.entries))
  run-candidates examined clock (c ∷ cs) l =
      run-candidates examined (λ n. clock (suc n)) cs (append io (clock 0) (examined c) l)
      ∙ ap (λ (x : List Candidate). x ++ candidates (map examined cs))
          (map-append (λ (f : Finding Score). f.candidate) l.entries
            (linked_finding io (clock 0) l.prev (examined c) ∷ []))
      ∙ append_assoc (candidates l.entries) ((examined c).candidate ∷ [])
          (candidates (map examined cs))

  -- If `json.loads` reads what `json.dumps` wrote of a value with sorted keys, and such a text is
  -- not blank, then a run on an empty ledger with a file records the candidates in their order, and
  -- the file holds one line for each entry and passes `verify_ledger`, whatever the judge and the
  -- attacks find.
  pub run-verifies :
      ((v : Json) → io.loads (io.dumps (sort_keys v)) ≡ some (sort_keys v))
      → ((v : Json) → io.is_blank (io.dumps v) ≡ false)
      → (examined : Candidate → Finding Score) (clock : ℕ → ℕ) (cs : List Candidate)
      → (candidates (run io examined clock cs (open_ledger true)).entries
          ≡ candidates (map examined cs))
        × ((run io examined clock cs (open_ledger true)).path
            ≡ some (map (line_of io) (run io examined clock cs (open_ledger true)).entries))
        × (verify_ledger io (map (line_of io) (run io examined clock cs (open_ledger true)).entries)
            ≡ ok (true, []))
  unfolding candidates
  run-verifies read shown examined clock cs =
      let r =
        run-IsRecorded read shown examined clock cs (open_ledger true)
          (record { written = refl; chained = refl }) in
      (
        run-candidates examined clock cs (open_ledger true),
        r.written,
        (verify_ledger_iff io _).1 (EndsIn-IsChained _ "GENESIS" _ r.chained),
      )
