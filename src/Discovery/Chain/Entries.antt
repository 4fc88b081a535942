-- ===== src/Discovery/Chain/Entries.antt =====
-- What `verify_ledger` accepts: a chain of records.
use orbita_agent_research_se.Base.{
  ℕ, suc, String, List, [], ◌∷◌, ◌++◌, Bool, true, false, not, Option, none, some, ok, ◌>>=◌,
  >>=-eq-ok, ok-result, ◌≡◌, refl, sym, ap, ◌∙◌, ◌↔◌, ◌⊎◌, inl, inr, eq_iff, eq_refl, arith,
  Bool-cases, Option-cases,
}
use orbita_agent_research_se.Base.Json.{
  Json, null, bool, int, float, str, arr, obj, Fields, empty, field, get,
}
use orbita_agent_research_se.Discovery.Chain.{
  Formats, ChainError, prev_mismatch, hash_mismatch, body_keys, pick, value_or, error_if, equal,
  digest, verify_record, verify_loaded, verify_line, verify_from, verify_ledger,
}

-- what `pick` takes
Picked : List String → Fields → Fields → Type 0
Picked [] d body = body ≡ empty
Picked (k ∷ ks) d body =
    (v : Json) × (rest : Fields) × (get d k ≡ some v) × Picked ks d rest × (body ≡ field k v rest)

pick-Picked : (ks : List String) (d body : Fields) → pick ks d ≡ ok body → Picked ks d body
unfolding pick Picked
pick-Picked [] d body h = sym (ok-result h)
pick-Picked (k ∷ ks) d body h = elim (Option-cases (get d k)) [
  | inl missing ↦ absurd (ground arith)
  | inr (v, found) ↦
      let h' : (pick ks d >>= λ rest. ok (field k v rest)) ≡ ok body = rw found at h in
      let (rest, picked, built) = >>=-eq-ok (pick ks d) _ h' in
      (v, rest, found, pick-Picked ks d rest picked, sym (ok-result built))
]

abbrev text : Option Json → String
text (some (str s)) = s
text _ = ""

equal-str :
    (other : Json → Json → Bool) (o : Option Json) (s : String)
    → (equal other (value_or o null) (str s) ≡ true) ↔ (o ≡ some (str s))
equal-str other none s = (λ h. cc, λ h. cc)
equal-str other (some (str t)) s =
    (λ h. ap (λ (x : String). some (str x)) ((eq_iff t s).0 h), λ h. (eq_iff t s).1 (ap text h))
equal-str other (some null) s = (λ h. cc, λ h. cc)
equal-str other (some (bool b)) s = (λ h. cc, λ h. cc)
equal-str other (some (int n)) s = (λ h. cc, λ h. cc)
equal-str other (some (float x)) s = (λ h. cc, λ h. cc)
equal-str other (some (arr xs)) s = (λ h. cc, λ h. cc)
equal-str other (some (obj d)) s = (λ h. cc, λ h. cc)

append_empty : (xs ys : List ChainError) → xs ++ ys ≡ [] → (xs ≡ []) × (ys ≡ [])
append_empty [] ys h = (refl, h)
append_empty (x ∷ xs) ys h = absurd (cc h)

module _ {Score Text : Type 0} (io : Formats Score Text) where
  -- A line that is the record of a finding: it holds the six keys of the body, names the entry
  -- before, and carries the digest of its body.
  pub record IsEntry (previous : String) (line : Text) (hash : String) : Type 0 where
    pub d : Fields
    pub candidate : Json
    pub verdict : Json
    pub falsifications : Json
    pub final_status : Json
    pub survived : Json
    pub written : io.is_blank line ≡ false
    pub loaded : io.loads line ≡ some (obj d)
    pub has_candidate : get d "candidate" ≡ some candidate
    pub has_verdict : get d "verdict" ≡ some verdict
    pub has_falsifications : get d "falsifications" ≡ some falsifications
    pub has_final_status : get d "final_status" ≡ some final_status
    pub has_survived : get d "survived" ≡ some survived
    pub has_prev : get d "prev" ≡ some (str previous)
    pub has_sha256 : get d "sha256" ≡ some (str hash)
    pub hashed :
        hash
        ≡ digest io (
            field "candidate" candidate (
              field "verdict" verdict (
                field "falsifications" falsifications (
                  field "final_status" final_status
                    (field "survived" survived (field "prev" (str previous) empty))))))

  -- Every line is blank or the record of a finding that names the one before.
  abbrev pub IsChained : String → List Text → Type 0
  IsChained previous [] = Unit
  IsChained previous (line ∷ lines) =
      ((io.is_blank line ≡ true) × IsChained previous lines)
      ⊎ (hash : String) × IsEntry previous line hash × IsChained hash lines

  loaded-record :
      (n : ℕ) (previous next : Json) (o : Option Json)
      → verify_loaded io n previous o ≡ ok ([], next)
      → (d : Fields) × (o ≡ some (obj d)) × (verify_record io n previous d ≡ ok ([], next))
  unfolding verify_loaded
  loaded-record n previous next none h = absurd (cc h)
  loaded-record n previous next (some null) h = absurd (cc h)
  loaded-record n previous next (some (bool b)) h = absurd (cc h)
  loaded-record n previous next (some (int i)) h = absurd (cc h)
  loaded-record n previous next (some (float x)) h = absurd (cc h)
  loaded-record n previous next (some (str s)) h = absurd (cc h)
  loaded-record n previous next (some (arr xs)) h = absurd (cc h)
  loaded-record n previous next (some (obj d)) h = (d, refl, h)

  errors_none :
      (a b : Bool) (n : ℕ)
      → error_if (not a) (prev_mismatch n) ++ error_if (not b) (hash_mismatch n) ≡ []
      → (a ≡ true) × (b ≡ true)
  errors_none true true n h = (refl, refl)
  errors_none true false n h = absurd (cc h)
  errors_none false b n h = absurd (cc h)

  record-IsEntry :
      (n : ℕ) (previous : String) (line : Text) (next : Json) (d : Fields)
      → io.is_blank line ≡ false
      → io.loads line ≡ some (obj d)
      → verify_record io n (str previous) d ≡ ok ([], next)
      → (hash : String) × IsEntry previous line hash × (next ≡ str hash)
  unfolding verify_record Picked
  record-IsEntry n previous line next d blank loaded h =
      let (body, picked, h1) = >>=-eq-ok (pick body_keys d) _ h in
      let pair = ok-result h1 in
      let (prev_same, hash_same) =
        errors_none (equal io.same_other (value_or (get d "prev") null) (str previous))
          (equal io.same_other (value_or (get d "sha256") null) (str (digest io body))) n
          (ap (λ (x : List ChainError × Json). x.0) pair) in
      let has_prev = (equal-str io.same_other (get d "prev") previous).0 prev_same in
      let has_hash = (equal-str io.same_other (get d "sha256") (digest io body)).0 hash_same in
      let (
        c,
        r1,
        has_c,
        (
          v,
          r2,
          has_v,
          (f, r3, has_f, (s, r4, has_s, (u, r5, has_u, (p, r6, has_p, nothing, e6), e5), e4), e3),
          e2,
        ),
        e1,
      ) =
        pick-Picked body_keys d body picked in
      let next_is : next ≡ str (digest io body) =
        sym (ap (λ (x : List ChainError × Json). x.1) pair)
        ∙ ap (λ (o : Option Json). value_or o (str "")) has_hash in
      let same : p ≡ str previous = cc in
      let built : body
          ≡ field "candidate" c (
              field "verdict" v (
                field "falsifications" f (
                  field "final_status" s
                    (field "survived" u (field "prev" (str previous) empty))))) =
        cc in
      (
        digest io body,
        record {
          d = d;
          candidate = c;
          verdict = v;
          falsifications = f;
          final_status = s;
          survived = u;
          written = blank;
          loaded = loaded;
          has_candidate = has_c;
          has_verdict = has_v;
          has_falsifications = has_f;
          has_final_status = has_s;
          has_survived = has_u;
          has_prev = has_prev;
          has_sha256 = has_hash;
          hashed = ap (digest io) built;
        },
        next_is,
      )

  IsEntry-verify_line :
      (n : ℕ) (previous : String) (line : Text) (hash : String)
      → IsEntry previous line hash
      → verify_line io n (str previous) line ≡ ok ([], str hash)
  unfolding verify_line verify_loaded verify_record pick
  IsEntry-verify_line n previous line hash e =
      let same = eq_refl hash in
      rw
        (
          e.written,
          e.loaded,
          e.has_candidate,
          e.has_verdict,
          e.has_falsifications,
          e.has_final_status,
          e.has_survived,
          e.has_prev,
          e.has_sha256,
          eq_refl previous,
          sym e.hashed,
          same,
        )
        refl

  line_cases :
      (n : ℕ) (previous : String) (line : Text) (next : Json)
      → verify_line io n (str previous) line ≡ ok ([], next)
      → ((io.is_blank line ≡ true) × (next ≡ str previous))
        ⊎ ((hash : String) × IsEntry previous line hash × (next ≡ str hash))
  unfolding verify_line
  line_cases n previous line next h = elim (Bool-cases (io.is_blank line)) [
    | inl blank ↦
        inl (blank, sym (ap (λ (x : List ChainError × Json). x.1) (ok-result (rw blank at h))))
    | inr written ↦
        let h' : verify_loaded io n (str previous) (io.loads line) ≡ ok ([], next) =
          rw written at h in
        let (d, loaded, verified) = loaded-record n (str previous) next (io.loads line) h' in
        inr (record-IsEntry n previous line next d written loaded verified)
  ]

  verify_from-IsChained :
      (n : ℕ) (previous : String) (lines : List Text)
      → verify_from io n (str previous) lines ≡ ok []
      → IsChained previous lines
  unfolding verify_from
  verify_from-IsChained n previous [] h = tt
  verify_from-IsChained n previous (line ∷ lines) h =
      let ((errors, next), verified, h1) = >>=-eq-ok (verify_line io n (str previous) line) _ h in
      let (rest, others, h2) = >>=-eq-ok (verify_from io (suc n) next lines) _ h1 in
      let (none_here, none_later) = append_empty errors rest (ok-result h2) in
      elim (line_cases n previous line next
        (verified ∙ ap (λ (es : List ChainError). ok (es, next)) none_here)) [
          | inl (blank, same) ↦ inl (
            blank,
            verify_from-IsChained (suc n) previous lines (rw (same, none_later) at others),
          )
          | inr (hash, entry, same) ↦ inr (
            hash,
            entry,
            verify_from-IsChained (suc n) hash lines (rw (same, none_later) at others),
          )
        ]

  IsChained-verify_from :
      (n : ℕ) (previous : String) (lines : List Text)
      → IsChained previous lines
      → verify_from io n (str previous) lines ≡ ok []
  unfolding verify_from verify_line
  IsChained-verify_from n previous [] c = refl
  IsChained-verify_from n previous (line ∷ lines) (inl (blank, c)) =
      rw (blank, IsChained-verify_from (suc n) previous lines c) refl
  IsChained-verify_from n previous (line ∷ lines) (inr (hash, entry, c)) =
      rw
        (IsEntry-verify_line n previous line hash entry, IsChained-verify_from (suc n) hash lines c)
        refl

  -- `verify_ledger` accepts a file, and raises nothing, exactly when every line is blank or the
  -- record of a finding: JSON of a dict that holds the keys of the body, names the hash of the entry
  -- before it, from "GENESIS" on, and carries the digest of its own body.
  pub verify_ledger_iff :
      (lines : List Text) → (verify_ledger io lines ≡ ok (true, [])) ↔ IsChained "GENESIS" lines
  unfolding verify_ledger
  verify_ledger_iff lines = (
    λ h.
        let (errors, verified, h1) = >>=-eq-ok (verify_from io 1 (str "GENESIS") lines) _ h in
        let empty_errors : errors ≡ [] = ap (λ (x : Bool × List ChainError). x.1) (ok-result h1) in
        verify_from-IsChained 1 "GENESIS" lines
          (verified ∙ ap (λ (es : List ChainError). ok es) empty_errors),
    λ c. rw (IsChained-verify_from 1 "GENESIS" lines c) refl,
  )
