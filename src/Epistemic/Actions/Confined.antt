-- ===== src/Epistemic/Actions/Confined.antt =====
-- src/orbita/actions.py: what the actions do to files outside the workspace.
use orbita_agent_research_se.Base.{
  ok-result, ok-state, String, List, [], ◌∷◌, true, false, some, ok, Result-cases, Option-cases,
  guard-ok, >>=-eq-ok, Bool-cases, ◌≡◌, refl, sym, ap, ◌∙◌, ◌⊎◌, inl, inr, arith, ◌==◌, eq_iff,
  subst,
}
use orbita_agent_research_se.Epistemic.Policy.{CommitPolicy}
use orbita_agent_research_se.Epistemic.Tables.{Db}
use orbita_agent_research_se.Base.Json.{Fields}
use orbita_agent_research_se.Epistemic.Actions.{ActionResult, File, State, Stamp, unwritable}
use orbita_agent_research_se.Epistemic.Actions.Files.{
  Platform, Action, action_named, result_or_raised, safe_path, path_item, read_file, write_file,
  write_text, hash_file, copy_file, copy_to, item,
}
use orbita_agent_research_se.Epistemic.Actions.Runtime.{execute_step}
use orbita_agent_research_se.Epistemic.Actions.Runs.{execute_step-cases, run_action-files}

read_file-write_file_other :
    (p path content : String) (fs : List File)
    → (path == p) ≡ false
    → read_file p (write_file path content fs) ≡ read_file p fs
unfolding read_file write_file
read_file-write_file_other p path content [] h = rw h
read_file-write_file_other p path content (f ∷ fs) h =
    let ih = read_file-write_file_other p path content fs h in
    elim (Bool-cases (f.path == path)) [
      | inl own ↦ ground (arith, eq_iff f.path path, eq_iff f.path p, eq_iff path p)
      | inr other ↦ ground (arith, eq_iff f.path p)
    ]

module _ (os : Platform) where
  -- The files outside the workspace are as they were.
  abbrev pub AreKept : List File → List File → Type 0
  AreKept before later =
      (p : String) → os.is_within p ≡ false → read_file p later ≡ read_file p before

  -- The files are as they were, or one file of the workspace was written.
  abbrev IsWritten : List File → List File → Type 0
  IsWritten before later =
      (later ≡ before)
      ⊎ (path : String) × (content : String) × (os.is_within path ≡ true)
        × (later ≡ write_file path content before)

  IsWritten-AreKept : (before later : List File) → IsWritten before later → AreKept before later
  IsWritten-AreKept before later (inl same) p out = ap (read_file p) same
  IsWritten-AreKept before later (inr (path, content, within, same)) p out =
      ap (read_file p) same
      ∙ read_file-write_file_other p path content before (ground (arith, eq_iff path p))

  path_item-within :
      (d : Fields) (key path : String) → path_item os d key ≡ ok path → os.is_within path ≡ true
  unfolding path_item safe_path
  path_item-within d key path h =
      let (v, _, h1) = >>=-eq-ok (item d key) _ h in
      let (within, same) = guard-ok (os.is_within (os.resolve (os.str_of v))) _ _ h1 in
      subst (λ (x : String). os.is_within x ≡ true) (ok-result same) within

  write_text-IsWritten :
      (args : Fields) (fs gs : List File) (r : ActionResult)
      → write_text os args fs ≡ ok (r, gs)
      → IsWritten fs gs
  unfolding write_text
  write_text-IsWritten args fs gs r h =
      let (path, found, h1) = >>=-eq-ok (path_item os args "path") _ h in
      let (v, _, h2) = >>=-eq-ok (item args "text") _ h1 in
      let (_, h3) = guard-ok (os.is_writable path) (unwritable path) _ h2 in
      inr (path, os.utf8 (os.str_of v), path_item-within args "path" path found, sym (ok-state h3))

  hash_file-IsWritten :
      (args : Fields) (fs gs : List File) (r : ActionResult)
      → hash_file os args fs ≡ ok (r, gs)
      → IsWritten fs gs
  unfolding hash_file
  hash_file-IsWritten args fs gs r h =
      let (path, found, h1) = >>=-eq-ok (path_item os args "path") _ h in
      elim (Option-cases (read_file path fs)) [
        | inl e ↦ inl (ground arith)
        | inr (c, e) ↦ inl (ground arith)
      ]

  copy_file-IsWritten :
      (args : Fields) (fs gs : List File) (r : ActionResult)
      → copy_file os args fs ≡ ok (r, gs)
      → IsWritten fs gs
  unfolding copy_file copy_to
  copy_file-IsWritten args fs gs r h =
      let (source, _, h1) = >>=-eq-ok (path_item os args "source") _ h in
      let (target, found, h2) = >>=-eq-ok (path_item os args "destination") _ h1 in
      elim (Option-cases (read_file source fs)) [
        | inl e ↦ inl (ground arith)
        | inr (c, e) ↦
            inr (target, c, path_item-within args "destination" target found, ground arith)
      ]

  action-IsWritten :
      (name : String) (action : Action) (args : Fields) (fs gs : List File) (r : ActionResult)
      → action_named os name ≡ some action
      → action args fs ≡ ok (r, gs)
      → IsWritten fs gs
  unfolding action_named
  action-IsWritten name action args fs gs r h e = elim (Bool-cases (name == "write_text")) [
    | inl one ↦ write_text-IsWritten args fs gs r (ground arith)
    | inr not_one ↦ elim (Bool-cases (name == "hash_file")) [
      | inl two ↦ hash_file-IsWritten args fs gs r (ground arith)
      | inr not_two ↦ elim (Bool-cases (name == "copy_file")) [
        | inl three ↦ copy_file-IsWritten args fs gs r (ground arith)
        | inr not_three ↦ absurd (ground arith)
      ]
    ]
  ]

  pub result_or_raised-IsWritten :
      (name : String) (action : Action) (args : Fields) (fs : List File)
      → action_named os name ≡ some action
      → IsWritten fs (result_or_raised os fs (action args fs)).1
  result_or_raised-IsWritten name action args fs h = elim (Result-cases (action args fs)) [
    | inl ((r, gs), e) ↦ rw e (action-IsWritten name action args fs gs r h e)
    | inr (x, e) ↦ rw e (inl refl)
  ]

  -- A step, however it ends, leaves the files outside the workspace as they were.
  pub execute_step-AreKept :
      (policy : CommitPolicy) (db : Db) (stamp : Stamp) (id : String) (s : State)
      → AreKept s.files (execute_step policy db os stamp id s).1.files
  execute_step-AreKept policy db stamp id s p out =
      elim (execute_step-cases policy db os stamp id s) [
        | inl idle ↦ ap (read_file p) idle.files
        | inr ran ↦
            ap (λ (t : State). read_file p t.files) (ap (λ x. x.1) ran.run)
            ∙ ap (read_file p) (run_action-files os stamp ran.step ran.action _)
            ∙ IsWritten-AreKept s.files _
                (result_or_raised-IsWritten ran.step.action_type ran.action ran.step.args s.files
                  ran.registered)
                p out
      ]
