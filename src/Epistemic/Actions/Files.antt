-- ===== src/Epistemic/Actions/Files.antt =====
-- src/orbita/actions.py: the registered actions, `_safe_path` and `_verify`, over the files of the
-- workspace. A file is its resolved path and its bytes, written as characters; directories are left
-- out. A write that the file system refuses raises before it changes the file.
use Prim.Native.Char.{code}
use orbita_agent_research_se.Base.{
  ℕ, suc, String, List, [], ◌∷◌, Bool, true, false, ◌&&◌, ◌||◌, Option, none, some, is_some, Result,
  ok, err, ◌>>=◌, ◌>>◌, guard, if◌then◌else◌, ◌==◌, nat_eq, ◌*◌, ◌^◌,
}
use orbita_agent_research_se.Base.Texts.{char_count}
use orbita_agent_research_se.Base.Json.{
  Json, null, bool, int, float, str, finite, Fields, empty, field, get, pos, negsuc,
}
use orbita_agent_research_se.Epistemic.Actions.{
  ActionError, missing_key, escapes_workspace, unwritable, Problem, raised, file_missing, Check,
  ActionResult, File,
}

-- What the actions take from the platform: `(workspace / raw).resolve()`, `is_relative_to(workspace)`,
-- whether a file can be written, the encoding, `hashlib.sha256(...).hexdigest()` of bytes, and
-- python's `str` of a JSON value.
pub record Platform : Type 0 where
  pub resolve : String → String
  pub is_within : String → Bool
  pub is_writable : String → Bool
  pub utf8 : String → String
  pub sha256 : String → String
  pub str_of : Json → String

unfoldable pub read_file : String → List File → Option String
read_file path [] = none
read_file path (f ∷ fs) = if f.path == path then some f.content else read_file path fs

unfoldable pub write_file : (path content : String) → List File → List File
write_file path content [] = (record { path = path; content = content }) ∷ []
write_file path content (f ∷ fs) =
    let rest = write_file path content fs in
    if f.path == path then record f { content = content } ∷ fs else f ∷ rest

-- `d[key]`
abbrev pub item : Fields → String → Result ActionError Json
item d key = elim (get d key) [ none ↦ err (missing_key key) | some v ↦ ok v ]

-- `needle in text`
starts_with : (needle text : String) → Bool
starts_with String.[] text = true
starts_with (String.◌∷◌ c needle) String.[] = false
starts_with (String.◌∷◌ c needle) (String.◌∷◌ d text) =
    nat_eq (code c) (code d) && starts_with needle text

unfoldable pub contains : (needle text : String) → Bool
unfolding starts_with
contains needle String.[] = needle == ""
contains needle (String.◌∷◌ c text) = starts_with needle (String.◌∷◌ c text) || contains needle text

-- `n == value` for a count
equals_count : ℕ → Json → Bool
equals_count n (int (pos m)) = nat_eq n m
equals_count n (bool b) = nat_eq n (if b then 1 else 0)
equals_count n (float (finite (pos m) (pos e))) = nat_eq n (m * 2 ^ e)
equals_count n (float (finite (pos m) (negsuc e))) = nat_eq (n * 2 ^ suc e) m
equals_count n _ = false

-- `actual == expected`, of an output, which is a text or a count; `none` is python's None
equal_values : (actual expected : Option Json) → Bool
unfolding equals_count
equal_values none none = true
equal_values none (some null) = true
equal_values (some (str s)) (some (str t)) = s == t
equal_values (some (int (pos n))) (some v) = equals_count n v
equal_values _ _ = false

is_text : String → Option Json → Bool
is_text s (some (str t)) = t == s
is_text s _ = false

-- the `ActionResult` of an action that went through, and of one that did not
abbrev pub done : Fields → ActionResult
done outputs = record { passed = true; outputs = outputs; error = none }

abbrev pub undone : Problem → ActionResult
undone p = record { passed = false; outputs = empty; error = some p }

abbrev pub Action : Type 0
Action = Fields → List File → Result ActionError (ActionResult × List File)

module _ (os : Platform) where
  -- `_safe_path`
  unfoldable pub safe_path : String → Result ActionError String
  safe_path raw = do
    guard (os.is_within (os.resolve raw)) (escapes_workspace raw)
    ok (os.resolve raw)

  -- `self._safe_path(str(d[key]))`
  unfoldable pub path_item : Fields → String → Result ActionError String
  unfolding safe_path
  path_item d key = do v ← item d key; safe_path (os.str_of v)

  unfoldable pub write_text : Action
  unfolding path_item write_file
  write_text args files = do
    path ← path_item args "path"
    v ← item args "text"
    let content = os.utf8 (os.str_of v)
    guard (os.is_writable path) (unwritable path)
    ok (
      done (
          field "path" (str path) (
            field "bytes_written" (int (pos (char_count content)))
              (field "sha256" (str (os.sha256 content)) empty))),
      write_file path content files,
    )

  unfoldable pub hash_file : Action
  unfolding path_item read_file
  hash_file args files = do
    path ← path_item args "path"
    ok (elim (read_file path files) [
      | none ↦ (undone (file_missing path), files)
      | some content ↦
          (done (field "path" (str path) (field "sha256" (str (os.sha256 content)) empty)), files)
    ])

  -- the end of `_copy_file`
  unfoldable pub copy_to :
      (source destination : String)
      → Option String
      → List File
      → Result ActionError (ActionResult × List File)
  unfolding write_file
  copy_to source destination none files = ok (undone (file_missing source), files)
  copy_to source destination (some content) files = do
    guard (os.is_writable destination) (unwritable destination)
    ok (
      done (
          field "source" (str source) (
            field "destination" (str destination)
              (field "sha256" (str (os.sha256 content)) empty))),
      write_file destination content files,
    )

  unfoldable pub copy_file : Action
  unfolding path_item copy_to read_file
  copy_file args files = do
    source ← path_item args "source"
    destination ← path_item args "destination"
    copy_to source destination (read_file source files) files

  -- `self.actions.get`
  unfoldable pub action_named : String → Option Action
  unfolding write_text hash_file copy_file
  action_named name =
      if name == "write_text"
      then some write_text
      else if name == "hash_file"
      then some hash_file
      else if name == "copy_file"
      then some copy_file
      else none

  -- the `try` around `action(args)`
  abbrev pub result_or_raised :
      List File → Result ActionError (ActionResult × List File) → ActionResult × List File
  result_or_raised files (ok x) = x
  result_or_raised files (err e) = (undone (raised e), files)

  file_hash : Option String → String
  file_hash none = ""
  file_hash (some content) = os.sha256 content

  unfoldable pub verify : Fields → (outputs : Fields) → List File → Result ActionError Check
  unfolding path_item read_file contains equal_values is_text file_hash
  verify o outputs files =
      let kind = get o "type" in
      let answer : Bool → Check = λ b. record { obligation = o; passed = b } in
      if is_text "file_exists" kind
      then (do path ← path_item o "path"; ok (answer (is_some (read_file path files))))
      else if is_text "sha256_equals" kind
      then (do
        path ← path_item o "path"
        expected ← item o "sha256"
        ok (answer (file_hash (read_file path files) == os.str_of expected)))
      else if is_text "output_equals" kind
      then (do
        key ← item o "key"
        ok (answer (equal_values (get outputs (os.str_of key)) (get o "value"))))
      else if is_text "output_contains" kind
      then (do
        key ← item o "key"
        needle ← item o "value"
        let actual : String = elim (get outputs (os.str_of key)) [
          | none ↦ ""
          | some v ↦ os.str_of v
        ]
        ok (answer (contains (os.str_of needle) actual)))
      else ok (answer false)

  -- the list comprehension over the obligations
  unfoldable pub verify_all :
      List Fields → (outputs : Fields) → List File → Result ActionError (List Check)
  unfolding verify
  verify_all [] outputs files = ok []
  verify_all (o ∷ os') outputs files = do
    check ← verify o outputs files
    rest ← verify_all os' outputs files
    ok (check ∷ rest)
