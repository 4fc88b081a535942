-- ===== src/Agent/Uploads/Names.antt =====
-- src/orbita_agent/uploads.py: `safe_upload_filename`. What it takes from the library of paths and from
-- the Unicode tables is an interface.
use Prim.Native.Char.{Char, code}
use orbita_agent_research_se.Base.{
  ℕ, zero, suc, String, List, [], ◌∷◌, Bool, ◌&&◌, ◌||◌, Result, ok, ◌>>◌, guard, if◌then◌else◌,
  ◌==◌, ltb, nat_eq, elem,
}
use orbita_agent_research_se.Base.Texts.{concat, char_count, is_nonempty}
use orbita_agent_research_se.Agent.Uploads.{UploadError, no_safe_character, bad_suffix}

-- `Path(s).name`, `Path(s).stem`, `Path(s).suffix`, `s.lower()` and `ch.isalnum()`
pub record Platform : Type 0 where
  pub name : String → String
  pub stem : String → String
  pub suffix : String → String
  pub lower : String → String
  pub is_alnum : Char → Bool

upload_suffixes : List String
upload_suffixes =
    ".csv" ∷ ".tsv" ∷ ".json" ∷ ".jsonl" ∷ ".txt" ∷ ".md" ∷ ".py" ∷ ".r" ∷ ".tex" ∷ ".sql" ∷ ".yaml"
    ∷ ".yml" ∷ ".toml" ∷ ".ipynb" ∷ ".xlsx" ∷ ".xlsm" ∷ ".xls" ∷ ".parquet" ∷ ".pdf" ∷ ".docx"
    ∷ ".zip" ∷ []

-- one of `._`
abbrev is_edge : Char → Bool
is_edge c = nat_eq (code c) (code ".") || nat_eq (code c) (code "_")

-- `s.lstrip("._")`, `s.rstrip("._")`
lstrip_edges : String → String
lstrip_edges String.[] = String.[]
lstrip_edges (String.◌∷◌ c s) =
    let rest = lstrip_edges s in if is_edge c then rest else String.◌∷◌ c s

rstrip_edges : String → String
rstrip_edges String.[] = String.[]
rstrip_edges (String.◌∷◌ c s) =
    let rest = rstrip_edges s in if is_edge c && rest == "" then String.[] else String.◌∷◌ c rest

-- `s[:n]`
take_chars : ℕ → String → String
take_chars zero s = String.[]
take_chars (suc n) String.[] = String.[]
take_chars (suc n) (String.◌∷◌ c s) = String.◌∷◌ c (take_chars n s)

module _ (p : Platform) where
  keep_safe : String → String
  keep_safe String.[] = String.[]
  keep_safe (String.◌∷◌ c s) =
      let rest = keep_safe s in
      if p.is_alnum c || is_edge c || nat_eq (code c) (code "-") then String.◌∷◌ c rest else rest

  shorten : String → String
  unfolding take_chars concat
  shorten cleaned =
      if ltb 120 (char_count cleaned)
      then concat (take_chars 100 (p.stem cleaned)) (take_chars 16 (p.suffix cleaned))
      else cleaned

  unfoldable pub safe_upload_filename : String → Result UploadError String
  unfolding keep_safe shorten lstrip_edges rstrip_edges upload_suffixes
  safe_upload_filename filename = do
    let cleaned = rstrip_edges (lstrip_edges (keep_safe (p.name filename)))
    guard (is_nonempty cleaned) no_safe_character
    let short = shorten cleaned
    guard (elem (p.lower (p.suffix short)) upload_suffixes) bad_suffix
    ok short
