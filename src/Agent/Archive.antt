-- ===== src/Agent/Archive.antt =====
-- src/orbita_agent/archive_policy.py: who may store a personal archive. `casefold` is `str.casefold`,
-- `lower` is `str.lower`. The texts of refusals are left out.
use orbita_agent_research_se.Base.{
  String, [], ◌∷◌, Bool, true, false, ◌&&◌, Option, none, some, Result, ok, guard, if◌then◌else◌,
  ◌==◌, elem, ◌≡◌, refl, ◌≢◌, ◌⊎◌, inl, inr, arith, eq_iff, sym, ap, ◌∙◌, Bool-cases,
}
use orbita_agent_research_se.Base.Texts.{strip, is_nonempty}

pub data ArchiveError : Type 0 where
  archive_refused : ArchiveError

pub record ArchivePolicy : Type 0 where
  pub encryption_reviewed : Bool
  pub operator_tenant : Option String

-- the three settings that `from_env` reads, "" where one is not set
pub record Environment : Type 0 where
  pub encryption_ready : String
  pub operator : String
  pub genome_username : String

abbrev pub text_or_none : String → Option String
text_or_none s = if is_nonempty s then some s else none

unfoldable pub from_env : (lower : String → String) → Environment → ArchivePolicy
from_env lower env = record {
  encryption_reviewed =
      elem (lower (strip env.encryption_ready)) ("1" ∷ "true" ∷ "yes" ∷ "on" ∷ []);
  operator_tenant =
      text_or_none (
        if is_nonempty (strip env.operator) then strip env.operator else strip env.genome_username);
}

nonempty : (s : String) → is_nonempty s ≡ true → s ≢ ""
nonempty s h e = cc (sym h ∙ ap is_nonempty e)

empty_text : (s : String) → is_nonempty s ≡ false → s ≡ ""
empty_text String.[] h = refl
empty_text (String.◌∷◌ c s) h = cc

module _ (casefold : String → String) where
  abbrev pub is_operator : String → Option String → Bool
  is_operator tenant none = false
  is_operator tenant (some operator) = is_nonempty operator && casefold tenant == casefold operator

  unfoldable pub allows : ArchivePolicy → Option String → Bool
  allows p none = true
  allows p (some tenant) =
      if p.encryption_reviewed then true else is_operator tenant p.operator_tenant

  unfoldable pub ensure : ArchivePolicy → Option String → Result ArchiveError (Unit {0})
  unfolding allows
  ensure p tenant = guard (allows p tenant) archive_refused

  -- the operator that a deployment names
  abbrev pub IsOperator : Environment → String → Type 0
  IsOperator env tenant =
      (operator : String) × (operator ≢ "")
      × (casefold tenant ≡ casefold operator)
      × ((operator ≡ strip env.operator)
          ⊎ ((strip env.operator ≡ "") × (operator ≡ strip env.genome_username)))

  -- With the policy that the settings give and the review not asserted, a tenant stores an archive
  -- only if it is the operator that the settings name.
  pub ensure-IsOperator :
      (lower : String → String) (env : Environment) (tenant : String)
      → elem (lower (strip env.encryption_ready)) ("1" ∷ "true" ∷ "yes" ∷ "on" ∷ []) ≡ false
      → ensure (from_env lower env) (some tenant) ≡ ok tt
      → IsOperator env tenant
  unfolding ensure from_env
  ensure-IsOperator lower env tenant unreviewed h =
      elim (Bool-cases (is_nonempty (strip env.operator))) [
        | inl named ↦ (
          strip env.operator,
          nonempty (strip env.operator) named,
          ground (arith, eq_iff (casefold tenant) (casefold (strip env.operator))),
          inl refl,
        )
        | inr unnamed ↦ elim (Bool-cases (is_nonempty (strip env.genome_username))) [
          | inl named ↦ (
            strip env.genome_username,
            nonempty (strip env.genome_username) named,
            ground (arith, eq_iff (casefold tenant) (casefold (strip env.genome_username))),
            inr (empty_text (strip env.operator) unnamed, refl),
          )
          | inr nobody ↦ absurd (ground arith)
        ]
      ]
