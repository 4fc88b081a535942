-- ===== src/Agent/Tenancy.antt =====
-- src/orbita_agent/tenancy.py: the registry that maps an authenticated subject to one tenant. The
-- three tables are lists of rows; a method that raises leaves them as they were, but for
-- `seed_from_env`, whose bindings are committed one by one. `casefold` is `str.casefold`, and `now`
-- what `_now` answers. The JSON text of the seed is taken as its parsed object.
pub mod Access
use orbita_agent_research_se.Base.{
  ℕ, String, List, [], ◌∷◌, ◌++◌, map, Bool, true, false, not, ◌&&◌, ◌||◌, Option, none, some,
  Result, ok, err, ◌>>=◌, ◌>>◌, guard, raise_if, ◌==◌, find, filter, is_some, is_empty,
  if◌then◌else◌,
}
use orbita_agent_research_se.Base.Texts.{strip, is_nonempty}

pub data TenancyError : Type 0 where
  empty_subject empty_username bound_elsewhere tenant_taken no_identity no_tenant bad_seed :
      TenancyError

pub record TenantBinding : Type 0 where
  pub subject : String
  pub genome_username : String
  pub bound_at : ℕ
  pub bound_by : String
  pub note : Option String

pub record Identity : Type 0 where
  pub subject : String
  pub login : String
  pub first_seen_at : ℕ
  pub last_seen_at : ℕ

pub record TenantEvent : Type 0 where
  pub occurred_at : ℕ
  pub action : String
  pub subject : String
  pub genome_username : Option String
  pub actor : String
  pub note : Option String

pub record Registry : Type 0 where
  pub bindings : List TenantBinding
  pub identities : List Identity
  pub events : List TenantEvent

pub record LegacySinglePrincipal : Type 0 where
  pub github_login : String
  pub genome_username : String

-- what the constructor of `TenantRegistry` is given
pub record Config : Type 0 where
  pub legacy : Option LegacySinglePrincipal
  pub allow_shared_tenants : Bool

-- `_normalize_subject`, `_normalize_username`
unfoldable pub normalize_subject : String → Result TenancyError String
normalize_subject subject = do guard (is_nonempty (strip subject)) empty_subject; ok (strip subject)

unfoldable pub normalize_username : String → Result TenancyError String
normalize_username username = do
  guard (is_nonempty (strip username)) empty_username
  ok (strip username)

-- `SELECT * FROM genome_tenant_bindings WHERE subject = ?`
unfoldable pub lookup : String → List TenantBinding → Option TenantBinding
lookup subject [] = none
lookup subject (b ∷ bs) = if b.subject == subject then some b else lookup subject bs

-- `INSERT ... ON CONFLICT(subject) DO UPDATE`
unfoldable pub upsert : TenantBinding → List TenantBinding → List TenantBinding
upsert new [] = new ∷ []
upsert new (b ∷ bs) =
    let rest = upsert new bs in if b.subject == new.subject then new ∷ bs else b ∷ rest

unfoldable pub delete : String → List TenantBinding → List TenantBinding
delete subject bindings = filter (λ (b : TenantBinding). not (b.subject == subject)) bindings

-- a row of another subject with this tenant
unfoldable pub tenant_holder : String → String → List TenantBinding → Option TenantBinding
tenant_holder username subject bindings =
    find (λ (b : TenantBinding). b.genome_username == username && not (b.subject == subject))
      bindings

abbrev record_event : TenantEvent → Registry → Registry
record_event e r = record r { events = r.events ++ e ∷ [] }

touch_identity : Identity → List Identity → List Identity
touch_identity new [] = new ∷ []
touch_identity new (i ∷ is) =
    let rest = touch_identity new is in
    if i.subject == new.subject
    then record i { login = new.login; last_seen_at = new.last_seen_at } ∷ is
    else i ∷ rest

unfoldable pub record_identity : ℕ → String → String → Registry → Result TenancyError Registry
unfolding touch_identity normalize_subject
record_identity now subject login r = do
  normal ← normalize_subject subject
  let seen : Identity = record {
    subject = normal;
    login = strip login;
    first_seen_at = now;
    last_seen_at = now;
  }
  ok (
      if is_nonempty (strip login)
      then record r { identities = touch_identity seen r.identities }
      else r)

unfoldable pub subject_login : String → Registry → Option String
subject_login subject r = elim (find (λ (i : Identity). i.subject == subject) r.identities) [
  | none ↦ none
  | some i ↦ some i.login
]

-- the registry behind the INSERT of `bind` and its event
unfoldable pub write_binding : TenantBinding → Registry → Registry
write_binding b r =
    record_event
      (record {
        occurred_at = b.bound_at;
        action = "bind";
        subject = b.subject;
        genome_username = some b.genome_username;
        actor = b.bound_by;
        note = b.note;
      })
      (record r { bindings = upsert b r.bindings })

pub record BindOptions : Type 0 where
  pub actor : String
  pub note : Option String
  pub allow_shared : Bool
  pub overwrite : Bool

-- the second half of `bind`: the test for sharing, and the write
unfoldable pub bind_new :
    Config
    → ℕ
    → String
    → String
    → BindOptions
    → Registry
    → Result TenancyError (TenantBinding × Registry)
bind_new config now subject username options r = do
  raise_if
      (not (options.allow_shared || config.allow_shared_tenants)
        && is_some (tenant_holder username subject r.bindings))
      tenant_taken
  let binding : TenantBinding = record {
    subject = subject;
    genome_username = username;
    bound_at = now;
    bound_by = options.actor;
    note = options.note;
  }
  ok (binding, write_binding binding r)

-- `existing is not None and not overwrite`
bind_existing :
    Config
    → ℕ
    → String
    → String
    → BindOptions
    → Option TenantBinding
    → Registry
    → Result TenancyError (TenantBinding × Registry)
unfolding bind_new
bind_existing config now subject username options none r =
    bind_new config now subject username options r
bind_existing config now subject username options (some existing) r =
    if options.overwrite
    then bind_new config now subject username options r
    else if existing.genome_username == username
    then ok (existing, r)
    else err bound_elsewhere

unfoldable pub bind :
    Config
    → ℕ
    → String
    → String
    → BindOptions
    → Registry
    → Result TenancyError (TenantBinding × Registry)
unfolding bind_existing normalize_subject normalize_username
bind config now subject username options r = do
  subject' ← normalize_subject subject
  username' ← normalize_username username
  bind_existing config now subject' username' options (lookup subject' r.bindings) r

unfoldable pub unbind : ℕ → String → String → Registry → Result TenancyError (Bool × Registry)
unfolding normalize_subject
unbind now subject actor r = do
  subject' ← normalize_subject subject
  ok (elim (lookup subject' r.bindings) [
    | none ↦ (false, r)
    | some row ↦ (
      true,
      record_event
          (record {
            occurred_at = now;
            action = "unbind";
            subject = subject';
            genome_username = some row.genome_username;
            actor = actor;
            note = none;
          })
          (record r { bindings = delete subject' r.bindings }),
    )
  ])

abbrev seed_options : BindOptions
seed_options = record {
  actor = "env-seed";
  note = some "seeded from ORBITA_GENOME_TENANT_BINDINGS";
  allow_shared = true;
  overwrite = true;
}

-- an item of the parsed object: its key, and its value if that is a text
abbrev pub SeedItem : Type 0
SeedItem = String × Option String

abbrev is_operators : Option TenantBinding → Bool
is_operators none = false
is_operators (some b) = b.bound_by == "operator"

unfoldable pub seed_one :
    Config → ℕ → SeedItem → Registry → Result TenancyError (List TenantBinding × Registry)
unfolding bind
seed_one config now (subject, none) r = err bad_seed
seed_one config now (subject, some username) r =
    if is_operators (lookup (strip subject) r.bindings)
    then ok ([], r)
    else do (b, r') ← bind config now subject username seed_options r; ok (b ∷ [], r')

seed_rest :
    List TenantBinding
    → Result TenancyError (List TenantBinding) × Registry
    → Result TenancyError (List TenantBinding) × Registry
seed_rest applied (ok more, r) = (ok (applied ++ more), r)
seed_rest applied (err e, r) = (err e, r)

-- the loop of `seed_from_env`: what was bound before an error stays bound
unfoldable pub seed_items :
    Config → ℕ → List SeedItem → Registry → Result TenancyError (List TenantBinding) × Registry
unfolding seed_rest seed_one
seed_items config now [] r = (ok [], r)
seed_items config now (item ∷ items) r = elim (seed_one config now item r) [
  | err e ↦ (err e, r)
  | ok (applied, r') ↦ seed_rest applied (seed_items config now items r')
]

-- `none` is an unset variable; an empty object is refused
unfoldable pub seed_from_env :
    Config
    → ℕ
    → Option (List SeedItem)
    → Registry
    → Result TenancyError (List TenantBinding) × Registry
unfolding seed_items
seed_from_env config now none r = (ok [], r)
seed_from_env config now (some []) r = (err bad_seed, r)
seed_from_env config now (some (item ∷ items)) r = seed_items config now (item ∷ items) r

abbrev legacy_options : BindOptions
legacy_options = record {
  actor = "legacy-single-principal";
  note = some "auto-bound from the single-principal deployment configuration";
  allow_shared = true;
  overwrite = false;
}

-- `login is None or login.casefold() == legacy.github_login.casefold()`
unfoldable pub may_be_legacy : (String → String) → Option String → LegacySinglePrincipal → Bool
may_be_legacy casefold none legacy = true
may_be_legacy casefold (some login) legacy = casefold login == casefold legacy.github_login

unfoldable pub resolve_legacy :
    (String → String)
    → Config
    → ℕ
    → String
    → Option LegacySinglePrincipal
    → Registry
    → Result TenancyError (String × Registry)
resolve_legacy casefold config now subject none r = err no_tenant
resolve_legacy casefold config now subject (some legacy) r =
    if may_be_legacy casefold (subject_login subject r) legacy
    then (do
      (b, r') ← bind config now subject legacy.genome_username legacy_options r
      ok (legacy.genome_username, r'))
    else err no_tenant

-- `if binding is not None: return binding.genome_username`
abbrev pub or_resolve :
    Option TenantBinding
    → Registry
    → Result TenancyError (String × Registry)
    → Result TenancyError (String × Registry)
or_resolve (some b) r rest = ok (b.genome_username, r)
or_resolve none r rest = rest

unfoldable pub resolve :
    (String → String)
    → Config
    → ℕ
    → Option String
    → Registry
    → Result TenancyError (String × Registry)
resolve casefold config now none r = err no_identity
resolve casefold config now (some subject) r = do
  guard (is_nonempty (strip subject)) no_identity
  or_resolve (lookup (strip subject) r.bindings) r
      (resolve_legacy casefold config now (strip subject) config.legacy r)
