-- ===== src/Agent/Tenancy/Access.antt =====
-- Who reaches which tenant: what `resolve` answers, what `bind` refuses, and what the seed leaves.
use orbita_agent_research_se.Base.{
  ok-value, ℕ, String, List, [], ◌∷◌, Bool, true, false, not, ◌&&◌, ◌||◌, Option, none, some,
  Result, ok, ◌>>=◌, >>=-eq-ok, guard-ok, raise_if-ok, ok-state, ◌≡◌, refl, sym, ap, subst, ◌∙◌,
  ◌≢◌, ◌⊎◌, inl, inr, ◌==◌, eq_iff, eq_refl, find, filter, is_some, arith, Bool-cases, Option-cases,
  if◌then◌else◌,
}
use orbita_agent_research_se.Base.Texts.{strip, strip_idem, is_nonempty}
use orbita_agent_research_se.Agent.Tenancy.{
  TenancyError, tenant_taken, TenantBinding, Registry, LegacySinglePrincipal, Config, BindOptions,
  normalize_subject, normalize_username, lookup, upsert, delete, tenant_holder, subject_login,
  write_binding, bind_new, bind_existing, bind, legacy_options, may_be_legacy, resolve_legacy,
  resolve, or_resolve,
}

String-eq_or : (s t : String) → (s ≡ t) ⊎ (s ≢ t)
String-eq_or s t = elim (Bool-cases (s == t)) [
  | inl same ↦ inl ((eq_iff s t).0 same)
  | inr other ↦ inr (λ e. cc ((eq_iff s t).1 e))
]

lookup-upsert :
    (s : String) (b : TenantBinding) (bs : List TenantBinding)
    → lookup s (upsert b bs) ≡ (if b.subject == s then some b else lookup s bs)
unfolding lookup upsert
lookup-upsert s b [] = refl
lookup-upsert s b (c ∷ cs) = ground (
  arith,
  lookup-upsert s b cs,
  eq_iff c.subject b.subject,
  eq_iff c.subject s,
  eq_iff b.subject s,
)

lookup-delete :
    (s k : String) (bs : List TenantBinding)
    → lookup s (delete k bs) ≡ (if k == s then none else lookup s bs)
unfolding lookup delete filter
lookup-delete s k [] = ground arith
lookup-delete s k (c ∷ cs) =
    ground (arith, lookup-delete s k cs, eq_iff c.subject k, eq_iff c.subject s, eq_iff k s)

normal_subject :
    (s t : String) → normalize_subject s ≡ ok t → (t ≡ strip s) × (is_nonempty (strip s) ≡ true)
unfolding normalize_subject
normal_subject s t h = ground (arith, h)

normal_username : (s t : String) → normalize_username s ≡ ok t → t ≡ strip s
unfolding normalize_username
normal_username s t h = ground (arith, h)

-- the test of `bind` for a tenant that another subject holds
abbrev pub is_refused : Config → BindOptions → String → String → Registry → Bool
is_refused config options username subject r =
    not (options.allow_shared || config.allow_shared_tenants)
    && is_some (tenant_holder username subject r.bindings)

-- What a successful `bind` leaves: either nothing is written, and the subject has this tenant
-- already, or the binding is written.
pub record Bound (config : Config) (options : BindOptions) (subject username : String)
    (b : TenantBinding) (r r' : Registry) : Type 0 where
  pub subject_is : b.subject ≡ strip subject
  pub username_is : b.genome_username ≡ strip username
  pub found : lookup (strip subject) r'.bindings ≡ some b
  pub free : (r ≡ r') ⊎ (is_refused config options (strip username) (strip subject) r ≡ false)
  pub others : (s : String) → s ≢ strip subject → lookup s r'.bindings ≡ lookup s r.bindings

lookup-subject :
    (s : String) (bs : List TenantBinding) {b : TenantBinding}
    → lookup s bs ≡ some b
    → b.subject ≡ s
unfolding lookup
lookup-subject s [] h = cc
lookup-subject s (c ∷ cs) {b} h = elim (Bool-cases (c.subject == s)) [
  | inl same ↦ let e : some c ≡ some b = rw same at h in ground (arith, e, eq_iff c.subject s, same)
  | inr other ↦ lookup-subject s cs (rw other at h)
]

module _ (config : Config) (now : ℕ) where
  written :
      (b : TenantBinding) (r : Registry) (s : String)
      → lookup s (write_binding b r).bindings
        ≡ (if b.subject == s then some b else lookup s r.bindings)
  unfolding write_binding
  written b r s = lookup-upsert s b r.bindings

  bind_new-Bound :
      (subject username : String) (options : BindOptions) (r r' : Registry) (b : TenantBinding)
      → bind_new config now (strip subject) (strip username) options r ≡ ok (b, r')
      → Bound config options subject username b r r'
  unfolding bind_new
  bind_new-Bound subject username options r r' b h =
      let new : TenantBinding = record {
        subject = strip subject;
        genome_username = strip username;
        bound_at = now;
        bound_by = options.actor;
        note = options.note;
      } in
      let (free, h1) =
        raise_if-ok (is_refused config options (strip username) (strip subject) r) tenant_taken _
          h in
      let state : write_binding new r ≡ r' = cc in
      let same : new ≡ b = cc in
      subst (λ z. Bound config options subject username b r z) state
        (subst (λ z. Bound config options subject username z r (write_binding new r)) same
          (record {
            subject_is = refl;
            username_is = refl;
            found = written new r (strip subject) ∙ ground (arith, eq_refl (strip subject));
            free = inr free;
            others = λ s other. written new r s ∙ ground (arith, eq_iff (strip subject) s, other);
          }))

  bind_existing-Bound :
      (subject username : String) (options : BindOptions) (o : Option TenantBinding)
      (r r' : Registry) (b : TenantBinding)
      → lookup (strip subject) r.bindings ≡ o
      → bind_existing config now (strip subject) (strip username) options o r ≡ ok (b, r')
      → Bound config options subject username b r r'
  unfolding bind_existing
  bind_existing-Bound subject username options none r r' b e h =
      bind_new-Bound subject username options r r' b h
  bind_existing-Bound subject username options (some existing) r r' b e h =
      elim (Bool-cases options.overwrite) [
        | inl over ↦ bind_new-Bound subject username options r r' b (rw over at h)
        | inr keep ↦ elim (Bool-cases (existing.genome_username == strip username)) [
          | inr other ↦ absurd (ground (arith, h, keep, other))
          | inl same ↦
              let kept : ◌≡◌ {A = Result TenancyError (TenantBinding × Registry)} (ok (existing, r))
                  (ok (b, r')) =
                rw (keep, same) at h in
              let state : r ≡ r' = cc in
              let row : existing ≡ b = cc in
              subst (λ z. Bound config options subject username b r z) state
                (subst (λ z. Bound config options subject username z r r) row
                  (record {
                    subject_is = lookup-subject (strip subject) r.bindings e;
                    username_is = (eq_iff existing.genome_username (strip username)).0 same;
                    found = e;
                    free = inl refl;
                    others = λ s other. refl;
                  }))
        ]
      ]

  -- A `bind` that returns leaves the subject bound to the tenant that was asked for, both texts
  -- stripped, and every other subject as it was.
  pub bind-Bound :
      (subject username : String) (options : BindOptions) (r r' : Registry) (b : TenantBinding)
      → bind config now subject username options r ≡ ok (b, r')
      → Bound config options subject username b r r'
  unfolding bind
  bind-Bound subject username options r r' b h =
      let (s, ns, h1) = >>=-eq-ok (normalize_subject subject) _ h in
      let (u, nu, h2) = >>=-eq-ok (normalize_username username) _ h1 in
      let es = (normal_subject subject s ns).0 in
      let eu = normal_username username u nu in
      let h3 : bind_existing config now (strip subject) (strip username) options
            (lookup (strip subject) r.bindings) r
          ≡ ok (b, r') =
        subst
          (λ z.
            bind_existing config now z (strip username) options (lookup z r.bindings) r
            ≡ ok (b, r'))
          es
          (subst (λ z. bind_existing config now s z options (lookup s r.bindings) r ≡ ok (b, r')) eu
            h2) in
      bind_existing-Bound subject username options (lookup (strip subject) r.bindings) r r' b refl
        h3

  -- No two subjects have one tenant.
  pub record IsExclusive (r : Registry) : Type 0 where
    pub apart :
        (s t : String) (b c : TenantBinding)
        → lookup s r.bindings ≡ some b
        → lookup t r.bindings ≡ some c
        → b.genome_username ≡ c.genome_username
        → s ≡ t

  no_holder :
      (username s t : String) (bs : List TenantBinding) (c : TenantBinding)
      → is_some (tenant_holder username s bs) ≡ false
      → lookup t bs ≡ some c
      → c.genome_username ≡ username
      → t ≡ s
  unfolding tenant_holder lookup find
  no_holder username s t [] c h e u = cc
  no_holder username s t (b ∷ bs) c h e u = ground (
    arith,
    no_holder username s t bs c,
    eq_iff b.subject t,
    eq_iff b.subject s,
    eq_iff b.genome_username username,
  )

  module _ {subject username : String} {options : BindOptions} {r r' : Registry} {b : TenantBinding}
      (done : Bound config options subject username b r r')
      (none_holds : is_some (tenant_holder (strip username) (strip subject) r.bindings)
        ≡ false) where
    bound_row :
        (s : String) (x : TenantBinding)
        → s ≡ strip subject
        → lookup s r'.bindings ≡ some x
        → x.genome_username ≡ strip username
    bound_row s x e h =
        let same : some x ≡ some b = sym h ∙ ap (λ z. lookup z r'.bindings) e ∙ done.found in
        let row : x ≡ b = cc in ap (λ (z : TenantBinding). z.genome_username) row ∙ done.username_is

    other_row :
        (t : String) (y : TenantBinding)
        → t ≢ strip subject
        → lookup t r'.bindings ≡ some y
        → y.genome_username ≡ strip username
        → t ≡ strip subject
    other_row t y other h =
        no_holder (strip username) (strip subject) t r.bindings y none_holds
          (sym (done.others t other) ∙ h)

    IsExclusive-after : IsExclusive r → IsExclusive r'
    IsExclusive-after exclusive = record {
      apart = λ s t x y hx hy e. elim (String-eq_or s (strip subject)) [
        | inl sk ↦ elim (String-eq_or t (strip subject)) [
          | inl tk ↦ sk ∙ sym tk
          | inr tk ↦ sk ∙ sym (other_row t y tk hy (sym e ∙ bound_row s x sk hx))
        ]
        | inr sk ↦ elim (String-eq_or t (strip subject)) [
          | inl tk ↦ other_row s x sk hx (e ∙ bound_row t y tk hy) ∙ sym tk
          | inr tk ↦
              exclusive.apart s t x y (sym (done.others s sk) ∙ hx) (sym (done.others t tk) ∙ hy) e
        ]
      ];
    }

  -- A `bind` that returns, with sharing allowed neither by the call nor by the deployment, keeps it
  -- so that no two subjects have one tenant.
  pub bind-IsExclusive :
      (subject username : String) (options : BindOptions) (r r' : Registry) (b : TenantBinding)
      → options.allow_shared ≡ false
      → config.allow_shared_tenants ≡ false
      → IsExclusive r
      → bind config now subject username options r ≡ ok (b, r')
      → IsExclusive r'
  bind-IsExclusive subject username options r r' b unshared alone exclusive h =
      let done = bind-Bound subject username options r r' b h in
      elim done.free [
        | inl same ↦ subst IsExclusive same exclusive
        | inr kept ↦ IsExclusive-after done (ground (arith, kept)) exclusive
      ]

  -- the rule that lets an unbound subject into the tenant of a single-principal deployment
  pub record IsLegacyUser (casefold : String → String) (subject username : String) (r : Registry)
      : Type 0 where
    pub legacy : LegacySinglePrincipal
    pub configured : config.legacy ≡ some legacy
    pub unbound : lookup (strip subject) r.bindings ≡ none
    pub login : may_be_legacy casefold (subject_login (strip subject) r) legacy ≡ true
    pub username_is : legacy.genome_username ≡ username

  abbrev pub HasTenant : (String → String) → String → String → Registry → Registry → Type 0
  HasTenant casefold subject username r r' =
      ((b : TenantBinding) × (lookup (strip subject) r.bindings ≡ some b)
        × (b.genome_username ≡ username)
        × (r ≡ r'))
      ⊎ IsLegacyUser casefold subject username r

  resolve_legacy-found :
      (casefold : String → String) (subject username : String) (o : Option LegacySinglePrincipal)
      (r r' : Registry)
      → config.legacy ≡ o
      → lookup (strip subject) r.bindings ≡ none
      → resolve_legacy casefold config now (strip subject) o r ≡ ok (username, r')
      → IsLegacyUser casefold subject username r
        × (b : TenantBinding) × Bound config legacy_options (strip subject) username b r r'
  unfolding resolve_legacy
  resolve_legacy-found casefold subject username none r r' e unbound h = absurd (cc)
  resolve_legacy-found casefold subject username (some legacy) r r' e unbound h =
      elim (Bool-cases (may_be_legacy casefold (subject_login (strip subject) r) legacy)) [
        | inr refused ↦ absurd (ground (arith, h, refused))
        | inl login ↦
            let bound : (bind config now (strip subject) legacy.genome_username legacy_options r
                  >>= λ (x : TenantBinding × Registry). ok (legacy.genome_username, x.1))
                ≡ ok (username, r') =
              rw login at h in
            let ((b, r1), first, rest) =
              >>=-eq-ok (bind config now (strip subject) legacy.genome_username legacy_options r)
                (λ (x : TenantBinding × Registry). ok (legacy.genome_username, x.1)) bound in
            let last : ◌≡◌ {A = Result TenancyError (String × Registry)}
                (ok (legacy.genome_username, r1)) (ok (username, r')) =
              rest in
            let state : r1 ≡ r' = ok-state last in
            let name : legacy.genome_username ≡ username = ok-value last in
            (
              record {
                legacy = legacy;
                configured = e;
                unbound = unbound;
                login = login;
                username_is = name;
              },
              b,
              subst (λ z. Bound config legacy_options (strip subject) z b r r') name
                  (subst
                    (λ z. Bound config legacy_options (strip subject) legacy.genome_username b r z)
                    state
                    (bind-Bound (strip subject) legacy.genome_username legacy_options r r1 b
                      first)),
            )
      ]

  -- `resolve` answers a tenant only to a subject that is not blank, and only the tenant that is bound
  -- to the subject, writing nothing, or the one of the single-principal deployment, to a subject
  -- that is unbound and whose login, if it was seen, is the one allowed. What other subjects are
  -- bound to does not change.
  pub resolve-HasTenant :
      (casefold : String → String) (subject username : String) (r r' : Registry)
      → resolve casefold config now (some subject) r ≡ ok (username, r')
      → (is_nonempty (strip subject) ≡ true)
        × HasTenant casefold subject username r r'
        × ((s : String) → s ≢ strip subject → lookup s r'.bindings ≡ lookup s r.bindings)
  unfolding resolve
  resolve-HasTenant casefold subject username r r' h =
      let (nonblank, h1) = guard-ok (is_nonempty (strip subject)) _ _ h in
      elim (Option-cases (lookup (strip subject) r.bindings)) [
        | inr (b, found) ↦
            let answer : or_resolve (lookup (strip subject) r.bindings) r
                  (resolve_legacy casefold config now (strip subject) config.legacy r)
                ≡ ok (username, r') =
              h1 in
            let last : ◌≡◌ {A = Result TenancyError (String × Registry)} (ok (b.genome_username, r))
                (ok (username, r')) =
              rw found at answer in
            let state : r ≡ r' = cc in
            (
              nonblank,
              inl (b, found, cc, state),
              λ s _. ap (λ (z : Registry). lookup s z.bindings) (sym state),
            )
        | inl unbound ↦
            let (user, b, done) =
              resolve_legacy-found casefold subject username config.legacy r r' refl unbound
                (rw unbound at h1) in
            (nonblank, inr user, λ s other. done.others s (λ e. other (e ∙ strip_idem subject)))
      ]
