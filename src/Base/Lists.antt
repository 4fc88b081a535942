-- ===== src/Base/Lists.antt =====
-- Lists searched by Boolean tests, and measured by native numbers.
use Prim.Native.Nat.{ℕ, suc, ◌+◌, ◌≤◌}
use Prim.Native.String.{String}
use mathlib.Core.Path.{◌≡◌, refl}
use Prim.Native.Nat.{◌<◌}
use mathlib.Core.List.Memᴰ
use mathlib.Core.List.{Memᴰ}
use mathlib.Core.Logic.{◌↔◌, ◌⊎◌, inl, inr}
use mathlib.Core.Path.{ap, ◌∙◌}
use orbita_agent_research_se.Base.Tests.{Bool-cases}
use text.Mathlib.TextEquality.{eq_iff}
use mathlib.Core.Bool.{not, Bool, true, false, ◌||◌, ◌&&◌}
use mathlib.Core.Option.{Option, none, some}
use mathlib.Core.List.{List, [], ◌∷◌, ◌++◌, map}
use native.Mathlib.Omega.{arith}
use text.Mathlib.Text.{◌==◌}
use orbita_agent_research_se.Base.Tests.{if◌then◌else◌}

module _ {ℓ} {A : Type ℓ} where
  abbrev pub length : List A → ℕ
  length [] = 0
  length (_ ∷ xs) = suc (length xs)

  abbrev pub is_empty : List A → Bool
  is_empty [] = true
  is_empty (_ ∷ _) = false

  -- the first row that passes the test
  unfoldable pub find : (A → Bool) → List A → Option A
  find p [] = none
  find p (x ∷ xs) = if p x then some x else find p xs

  unfoldable pub filter : (A → Bool) → List A → List A
  filter p [] = []
  filter p (x ∷ xs) = let rest = filter p xs in if p x then x ∷ rest else rest

  unfoldable pub any : (A → Bool) → List A → Bool
  any p [] = false
  any p (x ∷ xs) = p x || any p xs

  unfoldable pub all : (A → Bool) → List A → Bool
  all p [] = true
  all p (x ∷ xs) = p x && all p xs

  abbrev pub All {κ} : (A → Type κ) → List A → Type κ
  All P [] = Unit
  All P (x ∷ xs) = P x × All P xs

  pub length-append : (xs ys : List A) → length (xs ++ ys) ≡ length xs + length ys
  length-append [] ys = omega arith
  length-append (x ∷ xs) ys = omega (arith, length-append xs ys)

  pub length-filter-le : (p : A → Bool) (xs : List A) → length (filter p xs) ≤ length xs
  unfolding filter
  length-filter-le p [] = omega arith
  length-filter-le p (x ∷ xs) = ground (arith, length-filter-le p xs)

-- `x in xs`
unfoldable pub elem : String → List String → Bool
elem x [] = false
elem x (y ∷ ys) = x == y || elem x ys

-- `list(dict.fromkeys(xs))`: the first occurrence of each text stays
unfoldable pub distinct : List String → List String
unfolding filter
distinct [] = []
distinct (x ∷ xs) = x ∷ filter (λ y. if x == y then false else true) (distinct xs)

pub elem-append : (x : String) (xs ys : List String) → elem x (xs ++ ys) ≡ (elem x xs || elem x ys)
unfolding elem
elem-append x [] ys = refl
elem-append x (y ∷ xs) ys = ground (arith, elem-append x xs ys)

-- how many members of `pool` are not in `seen`
unfoldable pub missing : List String → List String → ℕ
missing seen [] = 0
missing seen (p ∷ pool) = let rest = missing seen pool in if elem p seen then rest else suc rest

pub missing-le : (seen pool : List String) → missing seen pool ≤ length pool
unfolding missing
missing-le seen [] = omega arith
missing-le seen (p ∷ pool) = ground (arith, missing-le seen pool)

pub missing-append_le :
    (x : String) (seen pool : List String) → missing (seen ++ x ∷ []) pool ≤ missing seen pool
unfolding missing elem
missing-append_le x seen [] = omega arith
missing-append_le x seen (p ∷ pool) =
    ground (arith, missing-append_le x seen pool, elem-append p seen (x ∷ []))

-- A new member of the pool lowers the count.
pub missing-append_lt :
    (x : String) (seen pool : List String)
    → elem x pool ≡ true
    → elem x seen ≡ false
    → missing (seen ++ x ∷ []) pool < missing seen pool
unfolding missing elem
missing-append_lt x seen [] h k = cc
missing-append_lt x seen (p ∷ pool) h k = ground (
  arith,
  missing-append_lt x seen pool,
  missing-append_le x seen pool,
  elem-append p seen (x ∷ []),
  eq_iff x p,
  eq_iff p x,
)

elem-filter_ne :
    (x y : String) (ys : List String)
    → elem x (filter (λ z. if y == z then false else true) ys) ≡ (elem x ys && not (y == x))
unfolding filter elem
elem-filter_ne x y [] = refl
elem-filter_ne x y (z ∷ zs) =
    ground (arith, elem-filter_ne x y zs, eq_iff x z, eq_iff y z, eq_iff y x)

-- Dropping repetitions keeps the members.
pub elem-distinct : (x : String) (xs : List String) → elem x (distinct xs) ≡ elem x xs
unfolding distinct elem
elem-distinct x [] = refl
elem-distinct x (y ∷ ys) =
    ground (arith, elem-filter_ne x y (distinct ys), elem-distinct x ys, eq_iff x y, eq_iff y x)

module _ {ℓ κ} {A : Type ℓ} (P : A → Type κ) where
  pub All-filter : (p : A → Bool) (xs : List A) → All P xs → All P (filter p xs)
  unfolding filter
  All-filter p [] h = tt
  All-filter p (x ∷ xs) h = ground (arith, All-filter p xs h.1)

  pub All-append : (xs ys : List A) → All P xs → All P ys → All P (xs ++ ys)
  All-append [] ys hx hy = hy
  All-append (x ∷ xs) ys hx hy = (hx.0, All-append xs ys hx.1 hy)

  pub All-map : (f : A → A) (xs : List A) → ((x : A) → P x → P (f x)) → All P xs → All P (map f xs)
  All-map f [] k h = tt
  All-map f (x ∷ xs) k h = (k x h.0, All-map f xs k h.1)

module _ {ℓ κ μ} {A : Type ℓ} (P : A → Type κ) (Q : A → Type μ) where
  pub All-imp : (xs : List A) → ((x : A) → P x → Q x) → All P xs → All Q xs
  All-imp [] f h = tt
  All-imp (x ∷ xs) f h = (f x h.0, All-imp xs f h.1)

module _ {ℓ} {A : Type ℓ} where
  pub Memᴰ-cons : (a x : A) (xs : List A) → Memᴰ a (x ∷ xs) ↔ ((a ≡ x) ⊎ Memᴰ a xs)
  Memᴰ-cons a x xs =
      (λ m. Memᴰ.cases_cons m, λ d. elim d [ inl e ↦ Memᴰ.head e | inr t ↦ Memᴰ.tail t ])

  pub Memᴰ-filter :
      (p : A → Bool) (a : A) (xs : List A) → Memᴰ a (filter p xs) ↔ (Memᴰ a xs × (p a ≡ true))
  unfolding filter
  Memᴰ-filter p a [] = (λ m. absurd (Memᴰ.not-nil m), λ m. m.0)
  Memᴰ-filter p a (x ∷ xs) =
      let ih = Memᴰ-filter p a xs in
      elim (Bool-cases (p x)) [
        | inl kept ↦ rw kept (
          λ m. elim ((Memᴰ-cons a x _).0 m) [
            | inl e ↦ (Memᴰ.head e, ap p e ∙ kept)
            | inr t ↦ let (u, h) = ih.0 t in (Memᴰ.tail u, h)
          ],
          λ m. elim ((Memᴰ-cons a x xs).0 m.0) [
            | inl e ↦ Memᴰ.head e
            | inr t ↦ Memᴰ.tail (ih.1 (t, m.1))
          ],
        )
        | inr dropped ↦ rw dropped (
          λ m. let (u, h) = ih.0 m in (Memᴰ.tail u, h),
          λ m. elim ((Memᴰ-cons a x xs).0 m.0) [
            | inl e ↦ absurd (cc (ap p e))
            | inr t ↦ ih.1 (t, m.1)
          ],
        )
      ]
