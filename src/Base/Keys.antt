-- ===== src/Base/Keys.antt =====
-- Rows with a primary key: no two have one key.
use Prim.Native.String.{String}
use mathlib.Core.Bool.{Bool, false, ◌||◌}
use mathlib.Core.List.{List, [], ◌∷◌, ◌++◌, map}
use mathlib.Core.Path.{◌≡◌, refl}
use mathlib.Core.Logic.{◌≢◌}
use native.Mathlib.Omega.{arith}
use text.Mathlib.Text.{◌==◌}
use text.Mathlib.TextEquality.{eq_iff}
use orbita_agent_research_se.Base.Lists.{any, filter, All}

module _ {ℓ} {A : Type ℓ} (key : A → String) where
  -- `SELECT 1 ... WHERE key = ?` finds a row
  abbrev pub has_key : String → List A → Bool
  has_key k xs = any (λ (x : A). key x == k) xs

  abbrev pub AreKeyed : List A → Type 0
  AreKeyed [] = Unit
  AreKeyed (x ∷ xs) = (has_key (key x) xs ≡ false) × AreKeyed xs

  pub no_key : (k : String) (xs : List A) → has_key k xs ≡ false → All (λ (x : A). key x ≢ k) xs
  unfolding any
  no_key k [] h = tt
  no_key k (x ∷ xs) h = (λ e. ground (arith, eq_iff (key x) k), no_key k xs (ground arith))

  has_key-filter :
      (k : String) (p : A → Bool) (xs : List A)
      → has_key k xs ≡ false
      → has_key k (filter p xs) ≡ false
  unfolding any filter
  has_key-filter k p [] h = refl
  has_key-filter k p (x ∷ xs) h = ground (arith, has_key-filter k p xs)

  pub AreKeyed-filter : (p : A → Bool) (xs : List A) → AreKeyed xs → AreKeyed (filter p xs)
  unfolding filter
  AreKeyed-filter p [] h = tt
  AreKeyed-filter p (x ∷ xs) h =
      ground (arith, AreKeyed-filter p xs h.1, has_key-filter (key x) p xs h.0)

  has_key-append :
      (k : String) (xs : List A) (y : A) → has_key k (xs ++ y ∷ []) ≡ (has_key k xs || key y == k)
  unfolding any
  has_key-append k [] y = ground arith
  has_key-append k (x ∷ xs) y = ground (arith, has_key-append k xs y)

  pub AreKeyed-append :
      (xs : List A) (y : A) → has_key (key y) xs ≡ false → AreKeyed xs → AreKeyed (xs ++ y ∷ [])
  unfolding any
  AreKeyed-append [] y new h = (refl, tt)
  AreKeyed-append (x ∷ xs) y new h = (
    ground
        (arith, has_key-append (key x) xs y, eq_iff (key y) (key x), eq_iff (key x) (key y), h.0),
    AreKeyed-append xs y (ground arith) h.1,
  )

  module _ (f : A → A) (same : (x : A) → key (f x) ≡ key x) where
    pub has_key-map : (k : String) (xs : List A) → has_key k (map f xs) ≡ has_key k xs
    unfolding any
    has_key-map k [] = refl
    has_key-map k (x ∷ xs) = rw (same x, has_key-map k xs)

    pub AreKeyed-map : (xs : List A) → AreKeyed xs → AreKeyed (map f xs)
    AreKeyed-map [] h = tt
    AreKeyed-map (x ∷ xs) h = (rw (same x, has_key-map (key x) xs) h.0, AreKeyed-map xs h.1)
