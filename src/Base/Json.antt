-- ===== src/Base/Json.antt =====
-- JSON values as `json.loads` gives them. A finite float is `mantissa * 2 ** exponent`.
use orbita_agent_research_se.Base.Tests.{ltb, leb, nat_eq, if◌then◌else◌}
use orbita_agent_research_se.Base.Texts.{is_nonempty}
use Prim.Native.Nat.{ℕ, zero, suc, ◌*◌, ◌/◌, ◌^◌}
use Prim.Native.String.{String}
use mathlib.Core.Bool.{Bool, true, false, not}
use mathlib.Core.Option.{Option, none, some}
use text.Mathlib.Text.{◌==◌}

-- `negsuc n` is -(n + 1)
pub data ℤ : Type 0 where
  pos : ℕ → ℤ
  negsuc : ℕ → ℤ

pub data Float : Type 0 where
  finite : (mantissa exponent : ℤ) → Float
  infinite : (negative : Bool) → Float
  nan : Float

mutual
  pub data Json : Type 0 where
    null : Json
    bool : Bool → Json
    int : ℤ → Json
    float : Float → Json
    str : String → Json
    arr : Items → Json
    obj : Fields → Json

  pub data Items : Type 0 where
    nil : Items
    cons : Json → Items → Items

  -- a dict: its keys are all different
  pub data Fields : Type 0 where
    empty : Fields
    field : String → Json → Fields → Fields

-- `d.get(key)`
unfoldable pub get : Fields → String → Option Json
get empty key = none
get (field k v rest) key = if k == key then some v else get rest key

abbrev pub is_zero : ℤ → Bool
is_zero (pos n) = nat_eq n 0
is_zero (negsuc n) = false

-- `bool(value)`
unfoldable pub truthy : Json → Bool
truthy null = false
truthy (bool b) = b
truthy (int i) = not (is_zero i)
truthy (float (finite m e)) = not (is_zero m)
truthy (float _) = true
truthy (str s) = is_nonempty s
truthy (arr nil) = false
truthy (arr (cons _ _)) = true
truthy (obj empty) = false
truthy (obj (field _ _ _)) = true

-- `bool(d.get(key))`
unfoldable pub get_truthy : Fields → String → Bool
unfolding get truthy
get_truthy d key = elim (get d key) [ none ↦ false | some v ↦ truthy v ]

negate : ℕ → ℤ
negate zero = pos 0
negate (suc n) = negsuc n

-- `mantissa * 2 ** exponent` cut towards zero
truncate : ℤ → ℤ → ℤ
unfolding negate
truncate (pos m) (pos e) = pos (m * 2 ^ e)
truncate (pos m) (negsuc e) = pos (m / 2 ^ suc e)
truncate (negsuc m) (pos e) = negate (suc m * 2 ^ e)
truncate (negsuc m) (negsuc e) = negate (suc m / 2 ^ suc e)

-- `int(value)`; `none` is a TypeError, ValueError or OverflowError. What `int` reads in a text,
-- `parse_int`, depends on the Unicode tables and is a parameter.
unfoldable pub to_int : (String → Option ℤ) → Json → Option ℤ
unfolding truncate
to_int parse_int (bool true) = some (pos 1)
to_int parse_int (bool false) = some (pos 0)
to_int parse_int (int i) = some i
to_int parse_int (float (finite m e)) = some (truncate m e)
to_int parse_int (str s) = parse_int s
to_int parse_int _ = none

-- `a < b` for a count `a`
abbrev pub count_lt : ℕ → ℤ → Bool
count_lt a (pos b) = ltb a b
count_lt a (negsuc b) = false

-- `0.0 <= x <= 1.0`
unfoldable pub in_unit_interval : Float → Bool
in_unit_interval (finite (pos m) (pos e)) = leb (m * 2 ^ e) 1
in_unit_interval (finite (pos m) (negsuc e)) = leb m (2 ^ suc e)
in_unit_interval _ = false
