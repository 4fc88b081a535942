-- ===== src/Base/Canonical.antt =====
-- `sort_keys=True` of `json.dumps`: the keys of every dict in order, at each depth.
use Prim.Native.String.{String, compare}
use mathlib.Core.Bool.{true}
use mathlib.Core.Path.{◌≡◌, refl, ap}
use mathlib.Core.Logic.{inl, inr}
use text.Mathlib.Text.{is_le}
use orbita_agent_research_se.Base.Tests.{if◌then◌else◌, Bool-cases}
use orbita_agent_research_se.Base.TextOrder.{le_total}
use orbita_agent_research_se.Base.Json.{
  Json, null, bool, int, float, str, arr, obj, Items, nil, cons, Fields, empty, field,
}

unfoldable pub insert_field : String → Json → Fields → Fields
insert_field k v empty = field k v empty
insert_field k v (field l w rest) =
    let others = insert_field k v rest in
    if is_le (compare k l) then field k v (field l w rest) else field l w others

unfoldable mutual
  unfolding insert_field

  pub sort_keys : Json → Json
  sort_keys null = null
  sort_keys (bool b) = bool b
  sort_keys (int n) = int n
  sort_keys (float x) = float x
  sort_keys (str s) = str s
  sort_keys (arr xs) = arr (sort_items xs)
  sort_keys (obj d) = obj (sort_fields d)

  pub sort_items : Items → Items
  sort_items nil = nil
  sort_items (cons v vs) = cons (sort_keys v) (sort_items vs)

  pub sort_fields : Fields → Fields
  sort_fields empty = empty
  sort_fields (field k v rest) = insert_field k (sort_keys v) (sort_fields rest)

-- the key is at most the first key
abbrev IsBelow : String → Fields → Type 0
IsBelow k empty = Unit
IsBelow k (field l w rest) = is_le (compare k l) ≡ true

mutual
  IsSorted : Json → Type 0
  IsSorted (arr xs) = AreSorted xs
  IsSorted (obj d) = IsSortedDict d
  IsSorted _ = Unit

  AreSorted : Items → Type 0
  AreSorted nil = Unit
  AreSorted (cons v vs) = IsSorted v × AreSorted vs

  IsSortedDict : Fields → Type 0
  IsSortedDict empty = Unit
  IsSortedDict (field k v rest) = IsSorted v × (IsBelow k rest × IsSortedDict rest)

insert_field-IsBelow :
    (l k : String) (v : Json) (d : Fields)
    → is_le (compare l k) ≡ true
    → IsBelow l d
    → IsBelow l (insert_field k v d)
unfolding insert_field
insert_field-IsBelow l k v empty h b = h
insert_field-IsBelow l k v (field m w rest) h b = elim (Bool-cases (is_le (compare k m))) [
  | inl first ↦ rw first h
  | inr later ↦ rw later b
]

insert_field-IsSortedDict :
    (k : String) (v : Json) (d : Fields)
    → IsSorted v
    → IsSortedDict d
    → IsSortedDict (insert_field k v d)
unfolding insert_field IsSortedDict
insert_field-IsSortedDict k v empty h s = (h, (tt, tt))
insert_field-IsSortedDict k v (field l w rest) h s = elim (Bool-cases (is_le (compare k l))) [
  | inl first ↦ rw first (h, (first, s))
  | inr later ↦ rw later (
    s.0,
    (
      insert_field-IsBelow l k v rest (le_total k l later) s.1.0,
      insert_field-IsSortedDict k v rest h s.1.1,
    ),
  )
]

insert_field-first :
    (k : String) (v : Json) (d : Fields) → IsBelow k d → insert_field k v d ≡ field k v d
unfolding insert_field
insert_field-first k v empty b = refl
insert_field-first k v (field l w rest) b = rw b

mutual
  unfolding sort_keys sort_items sort_fields IsSorted AreSorted IsSortedDict

  sort_keys-IsSorted : (v : Json) → IsSorted (sort_keys v)
  sort_keys-IsSorted null = tt
  sort_keys-IsSorted (bool b) = tt
  sort_keys-IsSorted (int n) = tt
  sort_keys-IsSorted (float x) = tt
  sort_keys-IsSorted (str s) = tt
  sort_keys-IsSorted (arr xs) = sort_items-AreSorted xs
  sort_keys-IsSorted (obj d) = sort_fields-IsSortedDict d

  sort_items-AreSorted : (xs : Items) → AreSorted (sort_items xs)
  sort_items-AreSorted nil = tt
  sort_items-AreSorted (cons v vs) = (sort_keys-IsSorted v, sort_items-AreSorted vs)

  sort_fields-IsSortedDict : (d : Fields) → IsSortedDict (sort_fields d)
  sort_fields-IsSortedDict empty = tt
  sort_fields-IsSortedDict (field k v rest) =
      insert_field-IsSortedDict k (sort_keys v) (sort_fields rest) (sort_keys-IsSorted v)
        (sort_fields-IsSortedDict rest)

mutual
  unfolding sort_keys sort_items sort_fields IsSorted AreSorted IsSortedDict

  sorted_same : (v : Json) → IsSorted v → sort_keys v ≡ v
  sorted_same null s = refl
  sorted_same (bool b) s = refl
  sorted_same (int n) s = refl
  sorted_same (float x) s = refl
  sorted_same (str t) s = refl
  sorted_same (arr xs) s = ap arr (items_same xs s)
  sorted_same (obj d) s = ap obj (dict_same d s)

  items_same : (xs : Items) → AreSorted xs → sort_items xs ≡ xs
  items_same nil s = refl
  items_same (cons v vs) s = rw (sorted_same v s.0, items_same vs s.1)

  dict_same : (d : Fields) → IsSortedDict d → sort_fields d ≡ d
  dict_same empty s = refl
  dict_same (field k v rest) s =
      rw (sorted_same v s.0, dict_same rest s.1.1, insert_field-first k v rest s.1.0)

pub sort_keys_idem : (v : Json) → sort_keys (sort_keys v) ≡ sort_keys v
sort_keys_idem v = sorted_same (sort_keys v) (sort_keys-IsSorted v)
