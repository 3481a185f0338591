-- ===== src/Prelude/Texts.antt =====
-- Dictionaries with text keys, for the source's `Map<string, V>` and its sets of ids.
use Prim.Native.String.{String, ◌++◌ as concat}
use mathlib.Core.Path.{◌≡◌, refl}
use mathlib.Core.Bool.{Bool, false, ◌||◌}
use mathlib.Core.List.{List, [], ◌∷◌, foldl, ◌++◌}
use mathlib.Core.Option.{Option, none, some}
use native.Mathlib.Omega.{arith}
use text.Mathlib.Text.{◌==◌}
use text.Mathlib.TextEquality.{eq_iff}
use hcm.Prelude.Tests.{if◌then◌else◌}

-- Insertion order, as `Map.prototype.values` yields it.
abbrev pub Dict {ℓ} : Type ℓ → Type ℓ
Dict V = List (String × V)

module _ {ℓ} {V : Type ℓ} where
  -- `map.get(key)`
  abbrev pub lookup : String → Dict V → Option V
  lookup key [] = none
  lookup key (entry ∷ rest) = if entry.0 == key then some entry.1 else lookup key rest

  -- `map.set(key, value)`: an old key keeps its place, and what follows it stays.
  abbrev pub insert : String → V → Dict V → Dict V
  insert key value [] = (key, value) ∷ []
  insert key value (entry ∷ rest) =
      let found = entry.0 == key in
      (if found then (key, value) else entry) ∷ (if found then rest else insert key value rest)

  pub lookup-insert :
      (written asked : String) (value : V) (map : Dict V)
      → lookup asked (insert written value map)
        ≡ (if written == asked then some value else lookup asked map)
  lookup-insert written asked value [] = refl
  lookup-insert written asked value (entry ∷ rest) = ground (
    arith,
    lookup-insert written asked value rest,
    eq_iff entry.0 asked,
    eq_iff entry.0 written,
    eq_iff written asked,
  )

  -- `map.delete(key)`
  abbrev pub remove : String → Dict V → Dict V
  remove key [] = []
  remove key (entry ∷ rest) =
      let kept = remove key rest in if entry.0 == key then kept else entry ∷ kept

  pub lookup-remove :
      (gone asked : String) (map : Dict V)
      → lookup asked (remove gone map) ≡ (if gone == asked then none else lookup asked map)
  lookup-remove gone asked [] = ground arith
  lookup-remove gone asked (entry ∷ rest) = ground (
    arith,
    lookup-remove gone asked rest,
    eq_iff entry.0 asked,
    eq_iff entry.0 gone,
    eq_iff gone asked,
  )

-- `s.has(x)`, and `xs.includes(x)`
abbrev pub has : String → List String → Bool
has x [] = false
has x (y ∷ ys) = y == x || has x ys

-- `s.add(x)`: a set keeps the order of first insertion.
abbrev pub add : List String → String → List String
add s x = if has x s then s else s ++ x ∷ []

-- `new Set(xs)`, spread back into a list.
abbrev pub to_set : List String → List String
to_set = foldl add []

has-append : (x y : String) (s : List String) → has x (s ++ y ∷ []) ≡ (has x s || y == x)
has-append x y [] = ground arith
has-append x y (z ∷ s) = ground (arith, has-append x y s)

has-add : (x y : String) (s : List String) → has x (add s y) ≡ (has x s || y == x)
has-add x y s = ground (arith, has-append x y s, eq_iff y x, same)
  where
    same : y ≡ x → has y s ≡ has x s
    same e = cc

has-foldl : (x : String) (s xs : List String) → has x (foldl add s xs) ≡ (has x s || has x xs)
has-foldl x s [] = ground arith
has-foldl x s (y ∷ ys) = ground (arith, has-foldl x (add s y) ys, has-add x y s)

-- Membership in the set is membership in the list that it was made from.
pub has-to_set : (x : String) (xs : List String) → has x (to_set xs) ≡ has x xs
has-to_set x xs = has-foldl x [] xs

-- `${s}${t}`
infixr 65 ◌<>◌
abbrev pub ◌<>◌ : String → String → String
s <> t = concat s t

-- The text if it is given and not empty: an empty text is falsy.
abbrev pub truthy : Option String → Option String
truthy none = none
truthy (some s) = if s == "" then none else some s
