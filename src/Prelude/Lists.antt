-- ===== src/Prelude/Lists.antt =====
-- Lists: selection by a Boolean test, as the source's `filter` and `find` do it, and sums.
use Prim.Native.Nat.{ℕ, zero, suc}
use mathlib.Core.Path.{◌≡◌, refl, ◌∙◌}
use mathlib.Core.Bool.{Bool, false, not, ◌||◌}
use mathlib.Core.List.{List, [], ◌∷◌, ◌++◌, foldl}
use mathlib.Core.Option.{Option, none, some}
use native.Mathlib.Omega.{arith}
use mathlib.Core.Logic.{inl, inr}
use hcm.Prelude.Tests.{if◌then◌else◌, Bool-cases}
use hcm.Prelude.Int.{ℤ, pos, ◌+ℤ◌, int_laws, +ℤ_assoc}

module _ {ℓ} {A : Type ℓ} where
  abbrev pub length : List A → ℕ
  length [] = 0
  length (x ∷ xs) = suc (length xs)

  abbrev pub take : ℕ → List A → List A
  take zero xs = []
  take (suc n) [] = []
  take (suc n) (x ∷ xs) = x ∷ take n xs

  abbrev pub filter : (A → Bool) → List A → List A
  filter p [] = []
  filter p (x ∷ xs) = if p x then x ∷ filter p xs else filter p xs

  -- `find`: the first element that passes.
  abbrev pub find : (A → Bool) → List A → Option A
  find p [] = none
  find p (x ∷ xs) = if p x then some x else find p xs

  abbrev pub any : (A → Bool) → List A → Bool
  any p [] = false
  any p (x ∷ xs) = p x || any p xs

  -- The statement for every element, as nested pairs.
  abbrev pub All {κ} : (A → Type κ) → List A → Type κ
  All P [] = Unit
  All P (x ∷ xs) = P x × All P xs

  -- `xs.reduce((s, x) => s + f(x), 0)`.
  abbrev pub reduce_sum : (A → ℤ) → List A → ℤ
  reduce_sum f = foldl (λ s x. s +ℤ f x) (pos 0)

  abbrev pub sum_by : (A → ℤ) → List A → ℤ
  sum_by f [] = pos 0
  sum_by f (x ∷ xs) = f x +ℤ sum_by f xs

module _ {ℓ} {A : Type ℓ} (f : A → ℤ) where
  foldl_sum : (acc : ℤ) (xs : List A) → foldl (λ s x. s +ℤ f x) acc xs ≡ acc +ℤ sum_by f xs
  foldl_sum acc [] = omega int_laws
  foldl_sum acc (x ∷ xs) = foldl_sum (acc +ℤ f x) xs ∙ +ℤ_assoc acc (f x) (sum_by f xs)

  pub reduce_sum-eq-sum_by : (xs : List A) → reduce_sum f xs ≡ sum_by f xs
  reduce_sum-eq-sum_by xs = foldl_sum (pos 0) xs ∙ omega int_laws

  pub sum_by-append : (xs ys : List A) → sum_by f (xs ++ ys) ≡ sum_by f xs +ℤ sum_by f ys
  sum_by-append [] ys = omega int_laws
  sum_by-append (x ∷ xs) ys = rw (sum_by-append xs ys) (omega int_laws)

module _ {ℓ} {A : Type ℓ} where
  pub All-mono {κ} : {P Q : A → Type κ} (xs : List A) → ((x : A) → P x → Q x) → All P xs → All Q xs
  All-mono [] f h = tt
  All-mono (x ∷ xs) f h = (f x h.0, All-mono xs f h.1)

  pub All-mono₂ {κ} :
      {P Q R : A → Type κ} (xs : List A)
      → ((x : A) → P x → Q x → R x)
      → All P xs
      → All Q xs
      → All R xs
  All-mono₂ [] f h k = tt
  All-mono₂ (x ∷ xs) f h k = (f x h.0 k.0, All-mono₂ xs f h.1 k.1)

  pub filter_ext :
      (p q : A → Bool) (xs : List A) → All (λ x. p x ≡ q x) xs → filter p xs ≡ filter q xs
  filter_ext p q [] h = refl
  filter_ext p q (x ∷ xs) h = ground (arith, h.0, filter_ext p q xs h.1)

  -- A sum splits into what passes a test and what does not.
  pub sum_by-filter :
      (f : A → ℤ) (p : A → Bool) (xs : List A)
      → sum_by f xs ≡ sum_by f (filter p xs) +ℤ sum_by f (filter (λ x. not (p x)) xs)
  sum_by-filter f p [] = omega int_laws
  sum_by-filter f p (x ∷ xs) = elim (Bool-cases (p x)) [
    | inl e ↦ rw (e, sum_by-filter f p xs) (omega int_laws)
    | inr e ↦ rw (e, sum_by-filter f p xs) (omega int_laws)
  ]
