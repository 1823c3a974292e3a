-- ===== src/Prelude/Distinct.antt =====
-- Lists of keys without repetition, counting over them, and maps from keys.
use Prim.Native.Nat.{ℕ, ◌+◌, ◌≤◌, ◌<◌}
use Prim.Native.String.{String}
use mathlib.Core.Logic.{inl, inr}
use mathlib.Core.Path.{◌≡◌, refl, subst}
use mathlib.Core.Bool.{Bool, true, false, ◌||◌}
use mathlib.Core.List.{List, [], ◌∷◌, ◌++◌}
use native.Mathlib.Omega.{arith}
use text.Mathlib.Text.{◌==◌ as str_eq}
use text.Mathlib.TextEquality.{eq_iff}
use text.Mathlib.TextPositions.{eq_refl}
use virmux.Prelude.Tests.{if◌then◌else◌, bit, Bool-cases}
use virmux.Prelude.Lists.{length}

-- m[k] = v
unfoldable pub update {ℓ} : {V : Type ℓ} → (String → V) → String → V → String → V
update f k v j = if str_eq k j then v else f j

pub update_self {ℓ} : {V : Type ℓ} (f : String → V) (k : String) (v : V) → update f k v k ≡ v
unfolding update
update_self f k v = rw (eq_refl k)

pub update_ne {ℓ} :
    {V : Type ℓ} (f : String → V) (k : String) (v : V) (j : String)
    → str_eq k j ≡ false
    → update f k v j ≡ f j
unfolding update
update_ne f k v j h = rw h

-- `for _, y := range xs { if y == x { return true } }`
abbrev pub elem : String → List String → Bool
elem x [] = false
elem x (y ∷ ys) = str_eq y x || elem x ys

abbrev pub IsDistinct : List String → Type 0
IsDistinct [] = Unit
IsDistinct (x ∷ xs) = (elem x xs ≡ false) × IsDistinct xs

abbrev pub count : (String → Bool) → List String → ℕ
count p [] = 0
count p (x ∷ xs) = bit (p x) + count p xs

-- Each key once, at its last place.
abbrev pub distinct : List String → List String
distinct [] = []
distinct (x ∷ xs) = let rest = distinct xs in if elem x xs then rest else x ∷ rest

pub elem-distinct : (x : String) (xs : List String) → elem x (distinct xs) ≡ elem x xs
elem-distinct x [] = refl
elem-distinct x (y ∷ ys) = ground (arith, elem-distinct x ys, elem-distinct y ys, eq_iff y x)

pub distinct-IsDistinct : (xs : List String) → IsDistinct (distinct xs)
distinct-IsDistinct [] = tt
distinct-IsDistinct (x ∷ xs) = ground (arith, elem-distinct x xs, distinct-IsDistinct xs)

pub length-distinct-le : (xs : List String) → length (distinct xs) ≤ length xs
length-distinct-le [] = omega arith
length-distinct-le (x ∷ xs) = ground (arith, length-distinct-le xs)

pub distinct_self : (xs : List String) → IsDistinct xs → distinct xs ≡ xs
distinct_self [] h = refl
distinct_self (x ∷ xs) h = ground (arith, distinct_self xs h.1)

-- The conclusion says that a key stands twice.
pub length-distinct-lt :
    (x : String) (before after : List String)
    → elem x after ≡ true
    → length (distinct (before ++ x ∷ after)) < length (before ++ x ∷ after)
length-distinct-lt x [] after h = ground (arith, length-distinct-le after)
length-distinct-lt x (y ∷ before) after h = ground (arith, length-distinct-lt x before after h)

module _ (p q : String → Bool) (x : String)
    (same : (j : String) → str_eq x j ≡ false → q j ≡ p j) where
  pub count_same : (xs : List String) → elem x xs ≡ false → count q xs ≡ count p xs
  count_same [] h = refl
  count_same (y ∷ ys) h = ground (arith, same y, eq_iff x y, eq_iff y x, count_same ys)

  -- A change at one key changes a count by that key.
  pub count_change :
      (xs : List String)
      → IsDistinct xs
      → elem x xs ≡ true
      → count q xs + bit (p x) ≡ count p xs + bit (q x)
  count_change [] d h = ground arith
  count_change (y ∷ ys) d h =
      ground (arith, same y, eq_iff x y, eq_iff y x, count_same ys, count_change ys d.1)

pub count-le-length : (p : String → Bool) (xs : List String) → count p xs ≤ length xs
count-le-length p [] = omega arith
count-le-length p (x ∷ xs) = ground (arith, count-le-length p xs)

pub count_all :
    (p : String → Bool) (xs : List String)
    → ((x : String) → elem x xs ≡ true → p x ≡ true)
    → count p xs ≡ length xs
count_all p [] h = refl
count_all p (x ∷ xs) h = ground (arith, h x, eq_refl x, count_all p xs (λ y m. h y (ground arith)))

-- Where a count is 0, the predicate fails on every element.
pub count_none :
    (p : String → Bool) (x : String) (xs : List String)
    → count p xs ≡ 0
    → elem x xs ≡ true
    → p x ≡ false
count_none p x [] h m = ground arith
count_none p x (y ∷ ys) h m = ground (arith, eq_iff y x, count_none p x ys)

pub count_zero :
    (p : String → Bool) (xs : List String)
    → ((x : String) → elem x xs ≡ true → p x ≡ false)
    → count p xs ≡ 0
count_zero p [] h = refl
count_zero p (x ∷ xs) h =
    ground (arith, h x, eq_refl x, count_zero p xs (λ y m. h y (ground arith)))

pub ne_of_elem :
    (x y : String) (xs : List String) → elem x xs ≡ false → elem y xs ≡ true → str_eq x y ≡ false
ne_of_elem x y xs out mem = elim (Bool-cases (str_eq x y)) [
  | inl same ↦ absurd (cc (subst (λ k. elem k xs ≡ false) ((eq_iff x y).0 same) out))
  | inr other ↦ other
]
