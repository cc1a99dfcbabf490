-- ===== src/Prelude/Lists.antt =====
-- Lists measured by native numbers, under the library's names.
use Prim.Native.Nat.{ℕ, zero, suc, ◌+◌, ◌≤◌}
use mathlib.Core.Path.{◌≡◌, refl}
use mathlib.Core.Logic.{◌⊎◌, inl, inr}
use mathlib.Core.List.{List, [], ◌∷◌, ◌++◌}
use mathlib.Core.Bool.{Bool, true}
use native.Mathlib.Omega.{arith}
use easy_cron.Prelude.Tests.{if◌then◌else◌, Bool-cases}

module _ {ℓ} {A : Type ℓ} where
  abbrev pub length : List A → ℕ
  length [] = 0
  length (x ∷ xs) = suc (length xs)

  abbrev pub take : ℕ → List A → List A
  take zero xs = []
  take (suc n) [] = []
  take (suc n) (x ∷ xs) = x ∷ take n xs

  -- `get_or xs i d` is the element at `i`, and `d` where there is none.
  abbrev pub get_or : List A → ℕ → A → A
  get_or [] i d = d
  get_or (x ∷ xs) zero d = x
  get_or (x ∷ xs) (suc i) d = get_or xs i d

  -- The elements that a test keeps, in their order.
  abbrev pub keep : (A → Bool) → List A → List A
  keep p [] = []
  keep p (x ∷ xs) = if p x then x ∷ keep p xs else keep p xs

  -- A predicate holds of every element.
  abbrev pub All {κ} : (A → Type κ) → List A → Type κ
  All P [] = Unit
  All P (x ∷ xs) = P x × All P xs

module _ {ℓ} {A : Type ℓ} where
  pub length-append : (xs ys : List A) → length (xs ++ ys) ≡ length xs + length ys
  length-append [] ys = omega arith
  length-append (x ∷ xs) ys = omega (arith, length-append xs ys)

  pub length-take-le : (n : ℕ) (xs : List A) → length (take n xs) ≤ n
  length-take-le zero xs = omega arith
  length-take-le (suc n) [] = omega arith
  length-take-le (suc n) (x ∷ xs) = omega (arith, length-take-le n xs)

  pub length-keep-le : (p : A → Bool) (xs : List A) → length (keep p xs) ≤ length xs
  length-keep-le p [] = omega arith
  length-keep-le p (x ∷ xs) = ground (arith, length-keep-le p xs)

  pub All-append {κ} : (P : A → Type κ) (xs ys : List A) → All P xs → All P ys → All P (xs ++ ys)
  All-append P [] ys h k = k
  All-append P (x ∷ xs) ys h k = (h.0, All-append P xs ys h.1 k)

  pub All-take {κ} : (P : A → Type κ) (n : ℕ) (xs : List A) → All P xs → All P (take n xs)
  All-take P zero xs h = tt
  All-take P (suc n) [] h = tt
  All-take P (suc n) (x ∷ xs) h = (h.0, All-take P n xs h.1)

-- Membership by recursion, which computes to sums that the tactics read.
abbrev pub In : {A : Type 0} → A → List A → Type 0
In a [] = ⊥
In a (x ∷ xs) = (a ≡ x) ⊎ In a xs

module _ {A : Type 0} where
  pub In-keep : (p : A → Bool) (xs : List A) (a : A) → In a (keep p xs) → In a xs × (p a ≡ true)
  In-keep p [] a h = absurd h
  In-keep p (x ∷ xs) a h = elim (Bool-cases (p x)) [
    | inl e ↦ elim (rw e at h) [
      | inl q ↦ (inl q, rw q e)
      | inr m ↦ let r = In-keep p xs a m in (inr r.0, r.1)
    ]
    | inr e ↦ let r = In-keep p xs a (rw e at h) in (inr r.0, r.1)
  ]

  pub keep-In : (p : A → Bool) (xs : List A) (a : A) → In a xs → p a ≡ true → In a (keep p xs)
  keep-In p [] a h e = absurd h
  keep-In p (x ∷ xs) a (inl q) e = rw (← q, e) (inl refl)
  keep-In p (x ∷ xs) a (inr m) e = elim (Bool-cases (p x)) [
    | inl d ↦ rw d (inr (keep-In p xs a m e))
    | inr d ↦ rw d (keep-In p xs a m e)
  ]

  pub In-take : (n : ℕ) (xs : List A) (a : A) → In a (take n xs) → In a xs
  In-take zero xs a h = absurd h
  In-take (suc n) [] a h = absurd h
  In-take (suc n) (x ∷ xs) a (inl e) = inl e
  In-take (suc n) (x ∷ xs) a (inr h) = inr (In-take n xs a h)

  pub All-In {κ} : (P : A → Type κ) (xs : List A) (a : A) → All P xs → In a xs → P a
  All-In P [] a h i = absurd i
  All-In P (x ∷ xs) a h (inl e) = rw e h.0
  All-In P (x ∷ xs) a h (inr i) = All-In P xs a h.1 i

  pub In-append : (xs ys : List A) (a : A) → In a (xs ++ ys) → In a xs ⊎ In a ys
  In-append [] ys a h = inr h
  In-append (x ∷ xs) ys a (inl e) = inl (inl e)
  In-append (x ∷ xs) ys a (inr h) = elim (In-append xs ys a h) [
    | inl i ↦ inl (inr i)
    | inr i ↦ inr i
  ]
