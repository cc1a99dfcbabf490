-- ===== src/Prelude/Rows.antt =====
-- Tables as lists of rows: the parts of a statement that every table shares.
use Prim.Native.Nat.{ℕ, zero, suc, ◌+◌, ◌≤◌}
use mathlib.Core.Path.{◌≡◌, ◌∙◌, refl, sym, ap}
use mathlib.Core.Logic.{inl, inr, ◌⊎◌}
use mathlib.Core.Bool.{Bool, true, false, ◌||◌}
use mathlib.Core.Option.{Option, none, some}
use mathlib.Core.List.{List, [], ◌∷◌, ◌++◌}
use native.Mathlib.Omega.{arith}
use easy_cron.Prelude.Tests.{if◌then◌else◌, leb, Bool-cases}
use easy_cron.Prelude.Lists.{take, keep, In, All, length, In-take}

module _ {ℓ} {A : Type ℓ} where
  -- `EXISTS`, and the row that a statement with a key reads.
  abbrev pub any : (A → Bool) → List A → Bool
  any p [] = false
  any p (x ∷ xs) = p x || any p xs

  abbrev pub find_row : (A → Bool) → List A → Option A
  find_row p [] = none
  find_row p (x ∷ xs) = if p x then some x else find_row p xs

  -- `UPDATE … SET f WHERE p`.
  abbrev pub update_rows : (A → Bool) → (A → A) → List A → List A
  update_rows p f [] = []
  update_rows p f (x ∷ xs) = (if p x then f x else x) ∷ update_rows p f xs

  abbrev pub drop : ℕ → List A → List A
  drop zero xs = xs
  drop (suc n) [] = []
  drop (suc n) (x ∷ xs) = drop n xs

  -- `LIMIT limit OFFSET offset`.
  abbrev pub page : ℕ → ℕ → List A → List A
  page limit offset xs = take limit (drop offset xs)

  -- `ORDER BY`, by insertion; `leq x y` tells that `x` may stand before `y`.
  abbrev pub insert_row : (A → A → Bool) → A → List A → List A
  insert_row leq x [] = x ∷ []
  insert_row leq x (y ∷ ys) = if leq x y then x ∷ y ∷ ys else y ∷ insert_row leq x ys

  abbrev pub order_by : (A → A → Bool) → List A → List A
  order_by leq [] = []
  order_by leq (x ∷ xs) = insert_row leq x (order_by leq xs)

  -- `ORDER BY key DESC`.
  abbrev pub order_desc : (A → ℕ) → List A → List A
  order_desc key xs = order_by (λ x y. leb (key y) (key x)) xs

module _ {ℓ} {A : Type ℓ} where
  pub any-none : (p : A → Bool) (xs : List A) → any p xs ≡ false → find_row p xs ≡ none
  any-none p [] h = refl
  any-none p (x ∷ xs) h = ground (arith, any-none p xs)

  -- An update that leaves what `q` looks for alone does not change what it finds.
  pub find_row-update_rows_other :
      (p q : A → Bool) (f : A → A) (xs : List A)
      → ((x : A) → p x ≡ true → (q x ≡ false) × (q (f x) ≡ false))
      → find_row q (update_rows p f xs) ≡ find_row q xs
  find_row-update_rows_other p q f [] h = refl
  find_row-update_rows_other p q f (x ∷ xs) h =
      ground (arith, h x, find_row-update_rows_other p q f xs h)

  -- Dropping rows that `q` does not look for.
  pub find_row-keep :
      (p q : A → Bool) (xs : List A)
      → ((x : A) → q x ≡ true → p x ≡ true)
      → find_row q (keep p xs) ≡ find_row q xs
  find_row-keep p q [] h = refl
  find_row-keep p q (x ∷ xs) h = ground (arith, h x, find_row-keep p q xs h)

  pub keep-keep :
      (p q : A → Bool) (xs : List A)
      → ((x : A) → q x ≡ true → p x ≡ true)
      → keep q (keep p xs) ≡ keep q xs
  keep-keep p q [] h = refl
  keep-keep p q (x ∷ xs) h = ground (arith, h x, keep-keep p q xs h)

  pub keep-update_rows_other :
      (p q : A → Bool) (f : A → A) (xs : List A)
      → ((x : A) → p x ≡ true → (q x ≡ false) × (q (f x) ≡ false))
      → keep q (update_rows p f xs) ≡ keep q xs
  keep-update_rows_other p q f [] h = refl
  keep-update_rows_other p q f (x ∷ xs) h = ground (arith, h x, keep-update_rows_other p q f xs h)

module _ {A : Type 0} where
  pub find_row-In :
      (p : A → Bool) (xs : List A) (a : A) → find_row p xs ≡ some a → In a xs × (p a ≡ true)
  find_row-In p [] a h = absurd (ground arith)
  find_row-In p (x ∷ xs) a h = elim (Bool-cases (p x)) [
    | inl e ↦ (inl (ground arith), ground arith)
    | inr e ↦ let r = find_row-In p xs a (ground arith) in (inr r.0, r.1)
  ]

  pub In-any : (p : A → Bool) (xs : List A) (a : A) → In a xs → p a ≡ true → any p xs ≡ true
  In-any p [] a m e = absurd m
  In-any p (x ∷ xs) a (inl q) e = ground arith
  In-any p (x ∷ xs) a (inr m) e = ground (arith, In-any p xs a m e)

  pub In-update_rows :
      (p : A → Bool) (f : A → A) (xs : List A) (b : A)
      → In b (update_rows p f xs)
      → (a : A) × In a xs × (b ≡ (if p a then f a else a))
  In-update_rows p f [] b m = absurd m
  In-update_rows p f (x ∷ xs) b (inl e) = (x, inl refl, e)
  In-update_rows p f (x ∷ xs) b (inr m) = let (a, i, e) = In-update_rows p f xs b m in (a, inr i, e)

  pub update_rows-In :
      (p : A → Bool) (f : A → A) (xs : List A) (a : A)
      → In a xs
      → In (if p a then f a else a) (update_rows p f xs)
  update_rows-In p f [] a m = absurd m
  update_rows-In p f (x ∷ xs) a (inl e) = inl (ap (λ z. if p z then f z else z) e)
  update_rows-In p f (x ∷ xs) a (inr m) = inr (update_rows-In p f xs a m)

module _ {ℓ κ μ} {A : Type ℓ} (P : A → Type κ) where
  pub All-map : (Q : A → Type μ) (xs : List A) → ((a : A) → P a → Q a) → All P xs → All Q xs
  All-map Q [] f h = tt
  All-map Q (x ∷ xs) f h = (f x h.0, All-map Q xs f h.1)

module _ {ℓ κ} {A : Type ℓ} (P : A → Type κ) where
  pub All-keep : (p : A → Bool) (xs : List A) → All P xs → All P (keep p xs)
  All-keep p [] h = tt
  All-keep p (x ∷ xs) h = elim (Bool-cases (p x)) [
    | inl e ↦ rw e (h.0, All-keep p xs h.1)
    | inr e ↦ rw e (All-keep p xs h.1)
  ]

  pub All-update_rows :
      (p : A → Bool) (f : A → A) (xs : List A)
      → ((a : A) → P a → P (f a))
      → All P xs
      → All P (update_rows p f xs)
  All-update_rows p f [] g h = tt
  All-update_rows p f (x ∷ xs) g h = elim (Bool-cases (p x)) [
    | inl e ↦ rw e (g x h.0, All-update_rows p f xs g h.1)
    | inr e ↦ rw e (h.0, All-update_rows p f xs g h.1)
  ]

module _ {A : Type 0} (leq : A → A → Bool) where
  insert_row-In : (x : A) (xs : List A) (a : A) → (a ≡ x) ⊎ In a xs → In a (insert_row leq x xs)
  insert_row-In x [] a h = h
  insert_row-In x (y ∷ ys) a h = elim (Bool-cases (leq x y)) [
    | inl e ↦ rw e h
    | inr e ↦ rw e (elim h [
      | inl q ↦ inr (insert_row-In x ys a (inl q))
      | inr m ↦ elim m [ inl q ↦ inl q | inr i ↦ inr (insert_row-In x ys a (inr i)) ]
    ])
  ]

  In-insert_row : (x : A) (xs : List A) (a : A) → In a (insert_row leq x xs) → (a ≡ x) ⊎ In a xs
  In-insert_row x [] a h = h
  In-insert_row x (y ∷ ys) a h = elim (Bool-cases (leq x y)) [
    | inl e ↦ rw e at h
    | inr e ↦ elim (rw e at h) [
      | inl q ↦ inr (inl q)
      | inr m ↦ elim (In-insert_row x ys a m) [ inl q ↦ inl q | inr i ↦ inr (inr i) ]
    ]
  ]

  -- An order has the same rows.
  pub order_by-In : (xs : List A) (a : A) → In a xs → In a (order_by leq xs)
  order_by-In [] a h = h
  order_by-In (x ∷ xs) a (inl q) = insert_row-In x (order_by leq xs) a (inl q)
  order_by-In (x ∷ xs) a (inr m) = insert_row-In x (order_by leq xs) a (inr (order_by-In xs a m))

  pub In-order_by : (xs : List A) (a : A) → In a (order_by leq xs) → In a xs
  In-order_by [] a h = h
  In-order_by (x ∷ xs) a h = elim (In-insert_row x (order_by leq xs) a h) [
    | inl q ↦ inl q
    | inr m ↦ inr (In-order_by xs a m)
  ]

  length-insert_row : (x : A) (xs : List A) → length (insert_row leq x xs) ≡ suc (length xs)
  length-insert_row x [] = refl
  length-insert_row x (y ∷ ys) = ground (arith, length-insert_row x ys)

  pub length-order_by : (xs : List A) → length (order_by leq xs) ≡ length xs
  length-order_by [] = refl
  length-order_by (x ∷ xs) = length-insert_row x (order_by leq xs) ∙ ap suc (length-order_by xs)

module _ {A : Type 0} where
  In-drop : (n : ℕ) (xs : List A) (a : A) → In a (drop n xs) → In a xs
  In-drop zero xs a h = h
  In-drop (suc n) [] a h = h
  In-drop (suc n) (x ∷ xs) a h = inr (In-drop n xs a h)

  pub In-page : (limit offset : ℕ) (xs : List A) (a : A) → In a (page limit offset xs) → In a xs
  In-page limit offset xs a h = In-drop offset xs a (In-take limit (drop offset xs) a h)

  pub take-all : (n : ℕ) (xs : List A) → length xs ≤ n → take n xs ≡ xs
  take-all zero [] h = refl
  take-all zero (x ∷ xs) h = absurd (ground arith)
  take-all (suc n) [] h = refl
  take-all (suc n) (x ∷ xs) h = ap (λ ys. x ∷ ys) (take-all n xs (ground arith))

  take-append : (m n k : ℕ) (xs : List A) → m + n ≡ k → take m xs ++ take n (drop m xs) ≡ take k xs
  take-append zero n k xs e = let q : n ≡ k = omega arith in ap (λ z. take z xs) q
  take-append (suc m) n zero xs e = absurd (omega arith)
  take-append (suc m) zero (suc k) [] e = refl
  take-append (suc m) (suc n) (suc k) [] e = refl
  take-append (suc m) n (suc k) (x ∷ xs) e = ap (λ ys. x ∷ ys) (take-append m n k xs (omega arith))

  drop-drop : (m n k : ℕ) (xs : List A) → m + n ≡ k → drop n (drop m xs) ≡ drop k xs
  drop-drop zero n k xs e = let q : n ≡ k = omega arith in ap (λ z. drop z xs) q
  drop-drop (suc m) n zero xs e = absurd (omega arith)
  drop-drop (suc m) zero (suc k) [] e = refl
  drop-drop (suc m) (suc n) (suc k) [] e = refl
  drop-drop (suc m) n (suc k) (x ∷ xs) e = drop-drop m n k xs (omega arith)

  -- Two pages one after the other are one longer page.
  pub page-append :
      (m n offset : ℕ) (xs : List A)
      → page m offset xs ++ page n (offset + m) xs ≡ page (m + n) offset xs
  page-append m n offset xs =
      ap (λ ys. page m offset xs ++ take n ys) (sym (drop-drop offset m (offset + m) xs refl))
      ∙ take-append m n (m + n) (drop offset xs) refl
