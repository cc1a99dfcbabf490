-- ===== src/Store/Rows.antt =====
-- internal/store/postgres: lemmas on the rows that the statements read and write.
use easy_cron.Prelude.{
  ℕ, ◌≤◌, ◌≡◌, ◌≢◌, ◌⊎◌, refl, Bool, true, false, Option, none, some, List, [], ◌∷◌, if◌then◌else◌,
  leb, ◌==◌, arith, Bool-cases, inl, inr, In, All, All-In, ==_iff,
}
use easy_cron.Domain.{Time, Uuid, Execution}
use easy_cron.Store.{Table, find, update_where, count_where, insert_by, order_by, first, conflicts}

-- Two rows that the primary key and the unique constraint let stand together.
abbrev pub Apart : Execution → Execution → Type 0
Apart r q = (r.id ≢ q.id) × (r.job_id ≡ q.job_id → r.scheduled_at ≢ q.scheduled_at)

abbrev pub IsUnique : Table → Type 0
IsUnique [] = Unit
IsUnique (r ∷ t) = All (Apart r) t × IsUnique t

-- What keeps the keys of a row.
abbrev pub KeepsKeys : (Execution → Execution) → Type 0
KeepsKeys f =
    (r : Execution)
    → ((f r).id ≡ r.id) × ((f r).job_id ≡ r.job_id) × ((f r).scheduled_at ≡ r.scheduled_at)

abbrev pub map_row :
    (Execution → Bool) → (Execution → Execution) → Option Execution → Option Execution
map_row p f none = none
map_row p f (some r) = some (if p r then f r else r)

module _ (p : Execution → Bool) (f : Execution → Execution) (keys : KeepsKeys f) where
  pub find-update_where :
      (i : Uuid) (t : Table) → find i (update_where p f t) ≡ map_row p f (find i t)
  unfolding find update_where
  find-update_where i [] = refl
  find-update_where i (r ∷ t) = ground (arith, find-update_where i t, keys r)

  Apart-row :
      (r q : Execution) → Apart r q → Apart (if p r then f r else r) (if p q then f q else q)
  Apart-row r q h = ground (arith, keys r, keys q)

  All-Apart-update_where :
      (r : Execution) (t : Table)
      → All (Apart r) t
      → All (Apart (if p r then f r else r)) (update_where p f t)
  unfolding update_where
  All-Apart-update_where r [] h = tt
  All-Apart-update_where r (q ∷ t) h = (Apart-row r q h.0, All-Apart-update_where r t h.1)

  pub update_where-IsUnique : (t : Table) → IsUnique t → IsUnique (update_where p f t)
  unfolding update_where
  update_where-IsUnique [] u = tt
  update_where-IsUnique (r ∷ t) u = (All-Apart-update_where r t u.0, update_where-IsUnique t u.1)

pub find_id : (i : Uuid) (t : Table) (r : Execution) → find i t ≡ some r → r.id ≡ i
unfolding find
find_id i [] r h = cc
find_id i (q ∷ t) r h = ground (arith, find_id i t r)

pub find-In : (i : Uuid) (t : Table) (r : Execution) → find i t ≡ some r → In r t
unfolding find
find-In i [] r h = cc
find-In i (q ∷ t) r h = ground (arith, find-In i t r)

-- In a table with unique keys, a row is found by its id.
pub find_of_In : (t : Table) (r : Execution) → IsUnique t → In r t → find r.id t ≡ some r
unfolding find
find_of_In [] r u m = absurd m
find_of_In (q ∷ t) r u (inl e) = rw e (rw (==_refl q.id))
  where
    ==_refl : (n : ℕ) → (n == n) ≡ true
    ==_refl n = (==_iff n n).1 refl
find_of_In (q ∷ t) r u (inr m) = ground (arith, find_of_In t r u.1 m, All-In (Apart q) t r u.0 m)

-- No row of the table satisfies a test that counts none.
pub count_where_none :
    (p : Execution → Bool) (t : Table) (r : Execution)
    → (count_where p t == 0) ≡ true
    → In r t
    → p r ≡ false
unfolding count_where
count_where_none p [] r h m = absurd m
count_where_none p (q ∷ t) r h (inl e) = rw e (ground arith)
count_where_none p (q ∷ t) r h (inr m) = ground (arith, count_where_none p t r)

pub count_where_some :
    (p : Execution → Bool) (t : Table)
    → (count_where p t == 0) ≡ false
    → (r : Execution) × In r t × (p r ≡ true)
unfolding count_where
count_where_some p [] h = cc
count_where_some p (q ∷ t) h = elim (Bool-cases (p q)) [
  | inl e ↦ (q, inl refl, e)
  | inr e ↦ let (r, m, d) = count_where_some p t (rw e at h) in (r, inr m, d)
]

All-of_In : (P : Execution → Type 0) (t : Table) → ((r : Execution) → In r t → P r) → All P t
All-of_In P [] h = tt
All-of_In P (r ∷ t) h = (h r (inl refl), All-of_In P t (λ q m. h q (inr m)))

In-insert_by :
    (key : Execution → Time) (e : Execution) (l : List Execution) (a : Execution)
    → In a (insert_by key e l)
    → (a ≡ e) ⊎ In a l
unfolding insert_by
In-insert_by key e [] a m = m
In-insert_by key e (r ∷ l) a m = elim (Bool-cases (leb (key e) (key r))) [
  | inl d ↦ rw d at m
  | inr d ↦ elim (rw d at m) [
    | inl q ↦ inr (inl q)
    | inr n ↦ elim (In-insert_by key e l a n) [ inl q ↦ inl q | inr k ↦ inr (inr k) ]
  ]
]

pub In-order_by :
    (key : Execution → Time) (l : List Execution) (a : Execution) → In a (order_by key l) → In a l
unfolding order_by
In-order_by key [] a m = m
In-order_by key (r ∷ l) a m = elim (In-insert_by key r (order_by key l) a m) [
  | inl q ↦ inl q
  | inr k ↦ inr (In-order_by key l a k)
]

-- The first row in the order has the least key, and there is one unless the list is empty.
abbrev pub IsFirst : (Execution → Time) → List Execution → Option Execution → Type 0
IsFirst key l none = l ≡ []
IsFirst key l (some e) = In e l × All (λ r. key e ≤ key r) l

first-insert_by :
    (key : Execution → Time) (e : Execution) (l : List Execution)
    → first (insert_by key e l)
      ≡ some (elim (first l) [ none ↦ e | some r ↦ if leb (key e) (key r) then e else r ])
unfolding insert_by
first-insert_by key e [] = refl
first-insert_by key e (r ∷ l) = ground arith

All-le_trans :
    (key : Execution → Time) (a b : ℕ) (l : List Execution)
    → a ≤ b
    → All (λ r. b ≤ key r) l
    → All (λ r. a ≤ key r) l
All-le_trans key a b [] h k = tt
All-le_trans key a b (r ∷ l) h k = (omega arith, All-le_trans key a b l h k.1)

IsFirst-pick :
    (key : Execution → Time) (r q : Execution) (l : List Execution) (b : Bool)
    → leb (key r) (key q) ≡ b
    → IsFirst key l (some q)
    → IsFirst key (r ∷ l) (some (if b then r else q))
IsFirst-pick key r q l true e h =
    (inl refl, (omega arith, All-le_trans key (key r) (key q) l (ground arith) h.1))
IsFirst-pick key r q l false e h = (inr h.0, (ground arith, h.1))

IsFirst-step :
    (key : Execution → Time) (r : Execution) (l : List Execution) (o : Option Execution)
    → IsFirst key l o
    → IsFirst key
        (r ∷ l)
        (some (elim o [ none ↦ r | some q ↦ if leb (key r) (key q) then r else q ]))
IsFirst-step key r l none h = rw h (inl refl, (omega arith, tt))
IsFirst-step key r l (some q) h = IsFirst-pick key r q l (leb (key r) (key q)) refl h

pub order_by-IsFirst :
    (key : Execution → Time) (l : List Execution) → IsFirst key l (first (order_by key l))
unfolding order_by
order_by-IsFirst key [] = refl
order_by-IsFirst key (r ∷ l) =
    rw (first-insert_by key r (order_by key l))
      (IsFirst-step key r l (first (order_by key l)) (order_by-IsFirst key l))

-- A row that the constraints admit beside the others.
pub insert-IsUnique :
    (e : Execution) (t : Table) → (count_where (conflicts e) t == 0) ≡ true → All (Apart e) t
insert-IsUnique e t h =
    All-of_In (Apart e) t (λ r m. ground (arith, count_where_none (conflicts e) t r h m))
