-- ===== src/Store/Claims.antt =====
-- internal/store/postgres: what a dequeue, a requeue and an acknowledgement promise.
use mathlib.Core.Path.{subst}
use easy_cron.Prelude.{
  ℕ, ◌≤◌, ◌≡◌, ◌≢◌, ◌⊎◌, ◌∙◌, refl, sym, ap, Bool, true, false, Option, none, some, List, [], ◌∷◌,
  if◌then◌else◌, ◌==◌, arith, Bool-cases, inl, inr, In, All, String, keep,
}
use easy_cron.Domain.{Time, Uuid, Execution, emitted, in_progress}
use easy_cron.Store.{
  Table, conflicts, execution_not_found, find, update_where, count_where, is_emitted, is_ready,
  claim, created, is_stale, is_pending_ack, has_id, stale_rows, dequeue_execution,
  requeue_stale_executions, ack_execution,
}
use easy_cron.Store.Rows.{
  IsUnique, KeepsKeys, map_row, IsFirst, find-update_where, find_id, find-In, find_of_In,
  count_where_none, count_where_some, order_by-IsFirst,
}
use easy_cron.Store.Terminal.{
  Op, insert, update, dequeue, requeue, ack, delete_job, step, run, pick, pick-In, dequeue_table,
  step-IsUnique, same_row, update_table, ack_table, insert_table, stale_In, In-of_has_id,
  run-IsUnique,
}

-- A dequeue that returns nothing means that no ready row is there; one that returns a row returns
-- the oldest ready row, marked in progress, and leaves that row claimed at this moment.
abbrev pub Dequeues : (Uuid → Bool) → Time → Table → Table × Option Execution → Type 0
Dequeues locked now t (t', none) = (keep (is_ready locked) t ≡ []) × (t' ≡ t)
Dequeues locked now t (t', some x) =
    (e : Execution) × In e t
    × (is_ready locked e ≡ true)
    × All (λ r. e.created_at ≤ r.created_at) (keep (is_ready locked) t)
    × (x ≡ record e { status = in_progress; claimed_at = none })
    × (find e.id t' ≡ some (claim now e))

-- In a table with unique keys, a dequeue returns nothing exactly with no ready row there, and
-- changes nothing then; otherwise it returns the oldest ready row, marked in progress, and leaves
-- that row claimed at this moment.
pub dequeue_oldest :
    (locked : Uuid → Bool) (now : Time) (t : Table)
    → IsUnique t
    → Dequeues locked now t (dequeue_execution locked now t)
dequeue_oldest locked now t u = elim (dequeue_table locked now t) [
  | inl (h, d) ↦ subst (Dequeues locked now t) (sym d) (empty h, refl)
  | inr (e, h, d) ↦
      subst (Dequeues locked now t) (sym d)
        (e, (pick-In locked t e h).0, (pick-In locked t e h).1, (least e h).1, refl, claimed e h)
]
  where
    least :
        (e : Execution)
        → pick locked t ≡ some e
        → IsFirst created (keep (is_ready locked) t) (some e)
    least e h =
        subst (IsFirst created (keep (is_ready locked) t)) h
          (order_by-IsFirst created (keep (is_ready locked) t))

    empty : pick locked t ≡ none → keep (is_ready locked) t ≡ []
    empty h =
        subst (IsFirst created (keep (is_ready locked) t)) h
          (order_by-IsFirst created (keep (is_ready locked) t))

    claimed :
        (e : Execution)
        → pick locked t ≡ some e
        → find e.id (update_where (λ r. r.id == e.id) (claim now) t) ≡ some (claim now e)
    claimed e h = ground (
      arith,
      find-update_where (λ r. r.id == e.id) (claim now) (λ r. (refl, refl, refl)) e.id t,
      find_of_In t e u (pick-In locked t e h).0,
    )

-- The calls that put no row back into the queue, and free no id.
abbrev pub IsForward : Op → Type 0
IsForward (requeue locked older_than limit) = ⊥
IsForward (delete_job i) = ⊥
IsForward (update i status) = is_emitted status ≡ false
IsForward _ = Unit

-- A row that is not (or no longer) in the queue.
abbrev pub IsTaken : Table → Uuid → Type 0
IsTaken t i = (q : Execution) × (find i t ≡ some q) × (is_emitted q.status ≡ false)

update_where-IsTaken :
    (p : Execution → Bool) (f : Execution → Execution) (t : Table) (i : Uuid)
    → KeepsKeys f
    → ((q : Execution) → is_emitted q.status ≡ false → is_emitted (f q).status ≡ false)
    → IsTaken t i
    → IsTaken (update_where p f t) i
update_where-IsTaken p f t i keys h (q, e, n) = (
  if p q then f q else q,
  find-update_where p f keys i t ∙ ap (map_row p f) e,
  ground (arith, h q n),
)

insert-IsTaken :
    (e : Execution) (t : Table) (i : Uuid) → IsTaken t i → IsTaken (step t (insert e)) i
unfolding step find
insert-IsTaken e t i (q, f, n) = elim (insert_table e t) [
  | inl (h, d) ↦
      subst (λ x. IsTaken x.0 i) (sym d)
        (
          q,
          ground (arith, find_id i t q f, count_where_none (conflicts e) t q h (find-In i t q f)),
          n,
        )
  | inr (h, d) ↦ subst (λ x. IsTaken x.0 i) (sym d) (q, f, n)
]

pub step-IsTaken :
    (t : Table) (o : Op) (i : Uuid) → IsForward o → IsTaken t i → IsTaken (step t o) i
unfolding step
step-IsTaken t (insert e) i w k = insert-IsTaken e t i k
step-IsTaken t (update j status) i w k =
    rw (update_table j status t)
      (update_where-IsTaken _ _ t i (λ r. (refl, refl, refl)) (λ q n. w) k)
step-IsTaken t (dequeue locked now) i w k = elim (dequeue_table locked now t) [
  | inl (h, d) ↦ subst (λ x. IsTaken x.0 i) (sym d) k
  | inr (e, h, d) ↦
      subst (λ x. IsTaken x.0 i) (sym d)
        (update_where-IsTaken (λ r. r.id == e.id) (claim now) t i (λ r. (refl, refl, refl))
          (λ q n. refl) k)
]
step-IsTaken t (requeue locked older_than limit) i w k = absurd w
step-IsTaken t (delete_job j) i w k = absurd w
step-IsTaken t (ack j ns now) i w k =
    rw (ack_table j ns now t) (update_where-IsTaken _ _ t i (λ r. (refl, refl, refl)) (λ q n. n) k)

run-IsTaken :
    (t : Table) (os : List Op) (i : Uuid) → All IsForward os → IsTaken t i → IsTaken (run t os) i
unfolding run
run-IsTaken t [] i w k = k
run-IsTaken t (o ∷ os) i w k = run-IsTaken (step t o) os i w.1 (step-IsTaken t o i w.0 k)

-- What is known of a row that a dequeue returned.
pub returned :
    (locked : Uuid → Bool) (now : Time) (t t' : Table) (x : Execution)
    → IsUnique t
    → dequeue_execution locked now t ≡ (t', some x)
    → Dequeues locked now t (t', some x)
returned locked now t t' x u d = subst (Dequeues locked now t) d (dequeue_oldest locked now t u)

pub IsTaken-of_dequeue :
    (locked : Uuid → Bool) (now : Time) (t t' : Table) (x : Execution)
    → IsUnique t
    → dequeue_execution locked now t ≡ (t', some x)
    → IsTaken t' x.id
IsTaken-of_dequeue locked now t t' x u d =
    let (e, m, r, a, q, f) = returned locked now t t' x u d in
    (claim now e, ap (λ (y : Execution). find y.id t') q ∙ f, refl)

pub not_ready_of_IsTaken :
    (locked : Uuid → Bool) (t : Table) (e : Execution)
    → IsUnique t
    → IsTaken t e.id
    → In e t
    → is_ready locked e ≡ true
    → ⊥
not_ready_of_IsTaken locked t e u (q, f, n) m r = ground (arith, find_of_In t e u m)

-- From a table with unique keys, no execution is handed out twice: after a dequeue returned it, no
-- later dequeue of any worker returns it, as long as the calls in between neither requeue stale
-- rows nor set a status back to emitted nor delete a job.
pub claimed_once :
    (locked locked' : Uuid → Bool) (now now' : Time) (t t1 t2 : Table) (os : List Op)
    (x y : Execution)
    → IsUnique t
    → dequeue_execution locked now t ≡ (t1, some x)
    → All IsForward os
    → dequeue_execution locked' now' (run t1 os) ≡ (t2, some y)
    → y.id ≢ x.id
unfolding step
claimed_once locked locked' now now' t t1 t2 os x y u d w e same =
    let u1 = subst (λ r. IsUnique r.0) d (step-IsUnique t (dequeue locked now) u) in
    let u2 : IsUnique (run t1 os) = run-IsUnique t1 os u1 in
    let (r, m, ready, a, q, f) = returned locked' now' (run t1 os) t2 y u2 e in
    let taken = run-IsTaken t1 os x.id w (IsTaken-of_dequeue locked now t t1 x u d) in
    not_ready_of_IsTaken locked' (run t1 os) r u2
      (subst (IsTaken (run t1 os)) (sym same ∙ ap (λ (z : Execution). z.id) q) taken) m ready

-- The requeue picks rows by id; with unique keys it takes stale rows only.
pub stale_of_has_id :
    (locked : Uuid → Bool) (older_than : Time) (limit : ℕ) (t : Table) (q : Execution)
    → IsUnique t
    → In q t
    → has_id (stale_rows locked older_than limit t) q.id ≡ true
    → is_stale locked older_than q ≡ true
stale_of_has_id locked older_than limit t q u m h =
    let (r, k, e) = In-of_has_id (stale_rows locked older_than limit t) q.id h in
    let (n, s) = stale_In locked older_than limit t r k in
    let same : r ≡ q = same_row t q.id q r u (find_of_In t q u m) n e in
    subst (λ x. is_stale locked older_than x ≡ true) same s

-- In a table with unique keys, a row that the requeue does not find stale stays as it was; one
-- that it takes was stale, and is back in the queue without its claim.
pub requeue_only_stale :
    (locked : Uuid → Bool) (older_than : Time) (limit : ℕ) (t : Table) (q : Execution)
    → IsUnique t
    → In q t
    → let found = find q.id (requeue_stale_executions locked older_than limit t).0 in
      (found ≡ some q)
      ⊎ ((is_stale locked older_than q ≡ true)
          × (found ≡ some (record q { status = emitted; claimed_at = none })))
unfolding requeue_stale_executions
requeue_only_stale locked older_than limit t q u m =
    let p = λ (r : Execution). has_id (stale_rows locked older_than limit t) r.id in
    let f = λ (r : Execution). record r { status = emitted; claimed_at = none } in
    let found =
      find-update_where p f (λ r. (refl, refl, refl)) q.id t
      ∙ ap (map_row p f) (find_of_In t q u m) in
    elim (Bool-cases (has_id (stale_rows locked older_than limit t) q.id)) [
      | inl h ↦ inr (stale_of_has_id locked older_than limit t q u m h, ground arith)
      | inr h ↦ inl (ground arith)
    ]

-- With unique keys a count over one id is decided by the row that has it.
hit_of_count :
    (i : Uuid) (ns : String) (t : Table) (q : Execution)
    → IsUnique t
    → In q t
    → q.id ≡ i
    → (count_where (is_pending_ack i ns) t == 0) ≡ false
    → is_pending_ack i ns q ≡ true
hit_of_count i ns t q u m e h =
    let (r, k, p) = count_where_some (is_pending_ack i ns) t h in
    let same : r ≡ q = same_row t q.id q r u (find_of_In t q u m) k (ground arith) in
    subst (λ x. is_pending_ack i ns x ≡ true) same p

ack_answer :
    (i : Uuid) (ns : String) (now : Time) (t : Table) (q : Execution)
    → IsUnique t
    → In q t
    → q.id ≡ i
    → (ack_execution i ns now t).1
      ≡ (if is_pending_ack i ns q then none else some execution_not_found)
unfolding ack_execution
ack_answer i ns now t q u m e = elim (Bool-cases (count_where (is_pending_ack i ns) t == 0)) [
  | inl h ↦ ground (arith, count_where_none (is_pending_ack i ns) t q h m)
  | inr h ↦ ground (arith, hit_of_count i ns t q u m e h)
]

-- In a table with unique keys, an acknowledgement of a row that is there succeeds exactly if the row
-- is of the caller's namespace, terminal and not acknowledged yet; it sets the time on that row then,
-- and leaves every other row, and every row where it fails, as it was.
pub ack_result :
    (i : Uuid) (ns : String) (now : Time) (t : Table) (q s : Execution)
    → IsUnique t
    → In q t
    → q.id ≡ i
    → In s t
    → (let r = ack_execution i ns now t in
        (r.1 ≡ (if is_pending_ack i ns q then none else some execution_not_found))
        × (find s.id r.0
            ≡ some (if is_pending_ack i ns s then record s { acknowledged_at = some now } else s)))
ack_result i ns now t q s u m e n = (
  ack_answer i ns now t q u m e,
  ap (find s.id) (ack_table i ns now t)
      ∙ (find-update_where p f (λ r. (refl, refl, refl)) s.id t
          ∙ ap (map_row p f) (find_of_In t s u n)),
)
  where
    p : Execution → Bool
    p = is_pending_ack i ns

    f : Execution → Execution
    f r = record r { acknowledged_at = some now }
