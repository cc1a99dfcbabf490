-- ===== src/Store/Terminal.antt =====
-- internal/store/postgres: histories of the table `executions`. An `Op` is one committed call of a
-- method, by whichever process.
use mathlib.Core.Path.{subst}
use easy_cron.Prelude.{
  ℕ, ◌≡◌, ◌⊎◌, ◌∙◌, refl, sym, ap, Bool, true, false, Option, none, some, List, [], ◌∷◌,
  if◌then◌else◌, ◌==◌, arith, Bool-cases, Option-cases, inl, inr, In, In-keep, String, keep,
  In-take, All,
}
use easy_cron.Domain.{Time, Uuid, Execution, ExecutionStatus, in_progress}
use easy_cron.Store.{
  Table, duplicate_execution, find, update_where, count_where, order_by, first, conflicts,
  is_terminal, is_ready, claim, created, is_stale, is_open, is_pending_ack, has_id, stale_rows,
  claimed_or_zero, insert_execution, update_execution_status, dequeue_execution,
  requeue_stale_executions, ack_execution, delete_runs,
}
use easy_cron.Store.Rows.{
  IsUnique, Apart, KeepsKeys, map_row, find-update_where, update_where-IsUnique, find_id, find-In,
  find_of_In, count_where_none, In-order_by, order_by-IsFirst, insert-IsUnique,
}

pub data Op : Type 0 where
  insert : Execution → Op
  update : Uuid → ExecutionStatus → Op
  dequeue : (Uuid → Bool) → Time → Op
  requeue : (Uuid → Bool) → Time → ℕ → Op
  ack : Uuid → String → Time → Op
  delete_job : Uuid → Op

unfoldable pub step : Table → Op → Table
step t (insert e) = (insert_execution e t).0
step t (update i status) = (update_execution_status i status t).0
step t (dequeue locked now) = (dequeue_execution locked now t).0
step t (requeue locked older_than limit) = (requeue_stale_executions locked older_than limit t).0
step t (ack i ns now) = (ack_execution i ns now t).0
step t (delete_job i) = delete_runs i t

unfoldable pub run : Table → List Op → Table
run t [] = t
run t (o ∷ os) = run (step t o) os

-- The row that a dequeue picks.
abbrev pub pick : (Uuid → Bool) → Table → Option Execution
pick locked t = first (order_by created (keep (is_ready locked) t))

pub pick-In :
    (locked : Uuid → Bool) (t : Table) (e : Execution)
    → pick locked t ≡ some e
    → In e t × (is_ready locked e ≡ true)
pick-In locked t e h =
    In-keep (is_ready locked) t e (rw h at (order_by-IsFirst created (keep (is_ready locked) t))).0

-- Two rows of a table with unique keys that have one id are one row.
pub same_row :
    (t : Table) (i : Uuid) (r e : Execution)
    → IsUnique t
    → find i t ≡ some r
    → In e t
    → e.id ≡ i
    → e ≡ r
same_row t i r e u f m h = ground (arith, find_of_In t e u m)

pub In-of_has_id :
    (l : List Execution) (i : Uuid) → has_id l i ≡ true → (e : Execution) × In e l × (e.id ≡ i)
In-of_has_id [] i h = cc
In-of_has_id (r ∷ l) i h = elim (Bool-cases (r.id == i)) [
  | inl e ↦ (r, inl refl, ground arith)
  | inr e ↦ let (q, m, d) = In-of_has_id l i (ground arith) in (q, inr m, d)
]

pub stale_In :
    (locked : Uuid → Bool) (older_than : Time) (limit : ℕ) (t : Table) (e : Execution)
    → In e (stale_rows locked older_than limit t)
    → In e t × (is_stale locked older_than e ≡ true)
unfolding stale_rows
stale_In locked older_than limit t e m = In-keep (is_stale locked older_than) t e (
    In-order_by claimed_or_zero (keep (is_stale locked older_than) t) e
      (In-take limit (order_by claimed_or_zero (keep (is_stale locked older_than) t)) e m))

pub update_table :
    (i : Uuid) (status : ExecutionStatus) (t : Table)
    → (update_execution_status i status t).0
      ≡ update_where (is_open i) (λ r. record r { status = status }) t
unfolding update_execution_status
update_table i status t = ground arith

pub ack_table :
    (i : Uuid) (ns : String) (now : Time) (t : Table)
    → (ack_execution i ns now t).0
      ≡ update_where (is_pending_ack i ns) (λ r. record r { acknowledged_at = some now }) t
unfolding ack_execution
ack_table i ns now t = ground arith

-- A dequeue changes nothing, or claims the row that it picked.
pub dequeue_table :
    (locked : Uuid → Bool) (now : Time) (t : Table)
    → ((pick locked t ≡ none) × (dequeue_execution locked now t ≡ (t, none)))
      ⊎ ((e : Execution) × (pick locked t ≡ some e)
          × (dequeue_execution locked now t ≡ (
            update_where (λ r. r.id == e.id) (claim now) t,
            some (record e { status = in_progress; claimed_at = none }),
          )))
unfolding dequeue_execution
dequeue_table locked now t = elim (Option-cases (pick locked t)) [
  | inl h ↦ inl (h, rw (h, dequeue_execution))
  | inr (e, h) ↦ inr (e, h, rw (h, dequeue_execution))
]

pub insert_table :
    (e : Execution) (t : Table)
    → (((count_where (conflicts e) t == 0) ≡ true)
        × (insert_execution e t
            ≡ (record e { acknowledged_at = none; claimed_at = none } ∷ t, none)))
      ⊎ (((count_where (conflicts e) t == 0) ≡ false)
          × (insert_execution e t ≡ (t, some duplicate_execution)))
insert_table e t = elim (Bool-cases (count_where (conflicts e) t == 0)) [
  | inl h ↦ inl (h, inserted h)
  | inr h ↦ inr (h, refused h)
]
  where
    inserted :
        (count_where (conflicts e) t == 0) ≡ true
        → insert_execution e t ≡ (record e { acknowledged_at = none; claimed_at = none } ∷ t, none)
    inserted h = unfold insert_execution in ground arith

    refused :
        (count_where (conflicts e) t == 0) ≡ false
        → insert_execution e t ≡ (t, some duplicate_execution)
    refused h = unfold insert_execution in ground arith

delete_runs-Apart :
    (i : Uuid) (r : Execution) (t : Table) → All (Apart r) t → All (Apart r) (delete_runs i t)
unfolding delete_runs
delete_runs-Apart i r [] h = tt
delete_runs-Apart i r (q ∷ t) h = elim (Bool-cases (q.job_id == i)) [
  | inl e ↦ rw e (delete_runs-Apart i r t h.1)
  | inr e ↦ rw e (h.0, delete_runs-Apart i r t h.1)
]

delete_runs-IsUnique : (i : Uuid) (t : Table) → IsUnique t → IsUnique (delete_runs i t)
unfolding delete_runs
delete_runs-IsUnique i [] u = tt
delete_runs-IsUnique i (r ∷ t) u = elim (Bool-cases (r.job_id == i)) [
  | inl e ↦ rw e (delete_runs-IsUnique i t u.1)
  | inr e ↦ rw e (delete_runs-Apart i r t u.0, delete_runs-IsUnique i t u.1)
]

-- The deletion of a job leaves the rows of the others.
find-delete_runs :
    (i k : Uuid) (t : Table) (q : Execution)
    → find i t ≡ some q
    → (q.job_id == k) ≡ false
    → find i (delete_runs k t) ≡ some q
unfolding find delete_runs
find-delete_runs i k [] q f h = cc
find-delete_runs i k (r ∷ t) q f h = ground (arith, find-delete_runs i k t q)

pub step-IsUnique : (t : Table) (o : Op) → IsUnique t → IsUnique (step t o)
unfolding step requeue_stale_executions
step-IsUnique t (insert e) u = elim (insert_table e t) [
  | inl (h, d) ↦ subst (λ x. IsUnique x.0) (sym d) (insert-IsUnique e t h, u)
  | inr (h, d) ↦ subst (λ x. IsUnique x.0) (sym d) u
]
step-IsUnique t (update i status) u =
    subst IsUnique (sym (update_table i status t))
      (update_where-IsUnique (is_open i) _ (λ r. (refl, refl, refl)) t u)
step-IsUnique t (dequeue locked now) u = elim (dequeue_table locked now t) [
  | inl (h, d) ↦ subst (λ x. IsUnique x.0) (sym d) u
  | inr (e, h, d) ↦
      subst (λ x. IsUnique x.0) (sym d)
        (update_where-IsUnique (λ r. r.id == e.id) (claim now) (λ r. (refl, refl, refl)) t u)
]
step-IsUnique t (requeue locked older_than limit) u =
    update_where-IsUnique _ _ (λ r. (refl, refl, refl)) t u
step-IsUnique t (ack i ns now) u =
    subst IsUnique (sym (ack_table i ns now t))
      (update_where-IsUnique _ _ (λ r. (refl, refl, refl)) t u)
step-IsUnique t (delete_job i) u = delete_runs-IsUnique i t u

-- From a table that keeps them, the constraints of the schema hold after every history: no id is
-- used twice, and no job has two executions for one scheduled time.
pub run-IsUnique : (t : Table) (os : List Op) → IsUnique t → IsUnique (run t os)
unfolding run
run-IsUnique t [] u = u
run-IsUnique t (o ∷ os) u = run-IsUnique (step t o) os (step-IsUnique t o u)

-- The row that is found by the id `i` has the status and the job of `q`.
abbrev pub HasStatus : Table → Uuid → Execution → Type 0
HasStatus t i q =
    (r : Execution) × (find i t ≡ some r) × (r.status ≡ q.status) × (r.job_id ≡ q.job_id)

-- The call does not delete this job.
abbrev pub Spares : Uuid → Op → Type 0
Spares i (delete_job k) = (i == k) ≡ false
Spares i _ = Unit

update_where-HasStatus :
    (p : Execution → Bool) (f : Execution → Execution) (t : Table) (i : Uuid) (q : Execution)
    → KeepsKeys f
    → find i t ≡ some q
    → (p q ≡ true → (f q).status ≡ q.status)
    → HasStatus (update_where p f t) i q
update_where-HasStatus p f t i q keys e h = (
  if p q then f q else q,
  find-update_where p f keys i t ∙ ap (map_row p f) e,
  ground arith,
  ground (arith, keys q),
)

insert-HasStatus :
    (e : Execution) (t : Table) (i : Uuid) (q : Execution)
    → find i t ≡ some q
    → HasStatus (insert_execution e t).0 i q
unfolding find
insert-HasStatus e t i q f = elim (insert_table e t) [
  | inl (h, d) ↦ rw d (
    q,
    ground (arith, find_id i t q f, count_where_none (conflicts e) t q h (find-In i t q f)),
    refl,
    refl,
  )
  | inr (h, d) ↦ rw d (q, f, refl, refl)
]

-- The claim of another row, or of none, leaves a terminal row alone.
dequeue-HasStatus :
    (locked : Uuid → Bool) (now : Time) (t : Table) (i : Uuid) (q : Execution)
    → IsUnique t
    → is_terminal q.status ≡ true
    → find i t ≡ some q
    → HasStatus (dequeue_execution locked now t).0 i q
dequeue-HasStatus locked now t i q u e f = elim (dequeue_table locked now t) [
  | inl (h, d) ↦ rw d (q, f, refl, refl)
  | inr (r, h, d) ↦ rw d (
      update_where-HasStatus (λ x. x.id == r.id) (claim now) t i q (λ x. (refl, refl, refl)) f
        (λ hit. ground (
          arith,
          find_id i t q f,
          pick-In locked t r h,
          same_row t i q r u f (pick-In locked t r h).0,
        )))
]

requeue-HasStatus :
    (locked : Uuid → Bool) (older_than : Time) (limit : ℕ) (t : Table) (i : Uuid) (q : Execution)
    → IsUnique t
    → is_terminal q.status ≡ true
    → find i t ≡ some q
    → HasStatus (requeue_stale_executions locked older_than limit t).0 i q
unfolding requeue_stale_executions
requeue-HasStatus locked older_than limit t i q u e f =
    update_where-HasStatus _ _ t i q (λ x. (refl, refl, refl)) f
      λ hit.
        let (r, m, d) = In-of_has_id (stale_rows locked older_than limit t) q.id hit in
        ground (
          arith,
          find_id i t q f,
          stale_In locked older_than limit t r m,
          same_row t i q r u f (stale_In locked older_than limit t r m).0,
        )

step-HasStatus :
    (t : Table) (o : Op) (i : Uuid) (q : Execution)
    → Spares q.job_id o
    → IsUnique t
    → is_terminal q.status ≡ true
    → find i t ≡ some q
    → HasStatus (step t o) i q
unfolding step
step-HasStatus t (insert e) i q w u term f = insert-HasStatus e t i q f
step-HasStatus t (update j status) i q w u term f =
    rw (update_table j status t)
      (update_where-HasStatus _ _ t i q (λ x. (refl, refl, refl)) f (λ hit. ground arith))
step-HasStatus t (dequeue locked now) i q w u term f = dequeue-HasStatus locked now t i q u term f
step-HasStatus t (requeue locked older_than limit) i q w u term f =
    requeue-HasStatus locked older_than limit t i q u term f
step-HasStatus t (ack j ns now) i q w u term f =
    rw (ack_table j ns now t)
      (update_where-HasStatus _ _ t i q (λ x. (refl, refl, refl)) f (λ hit. refl))
step-HasStatus t (delete_job k) i q w u term f = (q, find-delete_runs i k t q f w, refl, refl)

-- From a table with unique keys, whatever executions are inserted, updated, claimed, requeued and
-- acknowledged and whatever jobs are deleted, in whatever order, an execution that is delivered or
-- failed is there with that status as long as its own job is not deleted: no replay, requeue or
-- claim brings it back.
pub terminal_stays :
    (t : Table) (os : List Op) (i : Uuid) (q : Execution)
    → All (Spares q.job_id) os
    → IsUnique t
    → is_terminal q.status ≡ true
    → find i t ≡ some q
    → HasStatus (run t os) i q
unfolding run
terminal_stays t [] i q w u term f = (q, f, refl, refl)
terminal_stays t (o ∷ os) i q w u term f =
    let (r, g, e, j) = step-HasStatus t o i q w.0 u term f in
    let (x, h, d, k) =
      terminal_stays (step t o) os i r (subst (λ z. All (Spares z) os) (sym j) w.1)
        (step-IsUnique t o u) (rw e term) g in
    (x, h, d ∙ e, k ∙ j)
