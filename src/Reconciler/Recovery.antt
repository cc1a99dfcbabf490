-- ===== src/Reconciler/Recovery.antt =====
-- internal/reconciler/reconciler.go: what a cycle recovers.
use mathlib.Core.List.{append-nil}
use mathlib.Core.Path.{subst}
use easy_cron.Prelude.{
  ℕ, zero, suc, ◌+◌, ◌≤◌, ◌≡◌, ◌⊎◌, ◌∙◌, refl, sym, ap, Bool, true, none, List, [], ◌∷◌, ◌++◌,
  length, map, take, leb, arith, inl, inr, In, Bool-cases, keep, keep-In, length-take-le,
}
use easy_cron.Domain.{Time, Uuid, Execution, TriggerEvent, emitted, add}
use easy_cron.Prelude.Int.{neg}
use easy_cron.Store.{
  Table, created, is_orphan, get_orphaned_executions, requeue_stale_executions, insert_by, order_by,
}
use easy_cron.Store.Rows.{IsUnique, find-In}
use easy_cron.Store.Claims.{requeue_only_stale}
use easy_cron.Reconciler.{Config, complete, event_of, requeue_threshold_of, emit_found, run_cycle}
use easy_cron.Reconciler.Postgres.{postgres}
use easy_cron.Reconciler.Cycle.{emit_orphans_all, database}

module _ (key : Execution → Time) where
  insert_by-In :
      (e : Execution) (l : List Execution) (a : Execution)
      → (a ≡ e) ⊎ In a l
      → In a (insert_by key e l)
  unfolding insert_by
  insert_by-In e [] a m = m
  insert_by-In e (r ∷ l) a m = elim (Bool-cases (leb (key e) (key r))) [
    | inl d ↦ rw d m
    | inr d ↦ rw d (elim m [
      | inl q ↦ inr (insert_by-In e l a (inl q))
      | inr (inl q) ↦ inl q
      | inr (inr k) ↦ inr (insert_by-In e l a (inr k))
    ])
  ]

  order_by-In : (l : List Execution) (a : Execution) → In a l → In a (order_by key l)
  unfolding order_by
  order_by-In [] a m = absurd m
  order_by-In (r ∷ l) a (inl q) = insert_by-In r (order_by key l) a (inl q)
  order_by-In (r ∷ l) a (inr m) = insert_by-In r (order_by key l) a (inr (order_by-In l a m))

  length-insert_by :
      (e : Execution) (l : List Execution) → length (insert_by key e l) ≡ suc (length l)
  unfolding insert_by
  length-insert_by e [] = refl
  length-insert_by e (r ∷ l) = ground (arith, length-insert_by e l)

  length-order_by : (l : List Execution) → length (order_by key l) ≡ length l
  unfolding order_by
  length-order_by [] = refl
  length-order_by (r ∷ l) = omega (arith, length-insert_by r (order_by key l), length-order_by l)

take_all : (n : ℕ) (l : List Execution) → length l ≤ n → take n l ≡ l
take_all zero [] h = refl
take_all zero (x ∷ l) h = absurd (omega arith)
take_all (suc n) [] h = refl
take_all (suc n) (x ∷ l) h = ap (◌∷◌ x) (take_all n l (omega arith))

In-map :
    (f : Execution → TriggerEvent) (l : List Execution) (q : Execution)
    → In q l
    → In (f q) (map f l)
In-map f [] q m = absurd m
In-map f (r ∷ l) q (inl e) = inl (ap f e)
In-map f (r ∷ l) q (inr m) = inr (In-map f l q m)

append-In : (xs ys : List TriggerEvent) (a : TriggerEvent) → In a ys → In a (xs ++ ys)
append-In [] ys a m = m
append-In (x ∷ xs) ys a m = inr (append-In xs ys a m)

-- The table that the requeue leaves.
abbrev pub requeued : (Uuid → Bool) → Config → Time → Table → Table
requeued locked c now t =
    (requeue_stale_executions locked (add now (neg (requeue_threshold_of c))) c.batch_size t).0

-- The orphans of a table, all of them.
abbrev pub orphans_of : Config → Time → Table → List Execution
orphans_of c now = keep (is_orphan (add now (neg c.threshold)))

module _ (locked : Uuid → Bool) (capacity : ℕ) (now : Time) where
  emit_found_all :
      (execs : List Execution) (t : Table) (b : List TriggerEvent) (o : List ℕ)
      → length b + length execs ≤ capacity
      → emit_found (postgres locked capacity) now execs (database t b o)
        ≡ (database t (b ++ map (event_of now) execs) o, complete (length execs) 0)
  unfolding emit_found
  emit_found_all [] t b o h = rw (append-nil b) refl
  emit_found_all (q ∷ execs) t b o h =
      emit_orphans_all locked capacity now (q ∷ execs) 0 0 t b o h
      ∙ ap (λ n. (database t (b ++ map (event_of now) (q ∷ execs)) o, complete n 0)) (omega arith)

module _ (locked : Uuid → Bool) (capacity : ℕ) (now : Time) (c : Config) (t : Table)
    (b : List TriggerEvent) (o : List ℕ) where
  -- A cycle that is not cancelled, with room in the buffer for its batch, appends one event for each
  -- orphan that the store returned, in their order, and fails for none of them.
  pub cycle_complete :
      length b + c.batch_size ≤ capacity
      → let t' = requeued locked c now t in
        let found = get_orphaned_executions (add now (neg c.threshold)) c.batch_size t' in
        run_cycle (postgres locked capacity) c now (database t b o) ≡ (
          database t' (b ++ map (event_of now) found) (o ++ (length found ∷ [])),
          complete (length found) 0,
        )
  unfolding run_cycle get_orphaned_executions
  cycle_complete h =
      emit_found_all locked capacity now found (requeued locked c now t) b
        (o ++ (length found ∷ [])) (omega (arith, found_le))
    where
      found : List Execution
      found =
          get_orphaned_executions (add now (neg c.threshold)) c.batch_size (requeued locked c now t)

      found_le : length found ≤ c.batch_size
      found_le = length-take-le c.batch_size _

  -- In a table with unique keys, a row that is emitted and was created before the orphan cutoff
  -- has its event in the buffer after a cycle that is not cancelled, where the orphans fit one
  -- batch and the buffer has room for a batch.
  pub cycle_recovers :
      (q : Execution)
      → IsUnique t
      → In q t
      → is_orphan (add now (neg c.threshold)) q ≡ true
      → length (orphans_of c now (requeued locked c now t)) ≤ c.batch_size
      → length b + c.batch_size ≤ capacity
      → In (event_of now q) (run_cycle (postgres locked capacity) c now (database t b o)).0.buffer
  unfolding get_orphaned_executions
  cycle_recovers q u i k f h =
      let cutoff = add now (neg (requeue_threshold_of c)) in
      elim (requeue_only_stale locked cutoff c.batch_size t q u i) [
        | inl e ↦ in_buffer q (find-In q.id (requeued locked c now t) q e) k
        | inr (s, e) ↦
            let r = record q { status = emitted; claimed_at = none } in
            in_buffer r (find-In q.id (requeued locked c now t) r e) (ground arith)
      ]
    where
      in_buffer :
          (r : Execution)
          → In r (requeued locked c now t)
          → is_orphan (add now (neg c.threshold)) r ≡ true
          → In
              (event_of now r)
              (run_cycle (postgres locked capacity) c now (database t b o)).0.buffer
      in_buffer r m p =
          let all = orphans_of c now (requeued locked c now t) in
          let full =
            take_all c.batch_size (order_by created all)
              (omega (arith, length-order_by created all)) in
          subst (λ z. In (event_of now r) z.0.buffer) (sym (cycle_complete h))
            (append-In b _ _ (
              In-map (event_of now) _ r (
                subst (In r) (sym full)
                  (order_by-In created all r (keep-In _ (requeued locked c now t) r m p)))))
