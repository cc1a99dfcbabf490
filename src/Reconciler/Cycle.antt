-- ===== src/Reconciler/Cycle.antt =====
-- internal/reconciler/reconciler.go: what a cycle puts into the buffer.
use mathlib.Core.List.{append-nil, append_assoc}
use easy_cron.Prelude.{
  ℕ, suc, ◌+◌, ◌≤◌, ◌≡◌, ◌⊎◌, ◌∙◌, refl, sym, ap, Bool, true, false, none, List, [], ◌∷◌, ◌++◌,
  length, map, if◌then◌else◌, ltb, arith, inl, inr, In, Bool-cases, In-take, In-keep, In-append,
  keep, length-append, lt→ltb,
}
use easy_cron.Domain.{Time, Uuid, Execution, TriggerEvent, emitted, before, add}
use easy_cron.Prelude.Int.{neg}
use easy_cron.Store.{
  Table, created, is_emitted, is_orphan, is_stale, has_id, stale_rows, update_where,
  get_orphaned_executions, requeue_stale_executions,
}
use easy_cron.Store.Rows.{IsUnique, In-order_by}
use easy_cron.Store.Claims.{stale_of_has_id}
use easy_cron.Reconciler.{
  Config, complete, event_of, requeue_threshold_of, emit_orphans, emit_found, run_cycle,
}
use easy_cron.Reconciler.Postgres.{Database, postgres, emit_now}

-- The rows after an update.
In-update_where :
    (p : Execution → Bool) (f : Execution → Execution) (t : Table) (q' : Execution)
    → In q' (update_where p f t)
    → (q : Execution) × In q t × (q' ≡ (if p q then f q else q))
unfolding update_where
In-update_where p f [] q' m = absurd m
In-update_where p f (r ∷ t) q' (inl e) = (r, inl refl, e)
In-update_where p f (r ∷ t) q' (inr m) = let (q, i, e) = In-update_where p f t q' m in (q, inr i, e)

-- Where a row of the table comes from after a requeue.
abbrev RequeuedFrom : (Uuid → Bool) → Time → Execution → Execution → Type 0
RequeuedFrom locked cutoff q q' =
    (q' ≡ q)
    ⊎ ((is_stale locked cutoff q ≡ true) × (q' ≡ record q { status = emitted; claimed_at = none }))

In-requeue :
    (locked : Uuid → Bool) (cutoff : Time) (n : ℕ) (t : Table) (q' : Execution)
    → IsUnique t
    → In q' (requeue_stale_executions locked cutoff n t).0
    → (q : Execution) × In q t × RequeuedFrom locked cutoff q q'
unfolding requeue_stale_executions
In-requeue locked cutoff n t q' u m =
    let p = λ (r : Execution). has_id (stale_rows locked cutoff n t) r.id in
    let f = λ (r : Execution). record r { status = emitted; claimed_at = none } in
    let (q, i, e) = In-update_where p f t q' m in
    (
      q,
      i,
      elim (Bool-cases (has_id (stale_rows locked cutoff n t) q.id)) [
        | inl h ↦ inr (stale_of_has_id locked cutoff n t q u i h, rw h at e)
        | inr h ↦ inl (rw h at e)
      ],
    )

In-orphans :
    (cutoff : Time) (n : ℕ) (t : Table) (q : Execution)
    → In q (get_orphaned_executions cutoff n t)
    → In q t × (is_orphan cutoff q ≡ true)
unfolding get_orphaned_executions
In-orphans cutoff n t q m =
    In-keep (is_orphan cutoff) t q
      (In-order_by created (keep (is_orphan cutoff) t) q (In-take n _ q m))

-- The database of an uncancelled cycle.
abbrev pub database : Table → List TriggerEvent → List ℕ → Database
database t b o = record { executions = t; buffer = b; cancelled = false; orphans = o }

module _ (locked : Uuid → Bool) (capacity : ℕ) (now : Time) where
  emit_now_sound :
      (event x : TriggerEvent) (d : Database)
      → In x (emit_now locked capacity event d).0.buffer
      → In x d.buffer ⊎ (x ≡ event)
  emit_now_sound event x d m = elim (Bool-cases (ltb (length d.buffer) capacity)) [
    | inl h ↦ elim (In-append d.buffer (event ∷ []) x (rw h at m)) [
      | inl k ↦ inl k
      | inr (inl e) ↦ inr e
      | inr (inr e) ↦ absurd e
    ]
    | inr h ↦ inl (rw h at m)
  ]

  emit_orphans_sound :
      (execs : List Execution) (i j : ℕ) (t : Table) (b : List TriggerEvent) (c : Bool) (o : List ℕ)
      → (x : TriggerEvent)
      → In x
          (emit_orphans
            (postgres locked capacity)
            now
            execs
            i
            j
            (record { executions = t; buffer = b; cancelled = c; orphans = o })).0.buffer
      → In x b ⊎ ((q : Execution) × In q execs × (x ≡ event_of now q))
  unfolding emit_orphans
  emit_orphans_sound [] i j t b c o x m = inl m
  emit_orphans_sound (q ∷ execs) i j t b true o x m = inl m
  emit_orphans_sound (q ∷ execs) i j t b false o x m =
      let d = (emit_now locked capacity (event_of now q) (database t b o)).0 in
      elim (emit_orphans_sound execs _ _ d.executions d.buffer d.cancelled d.orphans x m) [
        | inl k ↦ elim (emit_now_sound (event_of now q) x (database t b o) k) [
          | inl h ↦ inl h
          | inr e ↦ inr (q, inl refl, e)
        ]
        | inr (r, k, e) ↦ inr (r, inr k, e)
      ]

  emit_found_sound :
      (execs : List Execution) (t : Table) (b : List TriggerEvent) (c : Bool) (o : List ℕ)
      → (x : TriggerEvent)
      → In x
          (emit_found
            (postgres locked capacity)
            now
            execs
            (record { executions = t; buffer = b; cancelled = c; orphans = o })).0.buffer
      → In x b ⊎ ((q : Execution) × In q execs × (x ≡ event_of now q))
  unfolding emit_found
  emit_found_sound [] t b c o x m = inl m
  emit_found_sound (q ∷ execs) t b c o x m = emit_orphans_sound (q ∷ execs) 0 0 t b c o x m

  -- While the context is alive and the buffer has room, every orphan is emitted, in their order.
  pub emit_orphans_all :
      (execs : List Execution) (i j : ℕ) (t : Table) (b : List TriggerEvent) (o : List ℕ)
      → length b + length execs ≤ capacity
      → emit_orphans (postgres locked capacity) now execs i j (database t b o)
        ≡ (database t (b ++ map (event_of now) execs) o, complete (i + length execs) j)
  unfolding emit_orphans
  emit_orphans_all [] i j t b o r =
      rw (append-nil b) (ap (λ n. (database t b o, complete n j)) (omega arith))
  emit_orphans_all (q ∷ execs) i j t b o r =
      let room : ltb (length b) capacity ≡ true = lt→ltb _ _ (omega arith) in
      let e = event_of now q in
      let joined : b ++ (e ∷ map (event_of now) execs)
          ≡ (b ++ (e ∷ [])) ++ map (event_of now) execs =
        sym (append_assoc b (e ∷ []) (map (event_of now) execs)) in
      let count : i + suc (length execs) ≡ 1 + i + length execs = omega arith in
      rw (room, joined, count)
        (emit_orphans_all execs (1 + i) j t (b ++ (e ∷ [])) o
          (omega (arith, length-append b (e ∷ []))))

  -- Why an event is in the buffer after a cycle: it was there, or the cycle emitted it for a row that
  -- was created before the orphan cutoff and was emitted, or in progress since before the requeue
  -- cutoff.
  abbrev pub Reemitted : Config → Table → TriggerEvent → Type 0
  Reemitted c t x =
      (q : Execution) × In q t
      × (x ≡ event_of now q)
      × (before q.created_at (add now (neg c.threshold)) ≡ true)
      × ((is_emitted q.status ≡ true)
          ⊎ (is_stale locked (add now (neg (requeue_threshold_of c))) q ≡ true))

  Reemitted-of_orphan :
      (c : Config) (t : Table) (q q' : Execution) (x : TriggerEvent)
      → In q t
      → RequeuedFrom locked (add now (neg (requeue_threshold_of c))) q q'
      → is_orphan (add now (neg c.threshold)) q' ≡ true
      → x ≡ event_of now q'
      → Reemitted c t x
  Reemitted-of_orphan c t q q' x i (inl e) h k =
      (q, i, rw (← e) k, ground (arith, e), ground (arith, e))
  Reemitted-of_orphan c t q q' x i (inr (s, e)) h k =
      (q, i, k ∙ rw e refl, ground (arith, e), inr s)

  -- In one cycle of the reconciler over Postgres, every event in the buffer was there before, or it
  -- is for a row of the table that was created before the orphan cutoff and was then emitted, or
  -- in progress, unlocked and claimed before the requeue cutoff.
  pub cycle_sound :
      (c : Config) (d : Database) (x : TriggerEvent)
      → IsUnique d.executions
      → In x (run_cycle (postgres locked capacity) c now d).0.buffer
      → In x d.buffer ⊎ Reemitted c d.executions x
  unfolding run_cycle
  cycle_sound c d x u m =
      let cutoff = add now (neg (requeue_threshold_of c)) in
      let t = (requeue_stale_executions locked cutoff c.batch_size d.executions).0 in
      let found = get_orphaned_executions (add now (neg c.threshold)) c.batch_size t in
      elim (emit_found_sound found t d.buffer d.cancelled (d.orphans ++ (length found ∷ [])) x m) [
        | inl k ↦ inl k
        | inr (q', k, e) ↦
            let (i, o) = In-orphans (add now (neg c.threshold)) c.batch_size t q' k in
            let (q, j, r) = In-requeue locked cutoff c.batch_size d.executions q' u i in
            inr (Reemitted-of_orphan c d.executions q q' x j r o e)
      ]
