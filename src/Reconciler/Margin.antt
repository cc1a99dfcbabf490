-- ===== src/Reconciler/Margin.antt =====
-- internal/reconciler/reconciler.go: its two thresholds against the dispatcher's retry window.
use mathlib.Core.Path.{subst}
use easy_cron.Prelude.{
  ℕ, ◌+◌, ◌≤◌, ◌<◌, ◌≡◌, ◌⊎◌, refl, Bool, true, Option, none, some, ◌&&◌, arith, inl, inr, In,
}
use easy_cron.Domain.{Time, Uuid, Execution, TriggerEvent, before, add}
use easy_cron.Prelude.Int.{pos, neg}
use easy_cron.Dispatcher.{max_retry_duration}
use easy_cron.Store.{is_emitted, is_in_progress, is_stale, claimed_before}
use easy_cron.Store.Rows.{IsUnique}
use easy_cron.Reconciler.{
  Config, event_of, safety_margin, default_config, default_requeue_threshold, requeue_threshold_of,
  run_cycle,
}
use easy_cron.Reconciler.Postgres.{Database, postgres}
use easy_cron.Reconciler.Cycle.{cycle_sound}

-- The row was claimed, so long ago.
abbrev pub ClaimedFor : ℕ → Time → Option Time → Type 0
ClaimedFor d now none = ⊥
ClaimedFor d now (some t) = t + d < now

-- Both thresholds reach over the retry window.
abbrev pub IsPatient : Config → Type 0
IsPatient c =
    (m n : ℕ) × (c.threshold ≡ pos m)
    × (requeue_threshold_of c ≡ pos n)
    × (max_retry_duration ≤ m)
    × (max_retry_duration ≤ n)

pub default-IsPatient : IsPatient default_config
unfolding default_config default_requeue_threshold max_retry_duration
default-IsPatient = (
  max_retry_duration + safety_margin,
  max_retry_duration + safety_margin,
  refl,
  refl,
  omega arith,
  omega arith,
)

and3 : (a b c : Bool) → (a && b && c) ≡ true → (a ≡ true) × (b ≡ true)
and3 a b c h = ground arith

before_margin :
    (n k : ℕ) (now t : Time) → k ≤ n → before t (add now (neg (pos n))) ≡ true → t + k < now
before_margin n k now t l h = ground arith

claimed_margin :
    (n k : ℕ) (now : Time) (ct : Option Time)
    → k ≤ n
    → claimed_before (add now (neg (pos n))) ct ≡ true
    → ClaimedFor k now ct
claimed_margin n k now none l h = absurd (ground arith)
claimed_margin n k now (some t) l h = before_margin n k now t l h

module _ (locked : Uuid → Bool) (capacity : ℕ) (now : Time) where
  -- Over a table with unique keys and with thresholds that reach over the retry window, an event
  -- in the buffer after a cycle was there before or is for a row that was created longer ago than
  -- `MaxRetryDuration`, and that either waited as emitted or was claimed longer ago than
  -- `MaxRetryDuration`.
  pub reemits_after_retries :
      (c : Config) (d : Database) (x : TriggerEvent)
      → IsPatient c
      → IsUnique d.executions
      → In x (run_cycle (postgres locked capacity) c now d).0.buffer
      → In x d.buffer
        ⊎ ((q : Execution) × In q d.executions
            × (x ≡ event_of now q)
            × (q.created_at + max_retry_duration < now)
            × ((is_emitted q.status ≡ true)
                ⊎ ((is_in_progress q.status ≡ true)
                    × ClaimedFor max_retry_duration now q.claimed_at)))
  reemits_after_retries c d x (m, n, em, en, lm, ln) u i =
      elim (cycle_sound locked capacity now c d x u i) [
        | inl k ↦ inl k
        | inr (q, k, e, b, o) ↦ inr (
          q,
          k,
          e,
          before_margin m max_retry_duration now q.created_at lm (rw em at b),
          elim o [
            | inl h ↦ inl h
            | inr s ↦
                let g = and3 _ _ _ (subst (λ z. is_stale locked (add now (neg z)) q ≡ true) en s) in
                inr (g.0, claimed_margin n max_retry_duration now q.claimed_at ln g.1)
          ],
        )
      ]
