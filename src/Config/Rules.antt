-- ===== src/Config/Rules.antt =====
-- internal/config/validate.go: what a configuration without errors guarantees.
use mathlib.Core.Path.{subst}
use easy_cron.Prelude.{
  ℕ, zero, suc, ◌∙◌, ◌+◌, All, ◌≤◌, ◌≡◌, ◌⊎◌, refl, Bool, true, false, String, List, [], ◌∷◌, ◌++◌,
  inl, inr, if◌then◌else◌, str_eq, arith,
}
use easy_cron.Prelude.Int.{pos, ◌<ℤ◌}
use easy_cron.Domain.{Duration}
use easy_cron.Dispatcher.{max_retry_duration}
use easy_cron.Config.{
  Config, Message, ValidationError, check, concat, all_checks, leader_checks, reconciler_checks,
  production_checks, is_empty, is_positive, equal_fold, validate_leader, validate_reconciler,
  validate_production, validate,
}
use easy_cron.Reconciler
use easy_cron.Reconciler.{requeue_threshold_of}
use easy_cron.Reconciler.Margin.{IsPatient}

append_empty : (xs ys : List ValidationError) → xs ++ ys ≡ [] → (xs ≡ []) × (ys ≡ [])
append_empty [] ys h = (refl, h)
append_empty (x ∷ xs) ys h = absurd (ground arith)

concat_empty : (xss : List (List ValidationError)) → concat xss ≡ [] → All (λ xs. xs ≡ []) xss
concat_empty [] h = tt
concat_empty (xs ∷ xss) h = let (e, r) = append_empty xs (concat xss) h in (e, concat_empty xss r)

check_empty : (b : Bool) (f : String) (m : Message) → check b f m ≡ [] → b ≡ false
check_empty b f m h = ground arith

when_empty :
    (b : Bool) (xs : List ValidationError) → (if b then xs else []) ≡ [] → b ≡ true → xs ≡ []
when_empty b xs h e = subst (λ z. (if z then xs else []) ≡ []) e h

-- The reconciler that main.go builds.
abbrev pub reconciler_config : Config → ℕ → Reconciler.Config
reconciler_config cfg batch_size = record {
  interval = cfg.reconcile_interval;
  threshold = cfg.reconcile_threshold;
  requeue_threshold = cfg.reconcile_requeue_threshold;
  batch_size = batch_size;
}

module _ (parse_duration : String → String ⊎ Duration) (cfg : Config)
    (accepted : validate parse_duration cfg ≡ []) where
  parts :
      ((if str_eq cfg.dispatch_mode "db" then validate_leader cfg else []) ≡ [])
      × ((if cfg.reconcile_enabled then validate_reconciler cfg else []) ≡ [])
      × ((if equal_fold cfg.environment "production" then validate_production cfg else []) ≡ [])
  unfolding validate all_checks
  parts =
      let h = concat_empty (all_checks parse_duration cfg) accepted in
      (h.1.1.1.0, h.1.1.1.1.0, h.1.1.1.1.1.1.1.0)

  -- A configuration that is accepted for production dispatches through the database, runs the
  -- reconciler and the metrics, has an API key, and keeps the admin cookie secure.
  pub accepted_production :
      equal_fold cfg.environment "production" ≡ true
      → (str_eq cfg.dispatch_mode "db" ≡ true)
        × (cfg.reconcile_enabled ≡ true)
        × (cfg.metrics_enabled ≡ true)
        × (is_empty cfg.api_key ≡ false)
        × ((cfg.admin_enabled ≡ false) ⊎ (cfg.admin_cookie_secure ≡ true))
  unfolding validate_production
  accepted_production p =
      let none =
        concat_empty (production_checks cfg) (when_empty _ (validate_production cfg) parts.2 p) in
      ground (
        arith,
        check_empty _ _ _ none.0,
        check_empty _ _ _ none.1.0,
        check_empty _ _ _ none.1.1.0,
        check_empty _ _ _ none.1.1.1.0,
        check_empty _ _ _ none.1.1.1.1.0,
      )

  -- An accepted configuration that dispatches through the database, with both intervals positive,
  -- has a heartbeat that is shorter than the retry interval.
  pub accepted_leader :
      str_eq cfg.dispatch_mode "db" ≡ true
      → is_positive cfg.leader_heartbeat_interval ≡ true
      → is_positive cfg.leader_retry_interval ≡ true
      → cfg.leader_heartbeat_interval <ℤ cfg.leader_retry_interval
  unfolding validate_leader
  accepted_leader m h r =
      let none = concat_empty (leader_checks cfg) (when_empty _ (validate_leader cfg) parts.0 m) in
      ground (arith, check_empty _ _ _ none.1.1.0)

  -- Where an accepted configuration enables the reconciler, outside the benchmark environment,
  -- with a positive threshold and a requeue threshold that is positive or left at 0, both
  -- thresholds of the reconciler built from it reach over the dispatcher's retry window.
  pub accepted_reconciler :
      (batch_size n k : ℕ)
      → cfg.reconcile_enabled ≡ true
      → str_eq cfg.environment "benchmark" ≡ false
      → cfg.reconcile_threshold ≡ pos (1 + n)
      → cfg.reconcile_requeue_threshold ≡ pos k
      → IsPatient (reconciler_config cfg batch_size)
  unfolding validate_reconciler max_retry_duration
  accepted_reconciler batch_size n k on env t q =
      let none =
        concat_empty (reconciler_checks cfg) (when_empty _ (validate_reconciler cfg) parts.1 on) in
      let over : max_retry_duration ≤ 1 + n = ground (arith, t, check_empty _ _ _ none.1.1.1.0) in
      let requeue : (k ≡ 0) ⊎ (max_retry_duration ≤ k) =
        ground (arith, q, check_empty _ _ _ none.1.1.1.1.0) in
      elim requeue [
        | inl z ↦ (1 + n, 1 + n, t, unset k z q ∙ t, over, over)
        | inr l ↦ (1 + n, k, t, set k l q ∙ q, over, l)
      ]
    where
      unset :
          (k : ℕ)
          → k ≡ 0
          → cfg.reconcile_requeue_threshold ≡ pos k
          → requeue_threshold_of (reconciler_config cfg batch_size) ≡ cfg.reconcile_threshold
      unset k z q = rw (q, z) refl

      set :
          (k : ℕ)
          → max_retry_duration ≤ k
          → cfg.reconcile_requeue_threshold ≡ pos k
          → requeue_threshold_of (reconciler_config cfg batch_size)
            ≡ cfg.reconcile_requeue_threshold
      set zero l q = absurd (omega arith)
      set (suc k) l q = rw q (ground arith)
