-- ===== src/Dispatcher/Loop.antt =====
-- internal/dispatcher/dispatcher.go: the loop of `Dispatch` over the attempts.
use easy_cron.Prelude.{
  ℕ, zero, suc, ◌+◌, ◌-◌, false, not, String, Option, none, some, ◌∷◌, if◌then◌else◌, leb, ltb,
  get_or, length,
}
use easy_cron.Domain.{TriggerEvent, DeliveryAttempt}
use easy_cron.Dispatcher.{
  Store, World, Env, WebhookRequest, WebhookResult, is_success, is_retryable, default_backoff,
  delivery_attempt_completed, retry_attempt, observe,
}
use easy_cron.Dispatcher.Classify.{classify_status_for_metrics}

-- How the loop ends: after a success, by `break` or with its attempts used up, or because the
-- context ended during a backoff.
pub data LoopExit : Type 0 where
  succeeded gave_up interrupted : LoopExit

-- `result.Error.Error()`, and "" where there is none.
abbrev pub error_text : Option String → String
error_text none = ""
error_text (some e) = e

-- `idx := attempt - 1`, at most the last index of the backoff list.
unfoldable pub backoff_of : ℕ → ℕ
backoff_of attempt =
    let idx = attempt - 1 in
    let len = length default_backoff in
    get_or default_backoff (if leb len idx then len - 1 else idx) 0

abbrev pub zero_result : WebhookResult
zero_result = record { status_code = 0; error = none; duration = 0 }

module _ (st : Store) where
  open st use {S, insert_delivery_attempt}

  -- The part under `if attempt > 1`: the metric and the wait, up to the select.
  unfoldable pub wait : ℕ → WebhookResult → World S → World S
  unfolding backoff_of
  wait attempt last w =
      let w1 = observe (retry_attempt (is_retryable last)) w in
      record w1 { waited = backoff_of attempt ∷ w1.waited }

  abbrev pub request_of : Env → WebhookRequest → ℕ → WebhookRequest
  request_of env req attempt = record req { attempt_id = env.attempt_id attempt }

  -- One request, its metric and its record.
  unfoldable pub try : Env → TriggerEvent → WebhookRequest → ℕ → World S → World S × WebhookResult
  try env event req attempt w =
      let req' = request_of env req attempt in
      let result = env.send attempt req' in
      let class = classify_status_for_metrics result.status_code result.error in
      let w1 =
        observe (delivery_attempt_completed attempt class result.duration)
          (record w { sent = req' ∷ w.sent }) in
      let entry : DeliveryAttempt = record {
        id = env.attempt_id attempt;
        execution_id = event.execution_id;
        attempt = attempt;
        status_code = result.status_code;
        error = error_text result.error;
        started_at = env.started_at attempt;
        finished_at = env.finished_at attempt;
      } in
      (record w1 { store = insert_delivery_attempt entry w1.store }, result)

  -- `for attempt := 1; attempt <= maxAttempts; attempt++`, by the rounds left.
  unfoldable pub attempts :
      Env → TriggerEvent → WebhookRequest → ℕ → ℕ → WebhookResult → World S → World S × LoopExit
  unfolding wait try
  attempts env event req zero attempt last w = (w, gave_up)
  attempts env event req (suc rounds) attempt last w =
      let w1 = if ltb 1 attempt then wait attempt last w else w in
      let (w2, result) = try env event req attempt w1 in
      let rest = attempts env event req rounds (attempt + 1) result w2 in
      if (if ltb 1 attempt then env.cancelled attempt else false)
      then (w1, interrupted)
      else if is_success result
      then (w2, succeeded)
      else if not (is_retryable result)
      then (w2, gave_up)
      else rest
