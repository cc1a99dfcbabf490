-- ===== src/Bus.antt =====
-- internal/transport/channel/bus.go: the event bus between the scheduler and the dispatcher. A `select`
-- takes any case that is ready, so `Emit` is a relation; the dispatcher's receive is another step.
pub mod Order
mod Tests
use easy_cron.Prelude.{
  ℕ, ◌*◌, ◌<◌, ◌≡◌, Bool, true, false, Option, none, some, List, [], ◌∷◌, ◌++◌, length,
}
use easy_cron.Domain.{Duration, TriggerEvent, second}
use easy_cron.Prelude.Int.{pos}

-- What the metrics sink is told; the saturation is the size and the capacity.
pub data Metric : Type 0 where
  buffer_size_update : ℕ → Metric
  buffer_saturation_update : ℕ → ℕ → Metric
  buffer_capacity_set : ℕ → Metric
  emit_error : Metric

pub record EventBus : Type 0 where
  pub ch : List TriggerEvent
  pub capacity : ℕ
  pub emit_timeout : Duration
  pub metrics : Option (List Metric)

-- `nil`, `ctx.Err()` and `ErrBufferFull`.
pub data EmitResult : Type 0 where
  sent context_error buffer_full : EmitResult

abbrev pub default_emit_timeout : Duration
default_emit_timeout = pos (5 * second)

-- `Option`, the functions that set up a bus.
pub data Setting : Type 0 where
  with_emit_timeout : Duration → Setting
  with_metrics : List Metric → Setting

abbrev pub apply : Setting → EventBus → EventBus
apply (with_emit_timeout d) b = record b { emit_timeout = d }
apply (with_metrics sink) b = record b { metrics = some sink }

abbrev pub apply_all : List Setting → EventBus → EventBus
apply_all [] b = b
apply_all (opt ∷ opts) b = apply_all opts (apply opt b)

-- A call of the sink, where there is one.
abbrev pub tell : Metric → EventBus → EventBus
tell m b = elim b.metrics [ none ↦ b | some sink ↦ record b { metrics = some (sink ++ (m ∷ [])) } ]

unfoldable pub new_event_bus : ℕ → List Setting → EventBus
new_event_bus buffer opts =
    let b = apply_all opts (record {
      ch = [];
      capacity = buffer;
      emit_timeout = default_emit_timeout;
      metrics = none;
    }) in
    tell (buffer_capacity_set b.capacity) b

-- The sink's calls after a send, which reads the size of the buffer.
abbrev pub after_send : EventBus → EventBus
after_send b =
    tell (buffer_saturation_update (length b.ch) b.capacity)
      (tell (buffer_size_update (length b.ch)) b)

abbrev pub push : TriggerEvent → EventBus → EventBus
push event b = record b { ch = b.ch ++ (event ∷ []) }

-- `Emit`: a send needs room in the buffer, the two other cases may win at any time.
pub data Emit (event : TriggerEvent) (b : EventBus) : EventBus → EmitResult → Type 0 where
  send : length b.ch < b.capacity → Emit event b (after_send (push event b)) sent
  done : Emit event b b context_error
  timeout : Emit event b (tell emit_error b) buffer_full

-- A receive from `Channel()`.
pub data Receive : EventBus → TriggerEvent → EventBus → Type 0 where
  receive :
      {b : EventBus} {event : TriggerEvent} {rest : List TriggerEvent}
      → b.ch ≡ event ∷ rest
      → Receive b event (record b { ch = rest })

-- `NopEmitter`, with the state of whoever calls it.
unfoldable pub nop_emit : {S : Type 0} → TriggerEvent → S → S × EmitResult
nop_emit event s = (s, sent)
