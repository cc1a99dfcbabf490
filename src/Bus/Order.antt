-- ===== src/Bus/Order.antt =====
-- internal/transport/channel/bus.go: runs of the bus, and the order of the events in them.
use mathlib.Core.List.{append_assoc}
use easy_cron.Prelude.{
  ℕ, ◌≤◌, ◌<◌, ◌≡◌, ◌∙◌, refl, sym, ap, none, some, List, [], ◌∷◌, ◌++◌, length, length-append,
  arith,
}
use easy_cron.Domain.{TriggerEvent}
use easy_cron.Bus.{
  Metric, EventBus, EmitResult, sent, context_error, buffer_full, Setting, with_emit_timeout,
  with_metrics, tell, after_send, push, apply_all, new_event_bus, Emit, send, done, timeout,
  Receive, receive, emit_error,
}

-- A run of the bus: the events whose `Emit` returned nil, and the events received, in their order.
pub data Run (b0 : EventBus) : EventBus → List TriggerEvent → List TriggerEvent → Type 0 where
  start : Run b0 b0 [] []
  emitted :
      {b b' : EventBus} {xs ys : List TriggerEvent} {event : TriggerEvent}
      → Run b0 b xs ys
      → Emit event b b' sent
      → Run b0 b' (xs ++ (event ∷ [])) ys
  refused :
      {b b' : EventBus} {xs ys : List TriggerEvent} {event : TriggerEvent} {r : EmitResult}
      → Run b0 b xs ys
      → Emit event b b' r
      → (r ≡ sent → ⊥)
      → Run b0 b' xs ys
  received :
      {b b' : EventBus} {xs ys : List TriggerEvent} {event : TriggerEvent}
      → Run b0 b xs ys
      → Receive b event b'
      → Run b0 b' xs (ys ++ (event ∷ []))

-- What the metrics say does not touch the buffer.
tell-ch : (m : Metric) (b : EventBus) → (tell m b).ch ≡ b.ch
tell-ch m b =
    elim b.metrics
      as (λ o.
        (elim o as (λ x. EventBus) [
          | none ↦ b
          | some sink ↦ record b { metrics = some (sink ++ (m ∷ [])) }
        ]).ch
        ≡ b.ch) [ none ↦ refl | some sink ↦ refl ]

tell-capacity : (m : Metric) (b : EventBus) → (tell m b).capacity ≡ b.capacity
tell-capacity m b =
    elim b.metrics
      as (λ o.
        (elim o as (λ x. EventBus) [
          | none ↦ b
          | some sink ↦ record b { metrics = some (sink ++ (m ∷ [])) }
        ]).capacity
        ≡ b.capacity) [ none ↦ refl | some sink ↦ refl ]

after_send-ch : (b : EventBus) → (after_send b).ch ≡ b.ch
after_send-ch b = tell-ch _ (tell _ b) ∙ tell-ch _ b

after_send-capacity : (b : EventBus) → (after_send b).capacity ≡ b.capacity
after_send-capacity b = tell-capacity _ (tell _ b) ∙ tell-capacity _ b

-- The buffer after an `Emit`, by its result.
abbrev Buffered : TriggerEvent → EventBus → EventBus → EmitResult → Type 0
Buffered event b b' sent = (length b.ch < b.capacity) × (b'.ch ≡ b.ch ++ (event ∷ []))
Buffered event b b' context_error = b'.ch ≡ b.ch
Buffered event b b' buffer_full = b'.ch ≡ b.ch

Emit-Buffered :
    (event : TriggerEvent) (b b' : EventBus) (r : EmitResult)
    → Emit event b b' r
    → Buffered event b b' r × (b'.capacity ≡ b.capacity)
Emit-Buffered event b b' r (send h) =
    ((h, after_send-ch (push event b)), after_send-capacity (push event b))
Emit-Buffered event b b' r done = (refl, refl)
Emit-Buffered event b b' r timeout = (tell-ch emit_error b, tell-capacity emit_error b)

IsFifo : EventBus → List TriggerEvent → List TriggerEvent → Type 0
IsFifo b xs ys = (xs ≡ ys ++ b.ch) × (length b.ch ≤ b.capacity)

sent-IsFifo :
    (event : TriggerEvent) (b b' : EventBus) (xs ys : List TriggerEvent)
    → IsFifo b xs ys
    → Buffered event b b' sent × (b'.capacity ≡ b.capacity)
    → IsFifo b' (xs ++ (event ∷ [])) ys
unfolding IsFifo
sent-IsFifo event b b' xs ys h ((room, e), c) = (
  ap (λ l. l ++ (event ∷ [])) h.0 ∙ append_assoc ys b.ch (event ∷ []) ∙ ap (◌++◌ ys) (sym e),
  rw (e, c) (omega (arith, length-append b.ch (event ∷ []))),
)

refused-IsFifo :
    (event : TriggerEvent) (b b' : EventBus) (r : EmitResult) (xs ys : List TriggerEvent)
    → IsFifo b xs ys
    → (r ≡ sent → ⊥)
    → Buffered event b b' r × (b'.capacity ≡ b.capacity)
    → IsFifo b' xs ys
unfolding IsFifo
refused-IsFifo event b b' sent xs ys h d k = absurd (d refl)
refused-IsFifo event b b' context_error xs ys h d k = rw (k.0, k.1) h
refused-IsFifo event b b' buffer_full xs ys h d k = rw (k.0, k.1) h

received-IsFifo :
    (event : TriggerEvent) (b b' : EventBus) (xs ys : List TriggerEvent)
    → IsFifo b xs ys
    → Receive b event b'
    → IsFifo b' xs (ys ++ (event ∷ []))
unfolding IsFifo
received-IsFifo event b b' xs ys h (receive {rest = rest} e) = (
  h.0 ∙ ap (◌++◌ ys) e ∙ sym (append_assoc ys (event ∷ []) rest),
  omega (arith, ap length e, h.1),
)

run-IsFifo :
    (b0 b : EventBus) (xs ys : List TriggerEvent) → Run b0 b xs ys → b0.ch ≡ [] → IsFifo b xs ys
unfolding IsFifo
run-IsFifo b0 b xs ys start e = (sym e, omega (arith, ap length e))
run-IsFifo b0 b _ ys (emitted {b = b1} {xs = xs1} {event = event} r s) e =
    sent-IsFifo event b1 b xs1 ys (run-IsFifo b0 b1 xs1 ys r e) (Emit-Buffered event b1 b sent s)
run-IsFifo b0 b xs ys (refused {b = b1} {event = event} {r = q} r s d) e =
    refused-IsFifo event b1 b q xs ys (run-IsFifo b0 b1 xs ys r e) d (Emit-Buffered event b1 b q s)
run-IsFifo b0 b xs _ (received {b = b1} {ys = ys1} {event = event} r s) e =
    received-IsFifo event b1 b xs ys1 (run-IsFifo b0 b1 xs ys1 r e) s

apply_all-ch : (opts : List Setting) (b : EventBus) → (apply_all opts b).ch ≡ b.ch
apply_all-ch [] b = refl
apply_all-ch (with_emit_timeout d ∷ opts) b = apply_all-ch opts _
apply_all-ch (with_metrics sink ∷ opts) b = apply_all-ch opts _

new_event_bus-ch : (n : ℕ) (opts : List Setting) → (new_event_bus n opts).ch ≡ []
unfolding new_event_bus
new_event_bus-ch n opts = tell-ch _ _ ∙ apply_all-ch opts _

-- In every run of a new bus, the events that were accepted are, in their order, those received
-- followed by those in the buffer, and the buffer holds at most its capacity.
pub bus_fifo :
    (n : ℕ) (opts : List Setting) (b : EventBus) (xs ys : List TriggerEvent)
    → Run (new_event_bus n opts) b xs ys
    → (xs ≡ ys ++ b.ch) × (length b.ch ≤ b.capacity)
unfolding IsFifo
bus_fifo n opts b xs ys r = run-IsFifo (new_event_bus n opts) b xs ys r (new_event_bus-ch n opts)
