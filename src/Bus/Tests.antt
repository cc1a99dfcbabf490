-- ===== src/Bus/Tests.antt =====
-- Runs of the event bus at concrete inputs.
use easy_cron.Prelude.{◌≤◌, ◌≡◌, refl, [], ◌∷◌, ◌++◌, length, arith}
use easy_cron.Domain.{TriggerEvent, Uuid}
use easy_cron.Bus.{EventBus, new_event_bus, with_metrics, send, receive, after_send, push}
use easy_cron.Bus.Order.{Run, start, emitted, received, bus_fifo}

abbrev event : Uuid → TriggerEvent
event i = record {
  execution_id = i;
  job_id = 7;
  namespace = "team";
  scheduled_at = 1;
  fired_at = 2;
  created_at = 2;
}

abbrev bus : EventBus
unfolding new_event_bus
bus = new_event_bus 2 (with_metrics [] ∷ [])

abbrev after_one : EventBus
unfolding new_event_bus
after_one = after_send (push (event 1) bus)

abbrev after_two : EventBus
unfolding new_event_bus
after_two = after_send (push (event 2) after_one)

one_left : EventBus
one_left = record after_two { ch = event 2 ∷ [] }

-- Two events are accepted and the first of them is received.
history :
    Run (new_event_bus 2 (with_metrics [] ∷ [])) one_left (event 1 ∷ event 2 ∷ []) (event 1 ∷ [])
unfolding new_event_bus one_left
history =
    received {ys = []} {event = event 1}
      (emitted {xs = event 1 ∷ []} {event = event 2}
        (emitted {xs = []} {event = event 1} start (send (omega arith))) (send (omega arith)))
      (receive refl)

bus_fifo_example :
    (event 1 ∷ event 2 ∷ [] ≡ (event 1 ∷ []) ++ one_left.ch)
    × (length one_left.ch ≤ one_left.capacity)
bus_fifo_example =
    bus_fifo 2 (with_metrics [] ∷ []) one_left (event 1 ∷ event 2 ∷ []) (event 1 ∷ []) history
