-- ===== src/Dispatcher/Workers/Drain.antt =====
-- internal/dispatcher/dispatcher.go: what a drain has done when it ends.
use mathlib.Core.Path.{subst}
use mathlib.Core.List.{append-nil, append_assoc}
use easy_cron.Prelude.{
  ℕ, zero, suc, ◌+◌, ◌<◌, ◌≡◌, ◌∙◌, inl, inr, refl, sym, ap, Bool, true, false, some, List, [], ◌∷◌,
  ◌++◌, length, arith, Bool-cases,
}
use easy_cron.Domain.{TriggerEvent}
use easy_cron.Dispatcher.{Store, World, Env}
use easy_cron.Dispatcher.Run.{dispatch}
use easy_cron.Dispatcher.Workers.{DrainEnd, timeout, channel_closed, no_more, drain, dispatch_all}

-- The events that the producers add during so many dispatches from the number `i` on.
unfoldable pub sent_during : (ℕ → List TriggerEvent) → ℕ → ℕ → List TriggerEvent
sent_during sent i zero = []
sent_during sent i (suc n) = sent i ++ sent_during sent (suc i) n

module _ (st : Store) (env : ℕ → Env) (expired closed : ℕ → Bool)
    (sent : ℕ → List TriggerEvent) where
  -- Which way out it is, by the select that takes it and what is left in the channel.
  abbrev pub IsEnd : DrainEnd → ℕ → List TriggerEvent → Type 0
  IsEnd timeout i left = expired i ≡ true
  IsEnd channel_closed i left = (expired i ≡ false) × (left ≡ []) × (closed i ≡ true)
  IsEnd no_more i left = (expired i ≡ false) × (left ≡ []) × (closed i ≡ false)

  -- No select in a row of them takes the deadline.
  unfoldable pub AreInTime : ℕ → ℕ → Type 0
  AreInTime i zero = Unit
  AreInTime i (suc n) = (expired i ≡ false) × AreInTime (suc i) n

  -- The events that were dispatched and those left in the channel are, in their order, those that it
  -- held and those that were sent meanwhile.
  pub record Drained (n i : ℕ) (es : List TriggerEvent) (w : World st.S) : Type 0 where
    pub handled : List TriggerEvent
    pub left : List TriggerEvent
    pub way_out : DrainEnd
    pub all : es ++ sent_during sent i (length handled) ≡ handled ++ left
    pub result :
        drain st env expired closed sent n i es w
        ≡ some (way_out, left, dispatch_all st env i handled w)
    pub in_time : AreInTime i (length handled)
    pub ended : IsEnd way_out (i + length handled) left

  at_start : (i : ℕ) → i + 0 ≡ i
  at_start i = omega arith

  -- A drain that takes the deadline at its first select.
  Drained-at_once :
      (n i : ℕ) (es : List TriggerEvent) (w : World st.S)
      → expired i ≡ true
      → Drained (suc n) i es w
  unfolding drain dispatch_all sent_during AreInTime
  Drained-at_once n i [] w t = record {
    handled = [];
    left = [];
    way_out = timeout;
    all = refl;
    result = rw (drain, t) refl;
    in_time = tt;
    ended = ap expired (at_start i) ∙ t;
  }
  Drained-at_once n i (e ∷ es) w t = record {
    handled = [];
    left = e ∷ es;
    way_out = timeout;
    all = append-nil (e ∷ es);
    result = rw (drain, t) refl;
    in_time = tt;
    ended = ap expired (at_start i) ∙ t;
  }

  -- A drain that finds nothing.
  Drained-empty : (n i : ℕ) (w : World st.S) → expired i ≡ false → Drained (suc n) i [] w
  unfolding drain dispatch_all sent_during AreInTime
  Drained-empty n i w t = elim (Bool-cases (closed i)) [
    | inl c ↦ record {
      handled = [];
      left = [];
      way_out = channel_closed;
      all = refl;
      result = rw (drain, t, c) refl;
      in_time = tt;
      ended = (ap expired (at_start i) ∙ t, refl, ap closed (at_start i) ∙ c);
    }
    | inr c ↦ record {
      handled = [];
      left = [];
      way_out = no_more;
      all = refl;
      result = rw (drain, t, c) refl;
      in_time = tt;
      ended = (ap expired (at_start i) ∙ t, refl, ap closed (at_start i) ∙ c);
    }
  ]

  -- One dispatch before the rest of a drain.
  Drained-step :
      (n i : ℕ) (e : TriggerEvent) (es : List TriggerEvent) (w : World st.S)
      → expired i ≡ false
      → Drained n (suc i) (es ++ sent i) (dispatch st (env i) e w).0
      → Drained (suc n) i (e ∷ es) w
  unfolding drain dispatch_all sent_during AreInTime
  Drained-step n i e es w t r =
      let m = length r.handled in
      let p : suc i + m ≡ i + suc m = omega arith in
      record {
        handled = e ∷ r.handled;
        left = r.left;
        way_out = r.way_out;
        all =
            ap (λ zs. e ∷ zs) (sym (append_assoc es (sent i) (sent_during sent (suc i) m)) ∙ r.all);
        result = rw (drain, t) r.result;
        in_time = (t, r.in_time);
        ended = subst (λ k. IsEnd r.way_out k r.left) p r.ended;
      }

  -- A drain ends, by its select number `k` at the latest, where that one takes the deadline: with
  -- fuel for it the result is there, whatever the producers send. The drain has then dispatched, one
  -- after the other, the first of the events that the channel held or that were sent to it
  -- meanwhile, and has left the others; no select before its last one took the deadline, and the
  -- last one took it or found the channel empty, closed or not.
  pub drain-Drained :
      (n k i : ℕ) (es : List TriggerEvent) (w : World st.S)
      → k < n
      → expired (i + k) ≡ true
      → Drained n i es w
  drain-Drained zero k i es w l x = absurd (omega (arith, l))
  drain-Drained (suc n) zero i es w l x =
      Drained-at_once n i es w (ap expired (sym (at_start i)) ∙ x)
  drain-Drained (suc n) (suc k) i [] w l x = elim (Bool-cases (expired i)) [
    | inl t ↦ Drained-at_once n i [] w t
    | inr t ↦ Drained-empty n i w t
  ]
  drain-Drained (suc n) (suc k) i (e ∷ es) w l x = elim (Bool-cases (expired i)) [
    | inl t ↦ Drained-at_once n i (e ∷ es) w t
    | inr t ↦
        let p : suc i + k ≡ i + suc k = omega arith in
        Drained-step n i e es w t (
          drain-Drained n k (suc i) (es ++ sent i) (dispatch st (env i) e w).0 (omega (arith, l))
            (ap expired p ∙ x))
  ]
