-- ===== src/Queue/Reconnection.antt =====
-- What holds of the connection of src/queue/rabbitmq.service.ts in every state that it reaches.
use nestjs_scaffold.Base.{
  ℕ, zero, suc, ◌+◌, ◌≤◌, Bool, true, false, List, [], ◌∷◌, ◌++◌, ◌≡◌, refl, ap, arith, length, ◌⊎◌,
  inl, inr,
}
use nestjs_scaffold.Queue.Connection.{
  Rabbitmq, schedule_reconnect, on_close, on_channel_error, connected, connect_failed,
  on_reconnected, reconnect_succeeded, reconnect_failed, consume, on_application_shutdown,
  bootstrapped, Step, Reaches,
}

-- The reconnections that are to come.
abbrev pub pending : Rabbitmq → ℕ
pending s = length s.timers + s.in_flight

-- The service is not stuck: without a channel, or with the flag set, a reconnection is to come.
pub record IsAlive (s : Rabbitmq) : Type 0 where
  pub reachable : s.is_shutting_down ≡ false → s.has_channel ≡ false → 1 ≤ pending s
  pub flagged : s.is_reconnecting ≡ true → 1 ≤ pending s

schedule_reconnect-IsAlive : (s : Rabbitmq) → IsAlive s → IsAlive (schedule_reconnect s)
unfolding schedule_reconnect
schedule_reconnect-IsAlive s h = record {
  reachable = λ up gone. ground (arith, h.reachable, h.flagged);
  flagged = λ on. ground (arith, h.flagged);
}

on_close-IsAlive : (s : Rabbitmq) → IsAlive s → IsAlive (on_close s)
unfolding on_close
on_close-IsAlive s h =
    let scheduled = schedule_reconnect-IsAlive s h in
    record {
      reachable = λ up gone. ground (arith, h.reachable, scheduled.reachable);
      flagged = λ on. ground (arith, h.flagged, scheduled.flagged);
    }

connected-IsAlive : (s : Rabbitmq) → IsAlive s → IsAlive (connected s)
unfolding connected
connected-IsAlive s h = record {
  reachable = λ up gone. ground arith;
  flagged = λ on. ground (arith, h.flagged);
}

reconnect_succeeded-IsAlive : (s : Rabbitmq) → IsAlive (reconnect_succeeded s)
unfolding reconnect_succeeded connected on_reconnected
reconnect_succeeded-IsAlive s = record { reachable = λ up gone. ground arith; flagged = λ on. cc }

reconnect_failed-IsAlive :
    (channel connection : Bool) (s : Rabbitmq) → IsAlive (reconnect_failed channel connection s)
unfolding reconnect_failed connect_failed schedule_reconnect
reconnect_failed-IsAlive channel connection s = record {
  reachable = λ up gone. ground arith;
  flagged = λ on. cc;
}

-- What the service does by itself: its timers fire, and its attempts come to an end.
pub data RunsAlone : Rabbitmq → Rabbitmq → Type 0 where
  stays : (s : Rabbitmq) → RunsAlone s s
  fires :
      (s t : Rabbitmq) (before after : List ℕ) (delay : ℕ)
      → s.timers ≡ before ++ delay ∷ after
      → RunsAlone (record s { timers = before ++ after; in_flight = s.in_flight + 1 }) t
      → RunsAlone s t
  connects :
      (s t : Rabbitmq) (n : ℕ)
      → s.in_flight ≡ suc n
      → RunsAlone (reconnect_succeeded (record s { in_flight = n })) t
      → RunsAlone s t

-- A timer that fires is an attempt in flight.
length-fired :
    (before after : List ℕ) (delay : ℕ)
    → length (before ++ delay ∷ after) ≡ suc (length (before ++ after))
length-fired [] after delay = refl
length-fired (d ∷ before) after delay = omega (arith, length-fired before after delay)

Step-IsAlive : (s t : Rabbitmq) → Step s t → IsAlive s → IsAlive t
unfolding connect_failed consume on_application_shutdown
Step-IsAlive _ _ (Step.closed s) h = on_close-IsAlive s h
Step-IsAlive _ _ (Step.channel_failed s) h = schedule_reconnect-IsAlive s h
Step-IsAlive _ _ (Step.fired s before after delay there) h = record {
  reachable = λ up gone.
      omega (arith, h.reachable up gone, length-fired before after delay, ap length there);
  flagged = λ on. omega (arith, h.flagged on, length-fired before after delay, ap length there);
}
Step-IsAlive _ _ (Step.attempt_succeeded s n some_left) h = reconnect_succeeded-IsAlive _
Step-IsAlive _ _ (Step.attempt_failed s n channel connection some_left) h =
    reconnect_failed-IsAlive channel connection _
Step-IsAlive _ _ (Step.called s) h = connected-IsAlive s h
Step-IsAlive _ _ (Step.call_failed s channel connection absent) h = record {
  reachable = λ up gone. h.reachable up absent;
  flagged = h.flagged;
}
Step-IsAlive _ _ (Step.consumed s) h =
    let c =
      connected-IsAlive (record s { has_handler = true })
        (record { reachable = h.reachable; flagged = h.flagged }) in
    record { reachable = c.reachable; flagged = c.flagged }
Step-IsAlive _ _ (Step.shut_down s) h = record { reachable = λ up gone. cc; flagged = h.flagged }

bootstrapped-IsAlive : IsAlive bootstrapped
bootstrapped-IsAlive = record { reachable = λ up gone. cc; flagged = λ on. cc }

-- In every state that the service reaches after its start, it has a channel, is shutting down, or
-- has a reconnection to come; and while it is marked as reconnecting, one is to come.
pub Reaches-IsAlive : (s t : Rabbitmq) → Reaches s t → IsAlive s → IsAlive t
Reaches-IsAlive _ _ (Reaches.here s) h = h
Reaches-IsAlive _ _ (Reaches.then_step s t u run step) h =
    Step-IsAlive t u step (Reaches-IsAlive s t run h)

attempt-reconnects :
    (s : Rabbitmq) (n : ℕ)
    → s.in_flight ≡ suc n
    → (t : Rabbitmq) × RunsAlone s t × (t.has_channel ≡ true) × (t.is_reconnecting ≡ false)
unfolding reconnect_succeeded connected on_reconnected
attempt-reconnects s n some_left = (
  reconnect_succeeded (record s { in_flight = n }),
  RunsAlone.connects s _ n some_left (RunsAlone.stays _),
  ground arith,
  refl,
)

timer-reconnects :
    (s : Rabbitmq) (delays : List ℕ)
    → s.timers ≡ delays
    → s.in_flight ≡ 0
    → 1 ≤ length delays
    → (t : Rabbitmq) × RunsAlone s t × (t.has_channel ≡ true) × (t.is_reconnecting ≡ false)
unfolding reconnect_succeeded connected on_reconnected
timer-reconnects s [] there idle some_left = absurd (omega arith)
timer-reconnects s (d ∷ delays) there idle some_left =
    let fired : Rabbitmq = record s { timers = delays; in_flight = s.in_flight + 1 } in
    (
      reconnect_succeeded (record fired { in_flight = 0 }),
      RunsAlone.fires s _ [] delays d there
          (RunsAlone.connects fired _ 0 (omega (arith, idle)) (RunsAlone.stays _)),
      ground arith,
      refl,
    )

flights : (n : ℕ) → (n ≡ 0) ⊎ ((m : ℕ) × (n ≡ suc m))
flights zero = inl refl
flights (suc n) = inr (n, refl)

-- From every state without a channel that the service reaches, unless it is shutting down, a channel
-- can be reached again by what is to come of itself, without a call of another service: a timer
-- fires, or has fired, and its attempt succeeds.
pub reconnects :
    (s : Rabbitmq)
    → Reaches bootstrapped s
    → s.is_shutting_down ≡ false
    → s.has_channel ≡ false
    → (t : Rabbitmq) × RunsAlone s t × (t.has_channel ≡ true) × (t.is_reconnecting ≡ false)
reconnects s run up gone =
    let waiting = (Reaches-IsAlive bootstrapped s run bootstrapped-IsAlive).reachable up gone in
    elim (flights s.in_flight) [
      | inl idle ↦ timer-reconnects s s.timers refl idle (omega (arith, waiting, idle))
      | inr (n, some_left) ↦ attempt-reconnects s n some_left
    ]

-- A failed attempt sets the next timer and clears the flag that says so: a channel error that comes
-- before the timer fires sets a second one, so that two attempts are to come.
pub failed_twice :
    (s : Rabbitmq) (channel connection : Bool)
    → s.is_shutting_down ≡ false
    → let failed = reconnect_failed channel connection s in
      (failed.is_reconnecting ≡ false)
      × (pending failed ≡ pending s + 1)
      × (pending (on_channel_error failed) ≡ pending s + 2)
unfolding reconnect_failed connect_failed schedule_reconnect
failed_twice s channel connection up = (refl, ground arith, ground arith)
