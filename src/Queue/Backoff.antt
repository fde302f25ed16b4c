-- ===== src/Queue/Backoff.antt =====
-- The delays of `scheduleReconnect` in src/queue/rabbitmq.service.ts.
use nestjs_scaffold.Base.{
  ℕ, zero, suc, ◌+◌, ◌-◌, ◌*◌, ◌^◌, ◌≤◌, min, Bool, false, List, [], ◌∷◌, ◌++◌, ◌≡◌, refl, sym, ap,
  ◌∙◌, ◌||◌, ltb, arith, any,
}
use nestjs_scaffold.Queue.Connection.{
  Rabbitmq, reconnect_delay, max_reconnect_delay, schedule_reconnect, on_close, connected,
  connect_failed, on_reconnected, reconnect_succeeded, reconnect_failed, consume,
  on_application_shutdown, bootstrapped, Step, Reaches,
}

one_le_pow : (n : ℕ) → 1 ≤ 2 ^ n
one_le_pow zero = omega arith
one_le_pow (suc n) = omega (arith, one_le_pow n)

previous : (n : ℕ) → n + 1 - 1 ≡ n
previous n = omega arith

before_last : (n : ℕ) → n + 2 - 1 ≡ suc n
before_last n = omega arith

doubled : (n : ℕ) → min (1000 * 2 ^ suc n) 30000 ≡ min (2 * min (1000 * 2 ^ n) 30000) 30000
doubled n = omega arith

-- The first delay is a second, each one doubles the one before, and none is longer than the longest.
pub reconnect_delay_lem :
    (n : ℕ)
    → (reconnect_delay 1 ≡ 1000)
      × (reconnect_delay (n + 2) ≡ min (2 * reconnect_delay (n + 1)) max_reconnect_delay)
reconnect_delay_lem n = (
  refl,
  ap (λ k. min (1000 * 2 ^ k) 30000) (before_last n)
      ∙ doubled n
      ∙ ap (λ k. min (2 * min (1000 * 2 ^ k) 30000) 30000) (sym (previous n)),
)

-- A delay that is shorter than a second or longer than the longest.
abbrev pub is_out_of_bounds : ℕ → Bool
is_out_of_bounds d = ltb d 1000 || ltb max_reconnect_delay d

schedule_reconnect-bounded :
    (s : Rabbitmq)
    → any is_out_of_bounds s.timers ≡ false
    → any is_out_of_bounds (schedule_reconnect s).timers ≡ false
unfolding schedule_reconnect
schedule_reconnect-bounded s h = ground (arith, one_le_pow s.reconnect_attempts)

fired-bounded :
    (before after : List ℕ) (delay : ℕ)
    → any is_out_of_bounds (before ++ delay ∷ after) ≡ false
    → any is_out_of_bounds (before ++ after) ≡ false
fired-bounded [] after delay h = ground arith
fired-bounded (d ∷ before) after delay h = ground (arith, fired-bounded before after delay)

Step-bounded :
    (s t : Rabbitmq)
    → Step s t
    → any is_out_of_bounds s.timers ≡ false
    → any is_out_of_bounds t.timers ≡ false
unfolding on_close connected connect_failed on_reconnected reconnect_succeeded reconnect_failed
    consume on_application_shutdown
Step-bounded _ _ (Step.closed s) h = ground (arith, schedule_reconnect-bounded s h)
Step-bounded _ _ (Step.channel_failed s) h = schedule_reconnect-bounded s h
Step-bounded _ _ (Step.fired s before after delay there) h =
    fired-bounded before after delay (sym (ap (any is_out_of_bounds) there) ∙ h)
Step-bounded _ _ (Step.attempt_succeeded s n some_left) h = ground (arith, h)
Step-bounded _ _ (Step.attempt_failed s n channel connection some_left) h =
    schedule_reconnect-bounded
      (record s {
        in_flight = n;
        has_channel = channel;
        has_connection = connection;
        is_reconnecting = false;
      })
      h
Step-bounded _ _ (Step.called s) h = ground (arith, h)
Step-bounded _ _ (Step.call_failed s channel connection absent) h = h
Step-bounded _ _ (Step.consumed s) h = ground (arith, h)
Step-bounded _ _ (Step.shut_down s) h = h

Reaches-bounded :
    (s t : Rabbitmq)
    → Reaches s t
    → any is_out_of_bounds s.timers ≡ false
    → any is_out_of_bounds t.timers ≡ false
Reaches-bounded _ _ (Reaches.here s) h = h
Reaches-bounded _ _ (Reaches.then_step s t u run step) h =
    Step-bounded t u step (Reaches-bounded s t run h)

-- Every delay that is set in a state that the service reaches is a second at least and the longest
-- delay, thirty seconds, at most.
pub delays_bounded : (s : Rabbitmq) → Reaches bootstrapped s → any is_out_of_bounds s.timers ≡ false
delays_bounded s run = Reaches-bounded bootstrapped s run refl
