-- ===== src/Queue/Connection.antt =====
-- The connection of src/queue/rabbitmq.service.ts: its fields as a state and what each event does to
-- it. `channel`, `connection` and `consumerHandler` are modelled by whether they are set. An attempt
-- to connect is one event, which succeeds or fails: what amqplib does in it is not modelled.
use nestjs_scaffold.Base.{
  ℤ, pos, negsuc, Option, none, some, or_else, ℕ, suc, ◌+◌, ◌-◌, ◌*◌, ◌^◌, min, Bool, true, false,
  Option, List, [], ◌∷◌, ◌++◌, ◌≡◌, ◌||◌, if◌then◌else◌,
}

pub record Rabbitmq : Type 0 where
  pub has_channel : Bool
  pub has_connection : Bool
  pub is_shutting_down : Bool
  pub is_reconnecting : Bool
  pub reconnect_attempts : ℕ
  -- The delays of the timers that `scheduleReconnect` has set and that have not fired.
  pub timers : List ℕ
  -- The timers that have fired and still wait for `connect`.
  pub in_flight : ℕ
  pub has_handler : Bool
  -- How often the handler consumes from the current channel.
  pub consumers : ℕ

abbrev pub max_reconnect_delay : ℕ
max_reconnect_delay = 30000

-- `Math.min(1000 * Math.pow(2, this.reconnectAttempts - 1), this.maxReconnectDelay)`
abbrev pub reconnect_delay : ℕ → ℕ
reconnect_delay attempts = min (1000 * 2 ^ (attempts - 1)) max_reconnect_delay

unfoldable pub schedule_reconnect : Rabbitmq → Rabbitmq
schedule_reconnect s = if s.is_shutting_down || s.is_reconnecting then s else record s {
  is_reconnecting = true;
  has_channel = false;
  has_connection = false;
  reconnect_attempts = s.reconnect_attempts + 1;
  timers = reconnect_delay (s.reconnect_attempts + 1) ∷ s.timers;
}

-- `connection.on('close')` and `channel.on('error')`
unfoldable pub on_close : Rabbitmq → Rabbitmq
unfolding schedule_reconnect
on_close s = if s.is_shutting_down then s else schedule_reconnect s

abbrev pub on_channel_error : Rabbitmq → Rabbitmq
on_channel_error s = schedule_reconnect s

-- `connect`, where it succeeds: at once if there is a channel, and else by `establishConnection`.
unfoldable pub connected : Rabbitmq → Rabbitmq
connected s = if s.has_channel then s else record s {
  has_channel = true;
  has_connection = true;
  reconnect_attempts = 0;
  consumers = 0;
}

-- `connect`, where it fails after it has opened a connection, a channel, or neither.
unfoldable pub connect_failed : Bool → Bool → Rabbitmq → Rabbitmq
connect_failed channel connection s = record s {
  has_channel = channel;
  has_connection = connection;
}

-- `onReconnected`, for its consumer; the callbacks are of other services
unfoldable pub on_reconnected : Rabbitmq → Rabbitmq
on_reconnected s = record s { consumers = if s.has_handler then s.consumers + 1 else s.consumers }

-- The `then` and the `finally` of an attempt that has succeeded.
unfoldable pub reconnect_succeeded : Rabbitmq → Rabbitmq
unfolding connected on_reconnected
reconnect_succeeded s = record (on_reconnected (connected s)) { is_reconnecting = false }

-- The `catch` and the `finally` of an attempt that has failed.
unfoldable pub reconnect_failed : Bool → Bool → Rabbitmq → Rabbitmq
unfolding connect_failed schedule_reconnect
reconnect_failed channel connection s =
    record (schedule_reconnect
      (record (connect_failed channel connection s) { is_reconnecting = false })) {
        is_reconnecting = false;
      }

-- `consume`, once `connect` has succeeded
unfoldable pub consume : Rabbitmq → Rabbitmq
unfolding connected
consume s =
    let c = connected (record s { has_handler = true }) in record c { consumers = c.consumers + 1 }

-- `onApplicationShutdown`; the timers are not cleared
unfoldable pub on_application_shutdown : Rabbitmq → Rabbitmq
on_application_shutdown s = record s { is_shutting_down = true }

-- The state after `onApplicationBootstrap`.
abbrev pub bootstrapped : Rabbitmq
bootstrapped = record {
  has_channel = true;
  has_connection = true;
  is_shutting_down = false;
  is_reconnecting = false;
  reconnect_attempts = 0;
  timers = [];
  in_flight = 0;
  has_handler = false;
  consumers = 0;
}

-- What can happen next.
pub data Step : Rabbitmq → Rabbitmq → Type 0 where
  closed : (s : Rabbitmq) → Step s (on_close s)
  channel_failed : (s : Rabbitmq) → Step s (on_channel_error s)
  -- A timer of the list fires and calls `connect`.
  fired :
      (s : Rabbitmq) (before after : List ℕ) (delay : ℕ)
      → s.timers ≡ before ++ delay ∷ after
      → Step s (record s { timers = before ++ after; in_flight = s.in_flight + 1 })
  attempt_succeeded :
      (s : Rabbitmq) (n : ℕ)
      → s.in_flight ≡ suc n
      → Step s (reconnect_succeeded (record s { in_flight = n }))
  attempt_failed :
      (s : Rabbitmq) (n : ℕ) (channel connection : Bool)
      → s.in_flight ≡ suc n
      → Step s (reconnect_failed channel connection (record s { in_flight = n }))
  -- Another service calls `connect`.
  called : (s : Rabbitmq) → Step s (connected s)
  call_failed :
      (s : Rabbitmq) (channel connection : Bool)
      → s.has_channel ≡ false
      → Step s (connect_failed channel connection s)
  consumed : (s : Rabbitmq) → Step s (consume s)
  shut_down : (s : Rabbitmq) → Step s (on_application_shutdown s)

pub data Reaches : Rabbitmq → Rabbitmq → Type 0 where
  here : (s : Rabbitmq) → Reaches s s
  then_step : (s t u : Rabbitmq) → Reaches s t → Step t u → Reaches s u

-- What `checkQueue` replies, and what `getQueueStatus` answers.
pub record QueueReply : Type 0 where
  pub message_count : Option ℕ
  pub consumer_count : Option ℕ

pub record QueueStatus : Type 0 where
  pub messages : ℤ
  pub consumers_there : ℤ

abbrev unknown : QueueStatus
unknown = record { messages = negsuc 0; consumers_there = negsuc 0 }

-- `getQueueStatus`; there is no reply where `checkQueue` throws
unfoldable pub get_queue_status : Rabbitmq → Option QueueReply → QueueStatus
get_queue_status s none = unknown
get_queue_status s (some reply) =
    if s.has_channel
    then (let status : QueueStatus = record {
      messages = pos (or_else reply.message_count 0);
      consumers_there = pos (or_else reply.consumer_count 0);
    } in
        status)
    else unknown
