-- ===== src/Queue/Consumer.antt =====
-- src/queue/rabbitmq.consumer.ts: the dispatch of an event, once for each event id.
use nestjs_scaffold.Base.{◌+◌, String, Option, none, some, [], ◌==◌, is_some, if◌then◌else◌}
use nestjs_scaffold.Exec.{
  Error, known_request, failure, skip_message, ◌>>=◌, ◌>>◌, pure, throw, catch,
}
use nestjs_scaffold.Json.{Json, prop, text_of}
use nestjs_scaffold.Schema.{processed_event}
use nestjs_scaffold.Env.{Env, Action, query, write}
use nestjs_scaffold.Queue.Message.{QueueEnvelope}
use nestjs_scaffold.Queue.Idempotency.{
  is_processed, mark_processed, acquire_processing_lock, release_processing_lock,
}

-- src/queue/events/user-created.event.ts
pub record UserCreatedEvent : Type 0 where
  pub user_id : String
  pub tenant_id : String
  pub email : String
  pub occurred_at : String

-- The four texts of a payload, if all are there.
abbrev pub all_texts :
    Option String → Option String → Option String → Option String → Option UserCreatedEvent
all_texts (some u) (some t) (some e) (some o) =
    some (record { user_id = u; tenant_id = t; email = e; occurred_at = o })
all_texts _ _ _ _ = none

abbrev pub read_user_created : Json → Option UserCreatedEvent
read_user_created payload =
    all_texts (text_of (prop "userId" payload)) (text_of (prop "tenantId" payload))
      (text_of (prop "email" payload)) (text_of (prop "occurredAt" payload))

-- `handle` of src/queue/handlers/user-created.handler.ts, which only logs
abbrev pub handle : (env : Env) → UserCreatedEvent → Action env Unit
handle env event = pure tt

-- `dispatch` for any handler in the place of `handle`
module _ (env : Env) (user_created_handler : UserCreatedEvent → Action env Unit) where
  unfoldable pub parse_user_created_payload : Json → Action env UserCreatedEvent
  parse_user_created_payload payload =
      elim (read_user_created payload) as (λ _. Action env UserCreatedEvent) [
        | none ↦ throw (failure "Invalid user.created payload")
        | some e ↦ pure e
      ]

  -- The `switch` of `dispatch`.
  unfoldable pub run_handler : QueueEnvelope → Action env Unit
  run_handler message =
      if message.routing_key == "user.created"
      then (do e ← parse_user_created_payload message.payload; user_created_handler e)
      else pure tt

  -- The handler of `markProcessed`.
  unfoldable pub on_mark_error : QueueEnvelope → Error → Action env Unit
  on_mark_error message (known_request code) =
      if code == "P2002"
      then (do
        mark_processed env message.event_id message.routing_key
        release_processing_lock env message.event_id message.routing_key
        throw skip_message)
      else throw (known_request code)
  on_mark_error message e = throw e

  -- The body of the `try` of `markProcessed`: the row of the database, the key and the lock.
  unfoldable pub save_processed : QueueEnvelope → Action env Unit
  save_processed message w =
      (do
        write env (
            env.prisma.create processed_event λ _. record {
              event_id = message.event_id;
              routing_key = message.routing_key;
              processed_at = w.now;
              expires_at = w.now + 604800000;
            })
        mark_processed env message.event_id message.routing_key
        release_processing_lock env message.event_id message.routing_key)
        w

  -- The private `markProcessed`
  unfoldable pub record_processed : QueueEnvelope → Action env Unit
  record_processed message = catch (save_processed message) (on_mark_error message)

  -- The handler of `dispatch`.
  abbrev pub on_dispatch_error : QueueEnvelope → Error → Action env Unit
  on_dispatch_error message e = do
    release_processing_lock env message.event_id message.routing_key
    throw e

  -- `dispatch` once the event is locked.
  unfoldable pub process : QueueEnvelope → Action env Unit
  process message =
      catch (do run_handler message; record_processed message) (on_dispatch_error message)

  -- `dispatch` from the lock on.
  unfoldable pub lock_and_process : QueueEnvelope → Action env Unit
  lock_and_process message = do
    acquired ← acquire_processing_lock env message.event_id message.routing_key
    if acquired then process message else throw skip_message

  -- `dispatch` from the look-up in the database on.
  unfoldable pub check_database : QueueEnvelope → Action env Unit
  check_database message = do
    processed ←
        query env (env.prisma.find_first processed_event (λ r. r.event_id == message.event_id) [])
    if is_some processed
        then mark_processed env message.event_id message.routing_key
        else lock_and_process message

  unfoldable pub dispatch : QueueEnvelope → Action env Unit
  dispatch message = do
    seen ← is_processed env message.event_id message.routing_key
    if seen then pure tt else check_database message
