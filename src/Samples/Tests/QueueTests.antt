-- ===== src/Samples/Tests/QueueTests.antt =====
-- src/queue at sample messages.
use nestjs_scaffold.Base.{
  zero, suc, ◌++◌, ◌<◌, length, List, any, ℕ, String, Bool, true, some, none, ◌≡◌, ◌⊎◌, refl, arith,
  [], ◌∷◌, count, map, is_some,
}
use nestjs_scaffold.Exec.{ok, err, failure, skip_message}
use nestjs_scaffold.Json.{Json}
use nestjs_scaffold.Redis.{ex}
use nestjs_scaffold.Env.{World, Action}
use nestjs_scaffold.RedisService.{set, set_with_options, delete, exists}
use nestjs_scaffold.Queue.Message.{
  no_headers, ConsumeMessage, QueueEnvelope, parse_message, envelope_of, routing_key_of,
  event_id_of, resolve_published_at, parse_maybe_json,
}
use nestjs_scaffold.Queue.Handling.{handle_message}
use nestjs_scaffold.Queue.Settlement.{
  settles, is_ack, IsRetried, IsHandled, handle_message-settles, acknowledged_lem,
}
use nestjs_scaffold.Queue.Delivery.{publish, returned, parse-publish, returned_without_id}
use nestjs_scaffold.Queue.Dlq.{
  DlqState, arrived, republished, republish_all, republish_all_lem, republish_all_endless,
}
use nestjs_scaffold.Queue.Idempotency.{
  is_processed, mark_processed, acquire_processing_lock, release_processing_lock,
}
use nestjs_scaffold.Queue.Consumer.{
  handle, dispatch, check_database, lock_and_process, process, run_handler,
  parse_user_created_payload, record_processed, save_processed,
}
use nestjs_scaffold.Queue.Deduplication.{dispatch_processed, dispatch_locked, dispatch_once}
use nestjs_scaffold.Samples.Keyspace.{in_memory_redis_laws}
use nestjs_scaffold.Samples.World.{env, start, details, anonymous}

abbrev at : String
at = "1970-01-01T00:00:00.000Z"

abbrev on_welcome : ConsumeMessage
on_welcome = record {
  content = "welcome";
  routing_key = "user.created";
  message_id = some "e1";
  headers = no_headers;
}

abbrev accepts : String → Bool
accepts name = true

abbrev fails : QueueEnvelope → Action env Unit
fails m w = (err (failure "down"), w)

handle_message-settles_example :
    count settles (handle_message env "jobs" 2 accepts on_welcome fails start).0 ≡ 1
handle_message-settles_example = handle_message-settles env "jobs" 2 accepts on_welcome fails start

welcome_acked : any is_ack (handle_message env "jobs" 2 accepts on_welcome fails start).0 ≡ true
unfolding handle_message parse_message envelope_of routing_key_of event_id_of resolve_published_at
    parse_maybe_json
welcome_acked = refl

acknowledged_example :
    IsHandled env "jobs" 2 accepts
      (parse_message env.parse_json env.string_of at on_welcome)
      fails
      start
    ⊎ IsRetried env "jobs" 2 accepts on_welcome
        (handle_message env "jobs" 2 accepts on_welcome fails start).0
acknowledged_example = acknowledged_lem env "jobs" 2 accepts on_welcome fails start welcome_acked

abbrev envelope : QueueEnvelope
envelope = record {
  event_id = "e1";
  routing_key = "user.created";
  payload = details;
  published_at = at;
}

abbrev print_welcome : Json → String
print_welcome v = "welcome"

parse-publish_example :
    (parse_message env.parse_json env.string_of "later"
        (publish print_welcome none "jobs" "e1" "user.created" details at)
      ≡ ok envelope)
    × (parse_message env.parse_json env.string_of "later" (
          returned
            (publish print_welcome none "jobs" "e1" "user.created" details at)
            "user.created"
            "jobs.retry.1")
        ≡ ok envelope)
parse-publish_example =
    parse-publish env.parse_json env.string_of print_welcome none "jobs" "e1" "user.created" "later"
      at "user.created" "jobs.retry.1" details refl refl refl refl refl

abbrev on_anonymous : ConsumeMessage
on_anonymous = record {
  content = "anonymous";
  routing_key = "user.created";
  message_id = some "e2";
  headers = no_headers;
}

returned_without_id_example :
    parse_message env.parse_json env.string_of at
      (returned on_anonymous "user.created" "jobs.retry.1")
    ≡ err (failure "Queue message is missing eventId")
returned_without_id_example =
    returned_without_id env.parse_json env.string_of on_anonymous anonymous at "user.created"
      "jobs.retry.1" refl refl refl refl refl

abbrev dead : DlqState
dead = record { dlq = on_welcome ∷ on_anonymous ∷ []; sent = [] }

abbrev nothing_arrives : ℕ → List ConsumeMessage
nothing_arrives i = []

nothing_arrived : (n : ℕ) → arrived n nothing_arrives ≡ []
nothing_arrived zero = refl
nothing_arrived (suc n) = nothing_arrived n

few_messages : (n : ℕ) → length (dead.dlq ++ arrived n nothing_arrives) < 3
few_messages n = rw (nothing_arrived n) (omega arith)

republish_all_example :
    (n : ℕ) × (republish_all env.parse_json env.string_of none 3 nothing_arrives dead ≡ (
      length (dead.dlq ++ arrived n nothing_arrives),
      record {
        dlq = [];
        sent =
            map
              (republished env.parse_json env.string_of none)
              (dead.dlq ++ arrived n nothing_arrives);
      },
    ))
republish_all_example =
    republish_all_lem env.parse_json env.string_of none 3 nothing_arrives dead few_messages

abbrev comes_back : ℕ → List ConsumeMessage
comes_back i = on_anonymous ∷ []

republish_all_endless_example :
    ((republish_all env.parse_json env.string_of none 7 comes_back dead).0 ≡ 7)
    × (length (republish_all env.parse_json env.string_of none 7 comes_back dead).1.sent ≡ 7)
republish_all_endless_example =
    republish_all_endless env.parse_json env.string_of none 7 comes_back dead (λ i. omega arith)

abbrev after : World env
after = (dispatch env (handle env) envelope start).1

dispatch_run : dispatch env (handle env) envelope start ≡ (ok tt, after)
unfolding dispatch is_processed exists check_database lock_and_process acquire_processing_lock set
    set_with_options process run_handler parse_user_created_payload record_processed save_processed
    mark_processed release_processing_lock delete
dispatch_run = refl

after_marked : is_some (env.redis.get "event:processed:user.created:e1" after.keys) ≡ true
unfolding dispatch is_processed exists check_database lock_and_process acquire_processing_lock set
    set_with_options process run_handler parse_user_created_payload record_processed save_processed
    mark_processed release_processing_lock delete
after_marked = refl

dispatch_once_example :
    (is_some (env.redis.get "event:processed:user.created:e1" after.keys) ≡ true)
    × (dispatch env (handle env) envelope after ≡ (ok tt, after))
dispatch_once_example =
    dispatch_once env in_memory_redis_laws (handle env) envelope start after dispatch_run

dispatch_processed_example : dispatch env (handle env) envelope after ≡ (ok tt, after)
dispatch_processed_example =
    dispatch_processed env in_memory_redis_laws (handle env) envelope after after_marked

abbrev busy : World env
busy = record start {
  keys = record { key = "event:processing:user.created:e1"; value = "1"; expiry = ex 300 } ∷ [];
}

dispatch_locked_example :
    ((dispatch env (handle env) envelope busy).0 ≡ err skip_message)
    × ((dispatch env (handle env) envelope busy).1.db ≡ busy.db)
    × (env.redis.get "k" (dispatch env (handle env) envelope busy).1.keys
        ≡ env.redis.get "k" busy.keys)
dispatch_locked_example =
    dispatch_locked env in_memory_redis_laws (handle env) envelope busy "k" refl refl refl
