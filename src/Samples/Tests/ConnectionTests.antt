-- ===== src/Samples/Tests/ConnectionTests.antt =====
-- The connection, the topology and the retries of src/queue at sample messages.
use mathlib.Core.List.{Memᴰ}
use nestjs_scaffold.Base.{
  String, ◌⊎◌, [], ◌∷◌, any, Bool, true, false, some, none, List, ◌≡◌, refl, arith,
}
use nestjs_scaffold.Exec.{err, failure}
use nestjs_scaffold.Env.{Action}
use nestjs_scaffold.Queue.Message.{
  no_headers, ConsumeMessage, QueueEnvelope, parse_message, envelope_of, routing_key_of,
  event_id_of, resolve_published_at, parse_maybe_json,
}
use nestjs_scaffold.Queue.Handling.{
  ChannelCall, ack, nack_to_dlq, handle_message, retry_headers, on_error, retry_or_dead_letter,
}
use nestjs_scaffold.Queue.Connection.{
  Rabbitmq, on_close, on_channel_error, schedule_reconnect, reconnect_failed, bootstrapped, Step,
  Reaches,
}
use nestjs_scaffold.Queue.Reconnection.{RunsAlone, pending, reconnects, failed_twice}
use nestjs_scaffold.Queue.Backoff.{is_out_of_bounds, delays_bounded}
use nestjs_scaffold.Queue.Topology.{assert_queue, max_retries, setup_topology}
use nestjs_scaffold.Queue.Journey.{copy_of, deliveries, deliveries_end}
use nestjs_scaffold.Queue.Declared.{IsDeclared, copies-IsDeclared}
use nestjs_scaffold.Samples.World.{env, start}

abbrev message : ConsumeMessage
message = record {
  content = "welcome";
  routing_key = "user.created";
  message_id = some "e1";
  headers = no_headers;
}

abbrev all_taken : String → Bool
all_taken name = true

abbrev always_fails : QueueEnvelope → Action env Unit
always_fails m w = (err (failure "down"), w)

deliveries_end_example :
    (calls : List ChannelCall) × (deliveries env "events" 2 all_taken 3 "events" message
        always_fails start
      ≡ some calls)
    × ((calls ≡ ack ∷ []) ⊎ (calls ≡ nack_to_dlq ∷ []))
deliveries_end_example =
    deliveries_end env "events" 2 all_taken 2 "events" message always_fails start (omega arith)

first_copy :
    copy_of (handle_message env "events" (max_retries env) all_taken message always_fails start).0
    ≡ some ("events.retry.1", retry_headers message "user.created")
unfolding handle_message on_error retry_or_dead_letter parse_message envelope_of routing_key_of
    event_id_of resolve_published_at parse_maybe_json
first_copy = refl

copies-IsDeclared_example :
    IsDeclared env "events" "events.retry.1" (some 5000) "" (some "events")
    × IsDeclared env "events" "events" none "" (some "events.dlq")
    × Memᴰ
        (assert_queue "events.dlq" (record {
          message_ttl = none;
          dead_letter_exchange = none;
          dead_letter_routing_key = none;
        }))
        (setup_topology env "events")
copies-IsDeclared_example =
    copies-IsDeclared env "events" all_taken message always_fails start "events.retry.1"
      (retry_headers message "user.created") first_copy

abbrev lost : Rabbitmq
lost = on_close bootstrapped

lost_run : Reaches bootstrapped lost
lost_run =
    Reaches.then_step bootstrapped bootstrapped lost (Reaches.here bootstrapped)
      (Step.closed bootstrapped)

delays_bounded_example : any is_out_of_bounds lost.timers ≡ false
delays_bounded_example = delays_bounded lost lost_run

still_up : lost.is_shutting_down ≡ false
unfolding on_close schedule_reconnect
still_up = refl

no_channel : lost.has_channel ≡ false
unfolding on_close schedule_reconnect
no_channel = refl

reconnects_example :
    (t : Rabbitmq) × RunsAlone lost t × (t.has_channel ≡ true) × (t.is_reconnecting ≡ false)
reconnects_example = reconnects lost lost_run still_up no_channel

failed_twice_example :
    let failed = reconnect_failed false false bootstrapped in
    (failed.is_reconnecting ≡ false)
    × (pending failed ≡ 1)
    × (pending (on_channel_error failed) ≡ 2)
failed_twice_example = failed_twice bootstrapped false false refl
