-- ===== src/Queue/Handling.antt =====
-- `handleMessage` of src/queue/rabbitmq.service.ts: what it does with a message that is delivered.
-- `accepts name` is the reply of `sendToQueue` for the queue of that name.
use nestjs_scaffold.Base.{
  ℕ, ◌+◌, String, Bool, false, Option, none, some, List, [], ◌∷◌, ltb, truthy, or_else,
  if◌then◌else◌,
}
use nestjs_scaffold.Exec.{Error, skip_message, Result, ok, err}
use nestjs_scaffold.Env.{Env, World, Action}
use nestjs_scaffold.Queue.Topology.{retry_queue}
use nestjs_scaffold.Queue.Message.{
  Headers, ConsumeMessage, QueueEnvelope, parse_message, try_get_routing_key_from_body,
}

-- The calls on the channel. `ack` and `nack_to_dlq`, which is `nack(message, false, false)`, are for
-- the message that is being handled.
pub data ChannelCall : Type 0 where
  ack nack_to_dlq : ChannelCall
  send_to_retry : String → String → Headers → ChannelCall

-- `getRetryCount`
abbrev pub get_retry_count : ConsumeMessage → ℕ
get_retry_count raw = or_else raw.headers.retry_count 0

-- The headers of a copy for a retry.
abbrev pub retry_headers : ConsumeMessage → String → Headers
retry_headers raw routing_key = record {
  retry_count = some (get_retry_count raw + 1);
  original_routing_key = some routing_key;
  id = none;
  republish = false;
}

module _ (env : Env) (queue : String) (max_retries : ℕ) (accepts : String → Bool) where
  -- The routing key that a retry keeps, from the one that was parsed.
  abbrev pub kept_routing_key : Option String → ConsumeMessage → String
  kept_routing_key parsed raw =
      if truthy parsed
      then or_else parsed ""
      else or_else (try_get_routing_key_from_body env.parse_json env.string_of raw.content)
          raw.routing_key

  -- The handler of an error other than `SkipMessageError`.
  unfoldable pub retry_or_dead_letter : Option String → ConsumeMessage → List ChannelCall
  retry_or_dead_letter parsed raw =
      let name = retry_queue env queue (get_retry_count raw + 1) in
      if ltb (get_retry_count raw) max_retries
      then send_to_retry name raw.content (retry_headers raw (kept_routing_key parsed raw))
        ∷ (if accepts name then ack else nack_to_dlq)
        ∷ []
      else nack_to_dlq ∷ []

  unfoldable pub on_error : Error → Option String → ConsumeMessage → List ChannelCall
  unfolding retry_or_dead_letter
  on_error skip_message parsed raw = ack ∷ []
  on_error e parsed raw = retry_or_dead_letter parsed raw

  abbrev pub settled_by : Result {0} Unit → Option String → ConsumeMessage → List ChannelCall
  settled_by (ok _) parsed raw = ack ∷ []
  settled_by (err e) parsed raw = on_error e parsed raw

  -- What becomes of a message, from how it parses.
  abbrev pub handle_parsed :
      Result QueueEnvelope
      → ConsumeMessage
      → (QueueEnvelope → Action env Unit)
      → World env
      → List ChannelCall × World env
  handle_parsed (err e) raw handler w = (on_error e none raw, w)
  handle_parsed (ok message) raw handler w =
      let (r, w') = handler message w in (settled_by r (some message.routing_key) raw, w')

  unfoldable pub handle_message :
      ConsumeMessage → (QueueEnvelope → Action env Unit) → World env → List ChannelCall × World env
  unfolding on_error
  handle_message raw handler w =
      handle_parsed (parse_message env.parse_json env.string_of (env.iso_string w.now) raw) raw
        handler w
