-- ===== src/Queue/Delivery.antt =====
-- Messages that `publish` (src/queue/rabbitmq.service.ts) writes, and what is left of a message when
-- it comes back from a retry queue.
use mathlib.Core.Bool.{false≢true}
use nestjs_scaffold.Base.{
  is_some, if◌then◌else◌, String, true, false, Option, none, some, ◌≡◌, refl, ◌⊎◌, inl, inr, arith,
  truthy, ◌∙◌,
}
use nestjs_scaffold.Exec.{ok, err, failure}
use nestjs_scaffold.Json.{
  Json, null, bool, num, arr, str, obj, end, field, prop, opt_prop, is_object,
}
use nestjs_scaffold.Queue.Message.{
  is_set, no_headers, ConsumeMessage, QueueEnvelope, parse_maybe_json, routing_key_of, event_id_of,
  resolve_published_at, envelope_of, parse_value, parse_id_from_debezium_header, parse_message,
}
use nestjs_scaffold.Queue.Handling.{retry_headers}

-- The body of a message: `{ id, routingKey, payload, publishedAt }`.
abbrev pub published_body : String → String → Json → String → Json
published_body event_id routing_key payload now = obj (
    field "id" (str event_id) (
      field "routingKey" (str routing_key)
        (field "payload" payload (field "publishedAt" (str now) end))))

-- `publish`, as the message that a queue receives: by the exchange under the routing key, or, where
-- none is configured, by the default exchange under the queue's name. The id is a new `randomUUID()`.
unfoldable pub publish :
    (Json → String) → Option String → String → String → String → Json → String → ConsumeMessage
publish print_json exchange queue event_id routing_key payload now = record {
  content = print_json (published_body event_id routing_key payload now);
  routing_key = if is_some exchange then routing_key else queue;
  message_id = some event_id;
  headers = no_headers;
}

-- The copy of a message that comes back from a retry queue, under the routing key that the broker
-- gives it: it has the content and the headers that `handleMessage` has sent, and no message id.
abbrev pub returned : ConsumeMessage → String → String → ConsumeMessage
returned raw kept delivered = record {
  content = raw.content;
  routing_key = delivered;
  message_id = none;
  headers = retry_headers raw kept;
}

module _ (parse_json : String → Option Json) (string_of : Json → String) where
  parse_published :
      (raw : ConsumeMessage) (event_id routing_key now at : String) (payload : Json)
      → parse_json raw.content ≡ some (published_body event_id routing_key payload at)
      → truthy (some event_id) ≡ true
      → truthy (some routing_key) ≡ true
      → is_object (some payload) ≡ true
      → prop "payload" payload ≡ none
      → (raw.message_id ≡ some event_id) ⊎ (raw.message_id ≡ none)
      → parse_message parse_json string_of now raw
        ≡ ok (record {
          event_id = event_id;
          routing_key = routing_key;
          payload = payload;
          published_at = at;
        })
  unfolding parse_message envelope_of routing_key_of event_id_of resolve_published_at
      parse_maybe_json
  parse_published raw e k now at p body he hk hp flat (inl id) =
      rw (body, id, he, hk, hp, flat) (ground arith)
  parse_published raw e k now at p body he hk hp flat (inr id) =
      rw (body, id, he, hk, hp, flat) (ground arith)

  -- What is published is what a consumer parses, with an exchange and without, at the first delivery
  -- and when it comes back from a retry queue, whatever key it kept and comes back under; given that the body can be read back, the texts are
  -- not empty, and the payload is an object with no payload of its own.
  pub parse-publish :
      (print_json : Json → String) (exchange : Option String)
      (queue event_id routing_key now at kept delivered : String) (payload : Json)
      → parse_json (print_json (published_body event_id routing_key payload at))
        ≡ some (published_body event_id routing_key payload at)
      → truthy (some event_id) ≡ true
      → truthy (some routing_key) ≡ true
      → is_object (some payload) ≡ true
      → prop "payload" payload ≡ none
      → let raw = publish print_json exchange queue event_id routing_key payload at in
        let message : QueueEnvelope = record {
          event_id = event_id;
          routing_key = routing_key;
          payload = payload;
          published_at = at;
        } in
        (parse_message parse_json string_of now raw ≡ ok message)
        × (parse_message parse_json string_of now (returned raw kept delivered) ≡ ok message)
  unfolding publish
  parse-publish print_json exchange queue e k now at kept delivered p reads he hk hp flat = (
    parse_published (publish print_json exchange queue e k p at) e k now at p reads he hk hp flat
        (inl refl),
    parse_published (returned (publish print_json exchange queue e k p at) kept delivered) e k now
        at p reads he hk hp flat (inr refl),
  )

  object_value :
      (now : String) (raw : ConsumeMessage) (body : Json)
      → is_object (some body) ≡ true
      → parse_value parse_json string_of now raw (some body)
        ≡ envelope_of parse_json string_of now raw body
  object_value now raw null h = absurd (false≢true h)
  object_value now raw (bool b) h = refl
  object_value now raw (num n) h = refl
  object_value now raw (str s) h = refl
  object_value now raw (arr xs) h = refl
  object_value now raw (obj fs) h = refl

  key_there :
      (raw : ConsumeMessage) (body : Json) (kept delivered : String)
      → truthy (some kept) ≡ true
      → is_set (routing_key_of (returned raw kept delivered) body) ≡ true
  unfolding routing_key_of
  key_there raw body kept delivered key = ground arith

  id_lost :
      (raw : ConsumeMessage) (body : Json) (kept delivered : String)
      → is_set (prop "id" body) ≡ false
      → is_set (opt_prop "id" (prop "payload" body)) ≡ false
      → is_set (event_id_of parse_json string_of (returned raw kept delivered) body) ≡ false
  unfolding event_id_of parse_id_from_debezium_header
  id_lost raw body kept delivered id inner = ground arith

  -- A message whose body has no event id, neither as its id nor in its payload, loses it with the
  -- first retry: whatever its message id and its id header were, the copy is refused as one without
  -- an event id. A value that JavaScript takes for false counts as none.
  pub returned_without_id :
      (raw : ConsumeMessage) (body : Json) (now kept delivered : String)
      → parse_json raw.content ≡ some body
      → is_object (some body) ≡ true
      → truthy (some kept) ≡ true
      → is_set (prop "id" body) ≡ false
      → is_set (opt_prop "id" (prop "payload" body)) ≡ false
      → parse_message parse_json string_of now (returned raw kept delivered)
        ≡ err (failure "Queue message is missing eventId")
  unfolding parse_message envelope_of
  returned_without_id raw body now kept delivered reads object key id inner = rw reads (
      object_value now (returned raw kept delivered) body object
      ∙ rw (key_there raw body kept delivered key, id_lost raw body kept delivered id inner) refl)
