-- ===== src/Queue/Message.antt =====
-- How src/queue/rabbitmq.service.ts reads a message.
use nestjs_scaffold.Base.{
  true, eqb, ◌==◌, ℕ, String, Bool, false, Option, none, some, not, or_else, if◌then◌else◌,
}
use nestjs_scaffold.Exec.{Result, ok, err, failure}
use nestjs_scaffold.Json.{Json, null, bool, num, str, arr, obj, prop, opt_prop, text_of, is_object}

-- The headers that the code reads or writes; `id` is there only if it is a text.
pub record Headers : Type 0 where
  pub retry_count : Option ℕ
  pub original_routing_key : Option String
  pub id : Option String
  pub republish : Bool

abbrev pub no_headers : Headers
no_headers = record {
  retry_count = none;
  original_routing_key = none;
  id = none;
  republish = false;
}

pub record ConsumeMessage : Type 0 where
  pub content : String
  -- `fields.routingKey`
  pub routing_key : String
  -- `properties.messageId`
  pub message_id : Option String
  -- `properties.headers`, empty where there are none
  pub headers : Headers

pub record QueueEnvelope : Type 0 where
  pub event_id : String
  pub routing_key : String
  pub payload : Json
  pub published_at : String

-- `?? payload`: null counts as missing
abbrev pub unless_null : Option Json → Json → Json
unless_null none d = d
unless_null (some null) d = d
unless_null (some (bool b)) d = bool b
unless_null (some (num n)) d = num n
unless_null (some (str s)) d = str s
unless_null (some (arr xs)) d = arr xs
unless_null (some (obj fs)) d = obj fs

module _ (parse_json : String → Option Json) where
  -- `parseJSON` of src/common/utils/utils.ts, with no fallback
  unfoldable pub parse_maybe_json : Option Json → Option Json
  parse_maybe_json (some (obj fs)) = some (obj fs)
  parse_maybe_json (some (arr xs)) = some (arr xs)
  parse_maybe_json (some (str s)) = parse_json s
  parse_maybe_json _ = none

  -- What the id header's text holds: the `payload` of its JSON, or else the text itself.
  abbrev pub header_payload : String → Option Json → Option Json
  header_payload value none = some (str value)
  header_payload value (some null) = some (str value)
  header_payload value (some v) = prop "payload" v

  unfoldable pub parse_id_from_debezium_header : Option String → Option Json
  parse_id_from_debezium_header none = none
  parse_id_from_debezium_header (some value) = header_payload value (parse_json value)

-- Whether JavaScript takes a value for true.
abbrev pub is_set : Option Json → Bool
is_set none = false
is_set (some null) = false
is_set (some (bool b)) = b
is_set (some (num n)) = not (eqb n 0)
is_set (some (str s)) = not (s == "")
is_set (some (arr xs)) = true
is_set (some (obj fs)) = true

-- `a || b` of values
abbrev pub or_value : Option Json → Option Json → Option Json
or_value a b = if is_set a then a else b

abbrev pub value_of : Option String → Option Json
value_of none = none
value_of (some s) = some (str s)

unfoldable pub resolve_published_at : String → Json → Option Json → String
resolve_published_at now parsed payload =
    or_else (text_of (prop "publishedAt" parsed))
      (or_else (text_of (opt_prop "publishedAt" payload)) now)

unfoldable pub routing_key_of : ConsumeMessage → Json → Option Json
routing_key_of raw parsed = or_value (value_of (text_of (prop "routingKey" parsed))) (
    or_value (value_of raw.headers.original_routing_key)
      (or_value (some (str raw.routing_key)) (opt_prop "routingKey" (prop "payload" parsed))))

module _ (parse_json : String → Option Json) (string_of : Json → String) where
  -- The text that a template or a key makes of a value.
  abbrev pub as_text : Json → String
  as_text (str s) = s
  as_text v = string_of v

  unfoldable pub event_id_of : ConsumeMessage → Json → Option Json
  unfolding parse_id_from_debezium_header
  event_id_of raw parsed = or_value (value_of raw.message_id) (
      or_value (prop "id" parsed) (
        or_value (opt_prop "id" (prop "payload" parsed))
          (parse_id_from_debezium_header parse_json raw.headers.id)))

  -- `parseMessage` on the value of its content; an id or a key that is no text becomes one.
  unfoldable pub envelope_of : String → ConsumeMessage → Json → Result QueueEnvelope
  unfolding routing_key_of event_id_of resolve_published_at parse_maybe_json
  envelope_of now raw parsed =
      let payload = prop "payload" parsed in
      if not (is_set (routing_key_of raw parsed))
      then err (failure "Queue message is missing routingKey")
      else if not (is_set (event_id_of raw parsed))
      then err (failure "Queue message is missing eventId")
      else if not (is_object payload)
      then err (failure "Queue message is missing payload or invalid")
      else ok (record {
        event_id = as_text (or_else (event_id_of raw parsed) null);
        routing_key = as_text (or_else (routing_key_of raw parsed) null);
        payload =
            unless_null (parse_maybe_json parse_json (opt_prop "payload" payload))
              (or_else payload null);
        published_at = resolve_published_at now parsed payload;
      })

  abbrev pub parse_value : String → ConsumeMessage → Option Json → Result QueueEnvelope
  parse_value now raw none = err (failure "SyntaxError")
  parse_value now raw (some null) = err (failure "TypeError")
  parse_value now raw (some parsed) = envelope_of now raw parsed

  unfoldable pub parse_message : String → ConsumeMessage → Result QueueEnvelope
  unfolding envelope_of
  parse_message now raw = parse_value now raw (parse_json raw.content)

  abbrev pub body_routing_key : Option Json → Option String
  body_routing_key none = none
  body_routing_key (some parsed) =
      let key =
        or_value (prop "routingKey" parsed) (opt_prop "routingKey" (prop "payload" parsed)) in
      if is_set key then some (as_text (or_else key null)) else none

  -- `tryGetRoutingKeyFromBody`: a body that is null throws inside its `try`, which gives none too
  unfoldable pub try_get_routing_key_from_body : String → Option String
  try_get_routing_key_from_body content = body_routing_key (parse_json content)
