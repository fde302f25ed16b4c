-- ===== src/Queue/Settlement.antt =====
-- Every message that `handleMessage` (src/queue/rabbitmq.service.ts) is given is settled once, and
-- none is acknowledged before it is dealt with.
use nestjs_scaffold.Base.{
  any, ap, ◌≢◌, ℕ, ◌+◌, ◌<◌, String, Bool, true, false, Option, none, some, List, [], ◌∷◌, ◌≡◌, ◌⊎◌,
  inl, inr, refl, arith, count, ltb, Bool-cases,
}
use nestjs_scaffold.Exec.{
  conflict, forbidden, not_found, unauthorized, service_unavailable, unauthorized_code,
  known_request, failure, Error, Result, ok, err, skip_message,
}
use nestjs_scaffold.Json.{Json, null, bool, num, str, arr, obj, prop, is_object}
use nestjs_scaffold.Env.{Env, World, Action}
use nestjs_scaffold.Queue.Topology.{retry_queue}
use nestjs_scaffold.Queue.Message.{
  is_set, ConsumeMessage, QueueEnvelope, parse_message, parse_value, envelope_of, routing_key_of,
  event_id_of,
}
use nestjs_scaffold.Queue.Handling.{
  ChannelCall, ack, nack_to_dlq, send_to_retry, get_retry_count, retry_headers, kept_routing_key,
  retry_or_dead_letter, on_error, settled_by, handle_parsed, handle_message,
}

abbrev pub settles : ChannelCall → Bool
settles ack = true
settles nack_to_dlq = true
settles (send_to_retry n content headers) = false

abbrev pub is_ack : ChannelCall → Bool
is_ack ack = true
is_ack nack_to_dlq = false
is_ack (send_to_retry n content headers) = false

-- What an error leads to, with the retries and the replies that are configured.
module _ (env : Env) (queue : String) (max_retries : ℕ) (accepts : String → Bool) where
  retry_settles :
      (parsed : Option String) (raw : ConsumeMessage)
      → count settles (retry_or_dead_letter env queue max_retries accepts parsed raw) ≡ 1
  unfolding retry_or_dead_letter
  retry_settles parsed raw = ground arith

  error_settles :
      (e : Error) (parsed : Option String) (raw : ConsumeMessage)
      → count settles (on_error env queue max_retries accepts e parsed raw) ≡ 1
  unfolding on_error retry_or_dead_letter
  error_settles e parsed raw = ground arith

  result_settles :
      (r : Result {0} Unit) (parsed : Option String) (raw : ConsumeMessage)
      → count settles (settled_by env queue max_retries accepts r parsed raw) ≡ 1
  result_settles (ok _) parsed raw = refl
  result_settles (err e) parsed raw = error_settles e parsed raw

  parsed_settles :
      (p : Result QueueEnvelope) (raw : ConsumeMessage) (handler : QueueEnvelope → Action env Unit)
      (w : World env)
      → count settles (handle_parsed env queue max_retries accepts p raw handler w).0 ≡ 1
  parsed_settles (err e) raw handler w = error_settles e none raw
  parsed_settles (ok message) raw handler w = result_settles _ (some message.routing_key) raw

  -- However a message parses and whatever its handler does, the message is settled exactly once: it
  -- is acknowledged or goes to the dead letter queue.
  pub handle_message-settles :
      (raw : ConsumeMessage) (handler : QueueEnvelope → Action env Unit) (w : World env)
      → count settles (handle_message env queue max_retries accepts raw handler w).0 ≡ 1
  unfolding handle_message
  handle_message-settles raw handler w =
      parsed_settles (parse_message env.parse_json env.string_of (env.iso_string w.now) raw) raw
        handler w

  -- A copy of the message has been taken by the next retry queue, and only then is it acknowledged.
  abbrev pub IsRetried : ConsumeMessage → List ChannelCall → Type 0
  IsRetried raw calls =
      (routing_key : String) × (calls
        ≡ send_to_retry (retry_queue env queue (get_retry_count raw + 1)) raw.content
            (retry_headers raw routing_key)
          ∷ ack
          ∷ [])
      × (accepts (retry_queue env queue (get_retry_count raw + 1)) ≡ true)
      × (get_retry_count raw < max_retries)

  -- The message has been handled, or its handler has asked to skip it.
  abbrev pub IsHandled :
      Result QueueEnvelope → (QueueEnvelope → Action env Unit) → World env → Type 0
  IsHandled p handler w =
      (message : QueueEnvelope) × (p ≡ ok message)
      × (((handler message w).0 ≡ ok tt) ⊎ ((handler message w).0 ≡ err skip_message))

  retry_ack :
      (parsed : Option String) (raw : ConsumeMessage)
      → any is_ack (retry_or_dead_letter env queue max_retries accepts parsed raw) ≡ true
      → IsRetried raw (retry_or_dead_letter env queue max_retries accepts parsed raw)
  unfolding retry_or_dead_letter
  retry_ack parsed raw acked = elim (Bool-cases (ltb (get_retry_count raw) max_retries)) [
    | inl more ↦ elim (Bool-cases (accepts (retry_queue env queue (get_retry_count raw + 1)))) [
      | inl taken ↦ (
        kept_routing_key env queue max_retries accepts parsed raw,
        rw (more, taken) refl,
        taken,
        ground arith,
      )
      | inr refused ↦ absurd (ground arith)
    ]
    | inr over ↦ absurd (ground arith)
  ]

  error_ack :
      (e : Error) (parsed : Option String) (raw : ConsumeMessage)
      → any is_ack (on_error env queue max_retries accepts e parsed raw) ≡ true
      → (e ≡ skip_message) ⊎ IsRetried raw (on_error env queue max_retries accepts e parsed raw)
  unfolding on_error
  error_ack skip_message parsed raw acked = inl refl
  error_ack (conflict m) parsed raw acked = inr (retry_ack parsed raw acked)
  error_ack (forbidden m) parsed raw acked = inr (retry_ack parsed raw acked)
  error_ack (not_found m) parsed raw acked = inr (retry_ack parsed raw acked)
  error_ack (unauthorized m) parsed raw acked = inr (retry_ack parsed raw acked)
  error_ack (service_unavailable m) parsed raw acked = inr (retry_ack parsed raw acked)
  error_ack (unauthorized_code c m) parsed raw acked = inr (retry_ack parsed raw acked)
  error_ack (known_request c) parsed raw acked = inr (retry_ack parsed raw acked)
  error_ack (failure m) parsed raw acked = inr (retry_ack parsed raw acked)

  result_ack :
      (r : Result {0} Unit) (parsed : Option String) (raw : ConsumeMessage)
      → any is_ack (settled_by env queue max_retries accepts r parsed raw) ≡ true
      → ((r ≡ ok tt) ⊎ (r ≡ err skip_message))
        ⊎ IsRetried raw (settled_by env queue max_retries accepts r parsed raw)
  result_ack (ok tt) parsed raw acked = inl (inl refl)
  result_ack (err e) parsed raw acked = elim (error_ack e parsed raw acked) [
    | inl skipped ↦ inl (inr (ap err skipped))
    | inr retried ↦ inr retried
  ]

  parsed_ack :
      (p : Result QueueEnvelope) (raw : ConsumeMessage) (handler : QueueEnvelope → Action env Unit)
      (w : World env)
      → p ≢ err skip_message
      → any is_ack (handle_parsed env queue max_retries accepts p raw handler w).0 ≡ true
      → IsHandled p handler w
        ⊎ IsRetried raw (handle_parsed env queue max_retries accepts p raw handler w).0
  parsed_ack (err e) raw handler w parses acked = elim (error_ack e none raw acked) [
    | inl skipped ↦ absurd (parses (ap err skipped))
    | inr retried ↦ inr retried
  ]
  parsed_ack (ok message) raw handler w parses acked =
      elim (result_ack (handler message w).0 (some message.routing_key) raw acked) [
        | inl done ↦ inl (message, refl, done)
        | inr retried ↦ inr retried
      ]

  failure_ne :
      (text : String) → Path (Result QueueEnvelope) (err (failure text)) (err skip_message) → ⊥
  failure_ne text h = cc

  ok_ne : (m : QueueEnvelope) → Path (Result QueueEnvelope) (ok m) (err skip_message) → ⊥
  ok_ne m h = cc

  envelope_no_skip :
      (now : String) (raw : ConsumeMessage) (parsed : Json)
      → envelope_of env.parse_json env.string_of now raw parsed ≢ err skip_message
  unfolding envelope_of
  envelope_no_skip now raw parsed h = elim (Bool-cases (is_set (routing_key_of raw parsed))) [
    | inr lost ↦ failure_ne _ (rw lost at h)
    | inl key ↦ elim (Bool-cases (is_set (event_id_of env.parse_json env.string_of raw parsed))) [
      | inr lost ↦ failure_ne _ (rw (key, lost) at h)
      | inl event ↦ elim (Bool-cases (is_object (prop "payload" parsed))) [
        | inr lost ↦ failure_ne _ (rw (key, event, lost) at h)
        | inl payload ↦ ok_ne _ (rw (key, event, payload) at h)
      ]
    ]
  ]

  value_no_skip :
      (now : String) (raw : ConsumeMessage) (v : Option Json)
      → parse_value env.parse_json env.string_of now raw v ≢ err skip_message
  value_no_skip now raw none = failure_ne _
  value_no_skip now raw (some null) = failure_ne _
  value_no_skip now raw (some (bool b)) = envelope_no_skip now raw (bool b)
  value_no_skip now raw (some (num n)) = envelope_no_skip now raw (num n)
  value_no_skip now raw (some (str t)) = envelope_no_skip now raw (str t)
  value_no_skip now raw (some (arr xs)) = envelope_no_skip now raw (arr xs)
  value_no_skip now raw (some (obj fs)) = envelope_no_skip now raw (obj fs)

  parse_no_skip :
      (now : String) (raw : ConsumeMessage)
      → parse_message env.parse_json env.string_of now raw ≢ err skip_message
  unfolding parse_message
  parse_no_skip now raw = value_no_skip now raw (env.parse_json raw.content)

  -- When a message is acknowledged, its handler has returned or has asked to skip it,
  -- or the next retry queue has taken a copy of its content while retries were left.
  pub acknowledged_lem :
      (raw : ConsumeMessage) (handler : QueueEnvelope → Action env Unit) (w : World env)
      → any is_ack (handle_message env queue max_retries accepts raw handler w).0 ≡ true
      → IsHandled (parse_message env.parse_json env.string_of (env.iso_string w.now) raw) handler w
        ⊎ IsRetried raw (handle_message env queue max_retries accepts raw handler w).0
  unfolding handle_message
  acknowledged_lem raw handler w acked =
      parsed_ack (parse_message env.parse_json env.string_of (env.iso_string w.now) raw) raw handler
        w (parse_no_skip (env.iso_string w.now) raw) acked
