-- ===== src/Queue/Journey.antt =====
-- A message of src/queue/rabbitmq.service.ts from its first delivery to its last: how often it comes
-- back from the retry queues.
use nestjs_scaffold.Base.{
  ℕ, zero, suc, ◌+◌, ◌≤◌, ◌<◌, String, Bool, Option, none, some, List, [], ◌∷◌, ◌≡◌, ◌⊎◌, refl, sym,
  ap, ◌∙◌, arith, ltb, or_else, Bool-cases, Option-cases, inl, inr,
}
use nestjs_scaffold.Exec.{
  conflict, forbidden, not_found, unauthorized, service_unavailable, unauthorized_code,
  known_request, failure, Error, Result, ok, err, skip_message,
}
use nestjs_scaffold.Env.{Env, World, Action}
use nestjs_scaffold.Queue.Topology.{retry_queue}
use nestjs_scaffold.Queue.Message.{Headers, ConsumeMessage, QueueEnvelope, parse_message}
use nestjs_scaffold.Queue.Handling.{
  ChannelCall, ack, nack_to_dlq, send_to_retry, get_retry_count, retry_headers, kept_routing_key,
  retry_or_dead_letter, on_error, settled_by, handle_parsed, handle_message,
}

-- The copy that the calls send to a retry queue: the queue's name and the headers.
abbrev pub copy_of : List ChannelCall → Option (String × Headers)
copy_of (send_to_retry name content headers ∷ calls) = some (name, headers)
copy_of _ = none

some_pair :
    {A B : Type 0} (a c : A) (b d : B)
    → Path (Option (A × B)) (some (a, b)) (some (c, d))
    → (a ≡ c) × (b ≡ d)
some_pair {A = A} {B = B} a c b d e =
    let same : Path (A × B) (a, b) (c, d) = cc in (ap (λ p. p.0) same, ap (λ p. p.1) same)

module _ (env : Env) (queue : String) (retries : ℕ) (accepts : String → Bool) where
  -- The deliveries of a message, as many as are given, until one sends no copy. A copy comes back
  -- under the routing key that the broker gives it, without a message id.
  unfoldable pub deliveries :
      ℕ
      → String
      → ConsumeMessage
      → (QueueEnvelope → Action env Unit)
      → World env
      → Option (List ChannelCall)
  deliveries zero delivered raw handler w = none
  deliveries (suc n) delivered raw handler w =
      let (calls, w') = handle_message env queue retries accepts raw handler w in
      elim (copy_of calls) as (λ _. Option (List ChannelCall)) [
        | none ↦ some calls
        | some (name, headers) ↦
            deliveries n delivered
              (record raw { routing_key = delivered; message_id = none; headers = headers }) handler
              w'
      ]

  on_error-cases :
      (e : Error) (parsed : Option String) (raw : ConsumeMessage)
      → (on_error env queue retries accepts e parsed raw ≡ ack ∷ [])
        ⊎ (on_error env queue retries accepts e parsed raw
            ≡ retry_or_dead_letter env queue retries accepts parsed raw)
  unfolding on_error
  on_error-cases skip_message parsed raw = inl refl
  on_error-cases (conflict m) parsed raw = inr refl
  on_error-cases (forbidden m) parsed raw = inr refl
  on_error-cases (not_found m) parsed raw = inr refl
  on_error-cases (unauthorized m) parsed raw = inr refl
  on_error-cases (service_unavailable m) parsed raw = inr refl
  on_error-cases (unauthorized_code c m) parsed raw = inr refl
  on_error-cases (known_request c) parsed raw = inr refl
  on_error-cases (failure m) parsed raw = inr refl

  -- What `handleMessage` may do: acknowledge, or retry and dead-letter.
  abbrev IsSettledBy : ConsumeMessage → List ChannelCall → Type 0
  IsSettledBy raw calls =
      (calls ≡ ack ∷ [])
      ⊎ ((parsed : Option String) × (calls
            ≡ retry_or_dead_letter env queue retries accepts parsed raw))

  error-IsSettledBy :
      (e : Error) (parsed : Option String) (raw : ConsumeMessage)
      → IsSettledBy raw (on_error env queue retries accepts e parsed raw)
  error-IsSettledBy e parsed raw = elim (on_error-cases e parsed raw) [
    | inl acked ↦ inl acked
    | inr same ↦ inr (parsed, same)
  ]

  result-IsSettledBy :
      (r : Result {0} Unit) (parsed : Option String) (raw : ConsumeMessage)
      → IsSettledBy raw (settled_by env queue retries accepts r parsed raw)
  result-IsSettledBy (ok _) parsed raw = inl refl
  result-IsSettledBy (err e) parsed raw = error-IsSettledBy e parsed raw

  parsed-IsSettledBy :
      (p : Result QueueEnvelope) (raw : ConsumeMessage) (handler : QueueEnvelope → Action env Unit)
      (w : World env)
      → IsSettledBy raw (handle_parsed env queue retries accepts p raw handler w).0
  parsed-IsSettledBy (err e) raw handler w = error-IsSettledBy e none raw
  parsed-IsSettledBy (ok message) raw handler w =
      result-IsSettledBy _ (some message.routing_key) raw

  handle_message-IsSettledBy :
      (raw : ConsumeMessage) (handler : QueueEnvelope → Action env Unit) (w : World env)
      → IsSettledBy raw (handle_message env queue retries accepts raw handler w).0
  unfolding handle_message
  handle_message-IsSettledBy raw handler w =
      parsed-IsSettledBy (parse_message env.parse_json env.string_of (env.iso_string w.now) raw) raw
        handler w

  -- A copy that is sent has one retry more, and there was one left.
  pub record IsNext (raw : ConsumeMessage) (name : String) (headers : Headers) : Type 0 where
    pub next : name ≡ retry_queue env queue (get_retry_count raw + 1)
    pub counted : headers.retry_count ≡ some (get_retry_count raw + 1)
    pub more : get_retry_count raw < retries

  retry-IsNext :
      (parsed : Option String) (raw : ConsumeMessage) (name : String) (headers : Headers)
      → copy_of (retry_or_dead_letter env queue retries accepts parsed raw) ≡ some (name, headers)
      → IsNext raw name headers
  unfolding retry_or_dead_letter
  retry-IsNext parsed raw name headers e = elim (Bool-cases (ltb (get_retry_count raw) retries)) [
    | inl more ↦
        let same : Path (Option (String × Headers))
            (some (
              retry_queue env queue (get_retry_count raw + 1),
              retry_headers raw (kept_routing_key env queue retries accepts parsed raw),
            ))
            (some (name, headers)) =
          rw more at e in
        let (first, second) = some_pair _ _ _ _ same in
        record {
          next = sym first;
          counted = ap (λ (h : Headers). h.retry_count) (sym second);
          more = ground arith;
        }
    | inr over ↦
        let nothing : Path (Option (String × Headers)) none (some (name, headers)) = rw over at e in
        cc
  ]

  pub handle_message-IsNext :
      (raw : ConsumeMessage) (handler : QueueEnvelope → Action env Unit) (w : World env)
      (name : String) (headers : Headers)
      → copy_of (handle_message env queue retries accepts raw handler w).0 ≡ some (name, headers)
      → IsNext raw name headers
  handle_message-IsNext raw handler w name headers e =
      elim (handle_message-IsSettledBy raw handler w) [
        | inl acked ↦
            let nothing : Path (Option (String × Headers)) none (some (name, headers)) =
              sym (ap copy_of acked) ∙ e in
            cc
        | inr (parsed, same) ↦ retry-IsNext parsed raw name headers (sym (ap copy_of same) ∙ e)
      ]

  -- The copy as it comes back.
  abbrev come_back : String → ConsumeMessage → Headers → ConsumeMessage
  come_back delivered raw headers = record raw {
    routing_key = delivered;
    message_id = none;
    headers = headers;
  }

  last_delivery :
      (n : ℕ) (delivered : String) (raw : ConsumeMessage)
      (handler : QueueEnvelope → Action env Unit) (w : World env)
      → copy_of (handle_message env queue retries accepts raw handler w).0 ≡ none
      → deliveries (suc n) delivered raw handler w
        ≡ some (handle_message env queue retries accepts raw handler w).0
  unfolding deliveries
  last_delivery n delivered raw handler w over = rw (deliveries, over) refl

  next_delivery :
      (n : ℕ) (delivered : String) (raw : ConsumeMessage)
      (handler : QueueEnvelope → Action env Unit) (w : World env) (name : String)
      (headers : Headers)
      → copy_of (handle_message env queue retries accepts raw handler w).0 ≡ some (name, headers)
      → deliveries (suc n) delivered raw handler w
        ≡ deliveries n delivered
            (come_back delivered raw headers)
            handler
            (handle_message env queue retries accepts raw handler w).1
  unfolding deliveries
  next_delivery n delivered raw handler w name headers sent = rw (deliveries, sent) refl

  -- Calls without a copy settle the message for good.
  settled_for_good :
      (raw : ConsumeMessage) (calls : List ChannelCall)
      → IsSettledBy raw calls
      → copy_of calls ≡ none
      → (calls ≡ ack ∷ []) ⊎ (calls ≡ nack_to_dlq ∷ [])
  unfolding retry_or_dead_letter
  settled_for_good raw calls (inl acked) over = inl acked
  settled_for_good raw calls (inr (parsed, same)) over =
      elim (Bool-cases (ltb (get_retry_count raw) retries)) [
        | inl more ↦
            let copied : Path (Option (String × Headers))
                (some (
                  retry_queue env queue (get_retry_count raw + 1),
                  retry_headers raw (kept_routing_key env queue retries accepts parsed raw),
                ))
                none =
              rw more at (sym (ap copy_of same) ∙ over) in
            cc
        | inr spent ↦ inr (same ∙ rw spent refl)
      ]

  -- Whatever the handler does and whatever the broker replies, the deliveries of a message come to
  -- an end, after one more than it has retries left at most: in the last, the message is acknowledged
  -- or goes to the dead letter queue, and that is all that is done with it.
  pub deliveries_end :
      (n : ℕ) (delivered : String) (raw : ConsumeMessage)
      (handler : QueueEnvelope → Action env Unit) (w : World env)
      → retries ≤ get_retry_count raw + n
      → (calls : List ChannelCall) × (deliveries (suc n) delivered raw handler w ≡ some calls)
        × ((calls ≡ ack ∷ []) ⊎ (calls ≡ nack_to_dlq ∷ []))
  deliveries_end zero delivered raw handler w enough =
      let calls = (handle_message env queue retries accepts raw handler w).0 in
      elim (Option-cases (copy_of calls)) [
        | inl over ↦ (
          calls,
          last_delivery 0 delivered raw handler w over,
          settled_for_good raw calls (handle_message-IsSettledBy raw handler w) over,
        )
        | inr ((name, headers), sent) ↦
            absurd
              (omega (arith, enough, (handle_message-IsNext raw handler w name headers sent).more))
      ]
  deliveries_end (suc n) delivered raw handler w enough =
      let (calls, w') = handle_message env queue retries accepts raw handler w in
      elim (Option-cases (copy_of calls)) [
        | inl over ↦ (
          calls,
          last_delivery (suc n) delivered raw handler w over,
          settled_for_good raw calls (handle_message-IsSettledBy raw handler w) over,
        )
        | inr ((name, headers), sent) ↦
            let next = handle_message-IsNext raw handler w name headers sent in
            let (last, done, over) =
              deliveries_end n delivered (come_back delivered raw headers) handler w'
                (omega (arith, enough, ap (λ o. or_else o 0) next.counted)) in
            (last, next_delivery (suc n) delivered raw handler w name headers sent ∙ done, over)
      ]
