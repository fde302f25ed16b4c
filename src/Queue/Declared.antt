-- ===== src/Queue/Declared.antt =====
-- The queues that src/queue/rabbitmq.service.ts declares and those that it sends to.
use mathlib.Core.List.{Memᴰ}
use mathlib.Core.List.Memᴰ.{append_left, append_right}
use nestjs_scaffold.Base.{
  or_else, ◌<>◌, sym, subst, ℕ, zero, suc, ◌+◌, ◌*◌, ◌^◌, ◌≤◌, ◌<◌, String, Bool, Option, none,
  some, ◌∷◌, ◌++◌, ◌≡◌, refl, ap, arith, eqb, Bool-cases, inl, inr,
}
use nestjs_scaffold.Env.{Env, World, Action}
use nestjs_scaffold.Queue.Message.{Headers, ConsumeMessage, QueueEnvelope}
use nestjs_scaffold.Queue.Handling.{get_retry_count, handle_message}
use nestjs_scaffold.Queue.Topology.{
  QueueOptions, exchange, returning, assert_queue, max_retries, retry_queue, retry_options,
  retry_queues, main_options, setup_topology, declared_exchange, queue_binding, prefetched,
}
use nestjs_scaffold.Queue.Journey.{copy_of, handle_message-IsNext}

module _ (env : Env) (queue : String) where
  message_ttl-returning :
      (e : Option String) (level : ℕ)
      → (returning env queue e level).message_ttl ≡ some (5 ^ level * 1000)
  message_ttl-returning none level = refl
  message_ttl-returning (some e) level = refl

  level-declared :
      (left i level : ℕ)
      → i ≤ level
      → level < i + left
      → Memᴰ
          (assert_queue (retry_queue env queue level) (retry_options env queue level))
          (retry_queues env queue left i)
  unfolding retry_queues
  level-declared zero i level low high = absurd (omega arith)
  level-declared (suc left) i level low high = elim (Bool-cases (eqb level i)) [
    | inl same ↦ Memᴰ.head (
        ap (λ n. assert_queue (retry_queue env queue n) (retry_options env queue n)) (ground arith))
    | inr other ↦ Memᴰ.tail (level-declared left (i + 1) level (ground arith) (omega arith))
  ]

  retry_queue-declared :
      (level : ℕ)
      → 1 ≤ level
      → level ≤ max_retries env
      → Memᴰ
          (assert_queue (retry_queue env queue level) (retry_options env queue level))
          (setup_topology env queue)
  unfolding setup_topology
  retry_queue-declared level low high = append_right (declared_exchange env queue) (
      Memᴰ.tail (
        append_left
          (assert_queue queue (main_options env queue)
            ∷ (queue_binding env queue ++ prefetched env queue))
          (level-declared (max_retries env) 1 level low (omega arith))))

  -- The way out of a retry queue, on the exchange that is configured.
  returning-dead_letter :
      (e : Option String) (level : ℕ)
      → ((returning env queue e level).dead_letter_exchange ≡ some (or_else e ""))
        × ((returning env queue e level).dead_letter_routing_key
            ≡ (elim e [ none ↦ some queue | some _ ↦ none ]))
  returning-dead_letter none level = (refl, refl)
  returning-dead_letter (some e) level = (refl, refl)

  -- What a queue is declared with, for a message that is to leave it after a time, if one is set, to
  -- an exchange, under a key, if one is set.
  abbrev pub IsDeclared : String → Option ℕ → String → Option String → Type 0
  IsDeclared name time to key =
      Memᴰ
        (assert_queue name (record {
          message_ttl = time;
          dead_letter_exchange = some to;
          dead_letter_routing_key = key;
        }))
        (setup_topology env queue)

  options-eta :
      (o : QueueOptions) (time : Option ℕ) (to : String) (key : Option String)
      → o.message_ttl ≡ time
      → o.dead_letter_exchange ≡ some to
      → o.dead_letter_routing_key ≡ key
      → Path QueueOptions o (record {
        message_ttl = time;
        dead_letter_exchange = some to;
        dead_letter_routing_key = key;
      })
  options-eta o time to key a b c i = record {
    message_ttl = a i;
    dead_letter_exchange = b i;
    dead_letter_routing_key = c i;
  }

  -- Where `setupTopology` has run, the retry queue that `handleMessage` sends a copy to is declared
  -- under that very name: it holds a message for five to the power of its retry, in seconds, and then
  -- hands it to the configured exchange under its own key, or to the queue where there is none. The
  -- queue itself is declared, with the default exchange and the dead letter queue's name as the way
  -- out, and so is the queue of that name.
  pub copies-IsDeclared :
      (accepts : String → Bool) (raw : ConsumeMessage) (handler : QueueEnvelope → Action env Unit)
      (w : World env) (name : String) (headers : Headers)
      → copy_of (handle_message env queue (max_retries env) accepts raw handler w).0
        ≡ some (name, headers)
      → IsDeclared name
          (some (5 ^ (get_retry_count raw + 1) * 1000))
          (or_else (exchange env) "")
          (elim (exchange env) [ none ↦ some queue | some _ ↦ none ])
        × IsDeclared queue none "" (some (queue <> ".dlq"))
        × Memᴰ
            (assert_queue (queue <> ".dlq") (record {
              message_ttl = none;
              dead_letter_exchange = none;
              dead_letter_routing_key = none;
            }))
            (setup_topology env queue)
  unfolding setup_topology
  copies-IsDeclared accepts raw handler w name headers sent =
      let next =
        handle_message-IsNext env queue (max_retries env) accepts raw handler w name headers sent in
      let level = get_retry_count raw + 1 in
      let (to, key) = returning-dead_letter (exchange env) level in
      let options =
        options-eta (retry_options env queue level) _ _ _
          (message_ttl-returning (exchange env) level) to key in
      (
        subst (λ d. Memᴰ d (setup_topology env queue))
            (λ i. assert_queue (sym next.next i) (options i))
            (retry_queue-declared level (omega arith) (omega (arith, next.more))),
        append_right (declared_exchange env queue) (
            Memᴰ.tail (append_right (retry_queues env queue (max_retries env) 1) (Memᴰ.head refl))),
        append_right (declared_exchange env queue) (Memᴰ.head refl),
      )
