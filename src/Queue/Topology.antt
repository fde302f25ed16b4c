-- ===== src/Queue/Topology.antt =====
-- `setupTopology` of src/queue/rabbitmq.service.ts: what is declared on the channel, in order; and
-- the queues that `handleMessage` sends to, by name.
use nestjs_scaffold.Base.{
  ℕ, zero, suc, ◌+◌, ◌*◌, ◌^◌, String, Option, none, some, List, [], ◌∷◌, ◌++◌, ◌<>◌, ◌==◌, or_else,
  if◌then◌else◌,
}
use nestjs_scaffold.Env.{Env}

pub record QueueOptions : Type 0 where
  pub message_ttl : Option ℕ
  pub dead_letter_exchange : Option String
  pub dead_letter_routing_key : Option String

pub data Declaration : Type 0 where
  assert_exchange : String → String → Declaration
  assert_queue : String → QueueOptions → Declaration
  bind_queue : String → String → String → Declaration
  prefetch : ℕ → Declaration

module _ (env : Env) where
  -- `getOrThrow('RABBITMQ_QUEUE')` is an argument; `get('RABBITMQ_EXCHANGE')?.trim() || undefined`
  abbrev pub exchange : Option String
  exchange =
      let trimmed = env.trim (or_else (env.get_text "RABBITMQ_EXCHANGE") "") in
      if trimmed == "" then none else some trimmed

  abbrev pub exchange_type : String
  exchange_type = or_else (env.get_text "RABBITMQ_EXCHANGE_TYPE") "topic"

  abbrev pub binding_key : String
  binding_key = or_else (env.get_text "RABBITMQ_BINDING_KEY") "#"

  abbrev pub max_retries : ℕ
  max_retries = or_else (env.get_number "RABBITMQ_MAX_RETRIES") 2

  module _ (queue : String) where
    abbrev pub dead_letter_queue : String
    dead_letter_queue = queue <> ".dlq"

    -- `${this.queue}.retry.${i}`
    abbrev pub retry_queue : ℕ → String
    retry_queue i = queue <> ".retry." <> env.text_of_number i

    -- The exchange and the key that an expired message of a retry queue takes.
    abbrev pub returning : Option String → ℕ → QueueOptions
    returning none i = record {
      message_ttl = some (5 ^ i * 1000);
      dead_letter_exchange = some "";
      dead_letter_routing_key = some queue;
    }
    returning (some e) i = record {
      message_ttl = some (5 ^ i * 1000);
      dead_letter_exchange = some e;
      dead_letter_routing_key = none;
    }

    abbrev pub retry_options : ℕ → QueueOptions
    retry_options i = returning exchange i

    -- The loop over the levels from `i`, with the number that are left.
    unfoldable pub retry_queues : ℕ → ℕ → List Declaration
    retry_queues zero i = []
    retry_queues (suc left) i =
        assert_queue (retry_queue i) (retry_options i) ∷ retry_queues left (i + 1)

    abbrev pub main_options : QueueOptions
    main_options = record {
      message_ttl = none;
      dead_letter_exchange = some "";
      dead_letter_routing_key = some dead_letter_queue;
    }

    abbrev pub no_options : QueueOptions
    no_options = record {
      message_ttl = none;
      dead_letter_exchange = none;
      dead_letter_routing_key = none;
    }

    abbrev pub declared_exchange : List Declaration
    declared_exchange = elim exchange [ none ↦ [] | some e ↦ assert_exchange e exchange_type ∷ [] ]

    abbrev pub queue_binding : List Declaration
    queue_binding = elim exchange [ none ↦ [] | some e ↦ bind_queue queue e binding_key ∷ [] ]

    abbrev pub prefetched : List Declaration
    prefetched = prefetch (or_else (env.get_number "RABBITMQ_PREFETCH") 10) ∷ []

    unfoldable pub setup_topology : List Declaration
    setup_topology =
        declared_exchange
        ++ (assert_queue dead_letter_queue no_options
            ∷ (retry_queues max_retries 1
                ++ (assert_queue queue main_options ∷ (queue_binding ++ prefetched))))
