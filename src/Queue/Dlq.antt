-- ===== src/Queue/Dlq.antt =====
-- src/queue/dlq-consumer.service.ts: messages of the dead letter queue are sent to the main queue
-- again. The queue is the list of its messages, and `sent` the list of what has been sent. What other
-- consumers dead-letter while the loop runs, such as a republished message that fails, arrives in it.
use nestjs_scaffold.Base.{
  ◌+◌, ◌≤◌, ◌⊎◌, inl, inr, ◌∙◌, ℕ, zero, suc, ◌<◌, String, true, Option, none, some, List, [], ◌∷◌,
  ◌++◌, ◌≡◌, refl, ap, sym, arith, map, length, coalesce, or_else,
}
use nestjs_scaffold.Json.{Json}
use nestjs_scaffold.Queue.Message.{ConsumeMessage, try_get_routing_key_from_body}

-- Where a copy is sent: to the exchange with a routing key, or to the main queue.
pub record Republished : Type 0 where
  pub exchange : Option String
  pub routing_key : String
  pub message : ConsumeMessage

pub record DlqState : Type 0 where
  pub dlq : List ConsumeMessage
  pub sent : List Republished

-- What has arrived in the first rounds.
abbrev pub arrived : ℕ → (ℕ → List ConsumeMessage) → List ConsumeMessage
arrived zero arriving = []
arrived (suc n) arriving = let rest = arrived n (λ i. arriving (suc i)) in arriving 0 ++ rest

module _ (parse_json : String → Option Json) (string_of : Json → String)
    (exchange : Option String) where
  -- `headers['x-original-routing-key'] ?? tryGetRoutingKeyFromBody(content) ?? fields.routingKey`
  abbrev pub republish_key : ConsumeMessage → String
  republish_key msg =
      or_else
        (coalesce msg.headers.original_routing_key
          (try_get_routing_key_from_body parse_json string_of msg.content))
        msg.routing_key

  -- The copy: the same content and headers, marked, and no message id.
  abbrev pub republished : ConsumeMessage → Republished
  republished msg = record {
    exchange = exchange;
    routing_key = republish_key msg;
    message = record msg { message_id = none; headers = record msg.headers { republish = true } };
  }

  -- The routing key of the message, if one was there.
  unfoldable pub republish_one : DlqState → Option String × DlqState
  republish_one s = elim s.dlq [
    | [] ↦ (none, s)
    | msg ∷ rest ↦
        (some (republish_key msg), record { dlq = rest; sent = s.sent ++ (republished msg ∷ []) })
  ]

  abbrev pub go_on : Option String × DlqState → ℕ × DlqState → ℕ × DlqState
  go_on (none, s) rest = (0, s)
  go_on (some key, s) rest = (suc rest.0, rest.1)

  -- The loop of `republishAll`, on the rounds left; `arriving i` is what arrives before the message
  -- of round i is asked for.
  unfoldable pub republish_all : ℕ → (ℕ → List ConsumeMessage) → DlqState → ℕ × DlqState
  unfolding republish_one
  republish_all zero arriving s = (0, s)
  republish_all (suc rounds) arriving s =
      let next = republish_one (record s { dlq = s.dlq ++ arriving 0 }) in
      let rest = republish_all rounds (λ i. arriving (suc i)) next.1 in go_on next rest

  append_assoc : {A : Type 0} (xs ys zs : List A) → (xs ++ ys) ++ zs ≡ xs ++ (ys ++ zs)
  append_assoc [] ys zs = refl
  append_assoc (x ∷ xs) ys zs = ap (λ l. x ∷ l) (append_assoc xs ys zs)

  length_append : {A : Type 0} (xs ys : List A) → length (xs ++ ys) ≡ length xs + length ys
  length_append [] ys = omega arith
  length_append (x ∷ xs) ys = omega (arith, length_append xs ys)

  append_nil : {A : Type 0} (xs : List A) → xs ++ [] ≡ xs
  append_nil [] = refl
  append_nil (x ∷ xs) = ap (λ zs. x ∷ zs) (append_nil xs)

  -- A round on the queue as it is when its message is asked for.
  round_empty :
      (rounds : ℕ) (arriving : ℕ → List ConsumeMessage) (s : DlqState)
      → s.dlq ++ arriving 0 ≡ []
      → republish_all (suc rounds) arriving s ≡ (0, record { dlq = []; sent = s.sent })
  unfolding republish_all republish_one
  round_empty rounds arriving s none_left = rw none_left refl

  round_next :
      (rounds : ℕ) (arriving : ℕ → List ConsumeMessage) (s : DlqState) (msg : ConsumeMessage)
      (rest : List ConsumeMessage)
      → s.dlq ++ arriving 0 ≡ msg ∷ rest
      → let t : DlqState = record { dlq = rest; sent = s.sent ++ (republished msg ∷ []) } in
        let again = republish_all rounds (λ i. arriving (suc i)) t in
        republish_all (suc rounds) arriving s ≡ (suc again.0, again.1)
  unfolding republish_all republish_one
  round_next rounds arriving s msg rest there = rw there refl

  cases_of : {A : Type 0} (xs : List A) → (xs ≡ []) ⊎ ((x : A) × (ys : List A) × (xs ≡ x ∷ ys))
  cases_of [] = inl refl
  cases_of (x ∷ xs) = inr (x, xs, refl)

  -- Where fewer messages than rounds are there and arrive in all, `republishAll` ends with an empty
  -- queue: a copy of each message has been sent that was there or has arrived by the last round, in
  -- the order of the queue, and it returns their number.
  pub republish_all_lem :
      (rounds : ℕ) (arriving : ℕ → List ConsumeMessage) (s : DlqState)
      → ((n : ℕ) → length (s.dlq ++ arrived n arriving) < rounds)
      → (n : ℕ) × (republish_all rounds arriving s ≡ (
        length (s.dlq ++ arrived n arriving),
        record { dlq = []; sent = s.sent ++ map republished (s.dlq ++ arrived n arriving) },
      ))
  republish_all_lem zero arriving s enough = absurd (omega (arith, enough 0))
  republish_all_lem (suc rounds) arriving s enough = elim (cases_of (s.dlq ++ arriving 0)) [
    | inl none_left ↦
        let all : s.dlq ++ arrived 1 arriving ≡ [] =
          ap (λ xs. s.dlq ++ xs) (append_nil (arriving 0)) ∙ none_left in
        (
          1,
          round_empty rounds arriving s none_left
              ∙ rw all (ap (λ xs. (0, record { dlq = []; sent = xs })) (sym (append_nil s.sent))),
        )
    | inr (msg, rest, there) ↦
        let later = λ (i : ℕ). arriving (suc i) in
        let all : (n : ℕ) → s.dlq ++ arrived (suc n) arriving ≡ msg ∷ (rest ++ arrived n later) =
          λ n.
            sym (append_assoc s.dlq (arriving 0) (arrived n later))
            ∙ ap (λ xs. xs ++ arrived n later) there in
        let t : DlqState = record { dlq = rest; sent = s.sent ++ (republished msg ∷ []) } in
        let (n, done) =
          republish_all_lem rounds later t
            (λ n. omega (arith, enough (suc n), ap length (all n))) in
        (
          suc n,
          round_next rounds arriving s msg rest there
              ∙ ap (λ (r : ℕ × DlqState). (suc r.0, r.1)) done
              ∙ rw (all n) (
                  ap
                    (λ xs. (suc (length (rest ++ arrived n later)), record { dlq = []; sent = xs }))
                    (append_assoc s.sent (republished msg ∷ [])
                      (map republished (rest ++ arrived n later)))),
        )
  ]

  -- `republishAll` does not end while messages keep arriving: where one arrives in every round, such
  -- as a republished message that fails again, each round sends a copy and is followed by another.
  pub republish_all_endless :
      (rounds : ℕ) (arriving : ℕ → List ConsumeMessage) (s : DlqState)
      → ((i : ℕ) → 1 ≤ length (arriving i))
      → ((republish_all rounds arriving s).0 ≡ rounds)
        × (length (republish_all rounds arriving s).1.sent ≡ length s.sent + rounds)
  unfolding republish_all
  republish_all_endless zero arriving s always = (refl, omega arith)
  republish_all_endless (suc rounds) arriving s always = elim (cases_of (s.dlq ++ arriving 0)) [
    | inl none_left ↦
        absurd (omega (arith, always 0, ap length none_left, length_append s.dlq (arriving 0)))
    | inr (msg, rest, there) ↦
        let t : DlqState = record { dlq = rest; sent = s.sent ++ (republished msg ∷ []) } in
        let (n, sent) =
          republish_all_endless rounds (λ i. arriving (suc i)) t (λ i. always (suc i)) in
        let first = round_next rounds arriving s msg rest there in
        (
          ap (λ r. r.0) first ∙ ap suc n,
          ap (λ (r : ℕ × DlqState). length r.1.sent) first
              ∙ omega (arith, sent, length_append s.sent (republished msg ∷ [])),
        )
  ]
