-- ===== src/Queue/Deduplication.antt =====
-- An event is processed once: the proofs for src/queue/rabbitmq.consumer.ts.
use Prim.Native.Char.{Char, code}
use text.Mathlib.TextLemmas.{append_assoc, cons-append, head-eq_of_cons-eq, append_cancel_left}
use nestjs_scaffold.Base.{
  ◌+◌, String, true, Option, none, some, [], ◌∷◌, ◌≡◌, ◌≢◌, ◌∙◌, sym, ap, subst, refl, ◌==◌, ◌<>◌,
  eq_iff, arith, is_some, Bool-cases, inl, inr,
}
use nestjs_scaffold.Exec.{
  ◌>>◌, ok, err, skip_message, Returns, Returns-bind, Returns-throw, Returns-catch, Error, conflict,
  forbidden, not_found, unauthorized, service_unavailable, unauthorized_code, known_request,
  failure,
}
use nestjs_scaffold.Schema.{ProcessedEvent, processed_event}
use nestjs_scaffold.Redis.Laws.{RedisLaws}
use nestjs_scaffold.Env.{write, Env, World, Action}
use nestjs_scaffold.RedisService.{delete}
use nestjs_scaffold.RedisService.Laws.{
  for_seconds_nx, db-set, get-set, set_result, get-set_nx, set_nx_result, exists_result,
}
use nestjs_scaffold.Queue.Message.{QueueEnvelope}
use nestjs_scaffold.Queue.Idempotency.{
  processed_key, processing_key, is_processed, mark_processed, acquire_processing_lock,
  release_processing_lock,
}
use nestjs_scaffold.Queue.Consumer.{
  UserCreatedEvent, run_handler, on_mark_error, on_dispatch_error, save_processed, record_processed,
  process, lock_and_process, check_database, dispatch,
}

-- The keys of processed events and of locks never meet.
keys_apart : (e k e' k' : String) → processed_key e k ≢ processing_key e' k'
keys_apart e k e' k' h =
    let x = k <> ":" <> e in
    let y = k' <> ":" <> e' in
    let tails : "ed:" <> x ≡ "ing:" <> y =
      append_cancel_left "event:process" ("ed:" <> x) ("ing:" <> y)
        (sym (append_assoc "event:process" "ed:" x) ∙ h ∙ append_assoc "event:process" "ing:" y) in
    let heads : Path Char "e" "i" =
      head-eq_of_cons-eq (sym (cons-append "e" "d:" x) ∙ tails ∙ cons-append "i" "ng:" y) in
    omega (arith, ap code heads)

module _ (env : Env) (redis : RedisLaws env.redis)
    (handler : UserCreatedEvent → Action env Unit) where
  -- The texts stored for an event.
  abbrev mark : QueueEnvelope → World env → Option String
  mark m w = env.redis.get (processed_key m.event_id m.routing_key) w.keys

  abbrev lock : QueueEnvelope → World env → Option String
  lock m w = env.redis.get (processing_key m.event_id m.routing_key) w.keys

  -- An event that Redis knows as processed is dropped: nothing is run and nothing is written.
  pub dispatch_processed :
      (m : QueueEnvelope) (w : World env)
      → is_some (mark m w) ≡ true
      → dispatch env handler m w ≡ (ok tt, w)
  unfolding dispatch is_processed
  dispatch_processed m w seen =
      rw (exists_result env redis (processed_key m.event_id m.routing_key) w, seen) refl

  locked :
      (m : QueueEnvelope) (w : World env)
      → is_some (lock m w) ≡ true
      → ((lock_and_process env handler m w).0 ≡ err skip_message)
        × ((lock_and_process env handler m w).1.db ≡ w.db)
        × ((j : String)
            → env.redis.get j (lock_and_process env handler m w).1.keys ≡ env.redis.get j w.keys)
  unfolding lock_and_process acquire_processing_lock
  locked m w held =
      let key = processing_key m.event_id m.routing_key in
      rw (set_nx_result env redis key "1" 300 w, held)
        (
          refl,
          db-set env key "1" (for_seconds_nx 300) w,
          λ j. get-set_nx env redis key "1" 300 w j ∙ rw held refl,
        )

  -- An event whose lock is held, and that is not known as processed, is skipped: its handler does
  -- not run, and neither the database nor a key changes.
  pub dispatch_locked :
      (m : QueueEnvelope) (w : World env) (j : String)
      → mark m w ≡ none
      → env.prisma.find_first processed_event (λ r. r.event_id == m.event_id) [] w.db ≡ none
      → is_some (lock m w) ≡ true
      → ((dispatch env handler m w).0 ≡ err skip_message)
        × ((dispatch env handler m w).1.db ≡ w.db)
        × (env.redis.get j (dispatch env handler m w).1.keys ≡ env.redis.get j w.keys)
  unfolding dispatch is_processed check_database
  dispatch_locked m w j unseen unknown held =
      let (skipped, same, kept) = locked m w held in
      rw (exists_result env redis (processed_key m.event_id m.routing_key) w, unseen, unknown)
        (skipped, same, kept j)

  marked :
      (m : QueueEnvelope) (w : World env)
      → mark m (mark_processed env m.event_id m.routing_key w).1 ≡ some "1"
  unfolding mark_processed
  marked m w =
      let key = processed_key m.event_id m.routing_key in
      rw (set_result env redis key "1" 604800 w)
        (ground (arith, get-set env redis key "1" 604800 w key, eq_iff key key))

  release_keeps :
      (m : QueueEnvelope) (w : World env)
      → mark m (release_processing_lock env m.event_id m.routing_key w).1 ≡ mark m w
  unfolding release_processing_lock delete
  release_keeps m w =
      let key = processed_key m.event_id m.routing_key in
      let held = processing_key m.event_id m.routing_key in
      ground (
        arith,
        redis.get-del (held ∷ []) key w.keys,
        eq_iff held key,
        keys_apart m.event_id m.routing_key m.event_id m.routing_key,
      )

  -- The row that `markProcessed` creates.
  abbrev create_row : QueueEnvelope → World env → Action env ProcessedEvent
  create_row m w = write env (
      env.prisma.create processed_event λ _. record {
        event_id = m.event_id;
        routing_key = m.routing_key;
        processed_at = w.now;
        expires_at = w.now + 604800000;
      })

  -- The mark of an event after a call that returns.
  abbrev Marks : QueueEnvelope → {A : Type 0} → A → World env → Type 0
  Marks m _ w = is_some (mark m w) ≡ true

  mark-Returns :
      (m : QueueEnvelope) (w : World env)
      → Returns (Marks m) (mark_processed env m.event_id m.routing_key w)
  mark-Returns m w = record {
    holds =
        λ _ w' e. subst (λ v. is_some (mark m v) ≡ true) (ap (λ x. x.1) e) (rw (marked m w) refl);
  }

  mark_error-Returns :
      (m : QueueEnvelope) (e : Error) (w : World env)
      → Returns (Marks m) (on_mark_error env handler m e w)
  unfolding on_mark_error
  mark_error-Returns m (known_request code) w = elim (Bool-cases (code == "P2002")) [
    | inl taken ↦ rw taken (
        Returns-bind (mark_processed env m.event_id m.routing_key) _ w λ _ w₁ _.
          Returns-bind (release_processing_lock env m.event_id m.routing_key) _ w₁
            λ _ w₂ _. Returns-throw skip_message w₂)
    | inr other ↦ rw other (Returns-throw (known_request code) w)
  ]
  mark_error-Returns m (conflict t) w = Returns-throw _ w
  mark_error-Returns m (forbidden t) w = Returns-throw _ w
  mark_error-Returns m (not_found t) w = Returns-throw _ w
  mark_error-Returns m (unauthorized t) w = Returns-throw _ w
  mark_error-Returns m (service_unavailable t) w = Returns-throw _ w
  mark_error-Returns m (unauthorized_code c t) w = Returns-throw _ w
  mark_error-Returns m (failure t) w = Returns-throw _ w
  mark_error-Returns m skip_message w = Returns-throw _ w

  save-Returns :
      (m : QueueEnvelope) (w : World env) → Returns (Marks m) (save_processed env handler m w)
  unfolding save_processed
  save-Returns m w = Returns-bind (create_row m w) _ w λ _ w₁ _.
      Returns-bind (mark_processed env m.event_id m.routing_key) _ w₁ λ u w₂ done. record {
        holds = λ _ w₃ e.
            subst (λ v. is_some (mark m v) ≡ true) (ap (λ x. x.1) e)
              (rw (release_keeps m w₂) ((mark-Returns m w₁).holds u w₂ done));
      }

  record-Returns :
      (m : QueueEnvelope) (w : World env) → Returns (Marks m) (record_processed env handler m w)
  unfolding record_processed
  record-Returns m w =
      Returns-catch (save_processed env handler m) (on_mark_error env handler m) w
        (save-Returns m w) (mark_error-Returns m)

  process-Returns :
      (m : QueueEnvelope) (w : World env) → Returns (Marks m) (process env handler m w)
  unfolding process
  process-Returns m w =
      Returns-catch (run_handler env handler m >> record_processed env handler m)
        (on_dispatch_error env handler m) w
        (Returns-bind (run_handler env handler m) _ w λ _ w₁ _. record-Returns m w₁)
        (λ e u.
          Returns-bind (release_processing_lock env m.event_id m.routing_key) _ u
            λ _ w₁ _. Returns-throw e w₁)

  lock-Returns :
      (m : QueueEnvelope) (w : World env) → Returns (Marks m) (lock_and_process env handler m w)
  unfolding lock_and_process
  lock-Returns m w =
      Returns-bind (acquire_processing_lock env m.event_id m.routing_key) _ w λ acquired w₁ _.
        elim (Bool-cases acquired) [
          | inl taken ↦ rw taken (process-Returns m w₁)
          | inr held ↦ rw held (Returns-throw skip_message w₁)
        ]

  database-Returns :
      (m : QueueEnvelope) (w : World env) → Returns (Marks m) (check_database env handler m w)
  unfolding check_database
  database-Returns m w =
      elim (Bool-cases
        (is_some (env.prisma.find_first processed_event (λ r. r.event_id == m.event_id) [] w.db))) [
          | inl known ↦ rw known (mark-Returns m w)
          | inr unknown ↦ rw unknown (lock-Returns m w)
        ]

  dispatch-Returns :
      (m : QueueEnvelope) (w : World env) → Returns (Marks m) (dispatch env handler m w)
  unfolding dispatch is_processed
  dispatch-Returns m w = elim (Bool-cases (is_some (mark m w))) [
    | inl seen ↦ record {
      holds = λ _ w' e.
          let same : w ≡ w' = ap (λ x. x.1) (sym (dispatch_processed m w seen) ∙ e) in
          subst (λ v. is_some (mark m v) ≡ true) same seen;
    }
    | inr unseen ↦
        rw (exists_result env redis (processed_key m.event_id m.routing_key) w, unseen)
          (database-Returns m w)
  ]

  -- After a dispatch that returns, however it went, another
  -- dispatch of the event returns at once, and neither runs the handler nor writes anything.
  pub dispatch_once :
      (m : QueueEnvelope) (w w' : World env)
      → dispatch env handler m w ≡ (ok tt, w')
      → (is_some (mark m w') ≡ true) × (dispatch env handler m w' ≡ (ok tt, w'))
  dispatch_once m w w' e =
      let seen = (dispatch-Returns m w).holds tt w' e in (seen, dispatch_processed m w' seen)
