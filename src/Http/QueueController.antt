-- ===== src/Http/QueueController.antt =====
-- src/queue/queue.controller.ts: the dead letter queue, for those who may retry its messages. The queue
-- is beside the state of the request.
use nestjs_scaffold.Base.{
  List, ℕ, ◌<◌, String, Option, [], ◌∷◌, ◌++◌, ◌≡◌, refl, sym, ap, ◌∙◌, length,
}
use nestjs_scaffold.Exec.{Result, ok, err, Exec, pure}
use nestjs_scaffold.Env.{Env, World}
use nestjs_scaffold.Queue.Message.{ConsumeMessage}
use nestjs_scaffold.Queue.Dlq as Dlq
use nestjs_scaffold.Queue.Dlq.{DlqState, arrived, republished, republish_all_lem}
use nestjs_scaffold.Http.Context.{HttpRequest}
use nestjs_scaffold.Http.Pipeline.{requires, serve}
use nestjs_scaffold.Http.Protection.{IsAllowed, serve-IsAllowed}

module _ (env : Env) (req : HttpRequest) (exchange : Option String) where
  -- A method on the queue, after the guards.
  abbrev pub run_method :
      {A : Type 0}
      → Result {0} Unit × World env
      → (DlqState → A × DlqState)
      → DlqState
      → Result A × (World env × DlqState)
  run_method (ok passed, w) method q = let (a, q') = method q in (ok a, (w, q'))
  run_method (err e, w) method q = (err e, (w, q))

  unfoldable pub administrate :
      {A : Type 0} → (DlqState → A × DlqState) → Exec (World env × DlqState) A
  administrate method s =
      run_method (serve env (requires "dead_letter.retry") req (λ user. pure tt) s.0) method s.1

  abbrev pub republish_one : Exec (World env × DlqState) (Option String)
  republish_one = administrate (Dlq.republish_one env.parse_json env.string_of exchange)

  -- The loop on the rounds left.
  abbrev pub republish_all : ℕ → (ℕ → List ConsumeMessage) → Exec (World env × DlqState) ℕ
  republish_all rounds arriving =
      administrate (Dlq.republish_all env.parse_json env.string_of exchange rounds arriving)

  ran :
      {A : Type 0} (r : Result {0} Unit × World env) (method : DlqState → A × DlqState)
      (q q' : DlqState) (w' : World env) (a : A)
      → run_method r method q ≡ (ok a, (w', q'))
      → (r ≡ (ok tt, w')) × (method q ≡ (a, q'))
  ran (ok tt, w) method q q' w' a e = (cc, cc)
  ran (err x, w) method q q' w' a e = absurd cc

  -- A method on the queue returns only for a request that is allowed to retry dead letters, and what
  -- it returns and leaves is what the operation does.
  pub administrate-IsAllowed :
      {A : Type 0} (method : DlqState → A × DlqState) (w w' : World env) (q q' : DlqState) (a : A)
      → administrate method (w, q) ≡ (ok a, (w', q'))
      → IsAllowed env ("dead_letter.retry" ∷ []) req × (method q ≡ (a, q'))
  unfolding administrate
  administrate-IsAllowed method w w' q q' a e =
      let done =
        ran (serve env (requires "dead_letter.retry") req (λ user. pure tt) w) method q q' w' a e in
      (
        serve-IsAllowed env (requires "dead_letter.retry") req (λ user. pure tt) "dead_letter.retry"
            w w' tt refl refl done.0,
        done.1,
      )

  -- When `republishAll` returns, where fewer messages than rounds are there and arrive in all, the
  -- request is allowed to retry dead letters, the queue is empty, and the count is the number of the
  -- messages that were there or have arrived by the last round.
  pub republish_all-IsAllowed :
      (rounds : ℕ) (arriving : ℕ → List ConsumeMessage) (w w' : World env) (q q' : DlqState) (n : ℕ)
      → ((i : ℕ) → length (q.dlq ++ arrived i arriving) < rounds)
      → republish_all rounds arriving (w, q) ≡ (ok n, (w', q'))
      → IsAllowed env ("dead_letter.retry" ∷ []) req
        × (q'.dlq ≡ [])
        × ((i : ℕ) × (n ≡ length (q.dlq ++ arrived i arriving)))
  republish_all-IsAllowed rounds arriving w w' q q' n enough e =
      let (allowed, done) =
        administrate-IsAllowed
          (Dlq.republish_all env.parse_json env.string_of exchange rounds arriving) w w' q q' n e in
      let (i, all) =
        republish_all_lem env.parse_json env.string_of exchange rounds arriving q enough in
      let same = sym done ∙ all in (allowed, ap (λ x. x.1.dlq) same, (i, ap (λ x. x.0) same))
