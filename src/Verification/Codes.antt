-- ===== src/Verification/Codes.antt =====
-- A code of src/auth/verification-code.service.ts works once, and a wrong one takes nothing away.
use Prim.Native.Char.{code}
use nestjs_scaffold.Base.{
  String, false, not, some, none, [], ◌∷◌, ◌≡◌, refl, sym, ap, ◌∙◌, arith, ◌==◌, eq_iff, is_text,
  or_else, includes, if◌then◌else◌, Bool-cases, inl, inr,
}
use nestjs_scaffold.Exec.{
  Result, conflict, throw_if, throw_if_state, Returns, Returns-bind, Returns-read, ok, err,
  unauthorized, failure,
}
use nestjs_scaffold.Redis.Laws.{RedisLaws}
use nestjs_scaffold.Env.{Env, World}
use nestjs_scaffold.RedisService.{for_seconds, set, delete}
use nestjs_scaffold.RedisService.Laws.{for_seconds_nx, get-set, set_result, set_nx_result}
use nestjs_scaffold.Verification.{
  code_key, cooldown_key, secret, hash, chosen_code, deliver_code, send, consume,
}

module _ (env : Env) (redis : RedisLaws env.redis) (key : String) where
  -- A code is accepted exactly if its hash is what is stored for the address; then the stored hash
  -- is deleted and no other key changes, and a code that is refused changes nothing.
  pub consume_lem :
      (channel target code j : String) (w : World env)
      → env.get_text "JWT_SECRET" ≡ some key
      → let right = is_text (env.redis.get (code_key channel target) w.keys) (env.hmac key code) in
        ((consume env channel target code w).0
          ≡ (if right then ok tt else err (unauthorized "Invalid or expired verification code")))
        × (env.redis.get j (consume env channel target code w).1.keys ≡ (
            if right
            then (if code_key channel target == j then none else env.redis.get j w.keys)
            else env.redis.get j w.keys))
  unfolding consume hash secret
  consume_lem channel target code j w configured =
      let stored = code_key channel target in
      elim (Bool-cases (is_text (env.redis.get stored w.keys) (env.hmac key code))) [
        | inl right ↦
            rw (configured, right) (refl, ground (arith, redis.get-del (stored ∷ []) j w.keys))
        | inr wrong ↦ rw (configured, wrong) (refl, refl)
      ]

  -- A code that has been accepted is refused the next time.
  pub consume_once :
      (channel target code : String) (w w' : World env)
      → env.get_text "JWT_SECRET" ≡ some key
      → consume env channel target code w ≡ (ok tt, w')
      → (consume env channel target code w').0
        ≡ err (unauthorized "Invalid or expired verification code")
  consume_once channel target code w w' configured e =
      let stored = code_key channel target in
      let (result, kept) = consume_lem channel target code stored w configured in
      elim (Bool-cases (is_text (env.redis.get stored w.keys) (env.hmac key code))) [
        | inl right ↦
            let gone : env.redis.get stored w'.keys ≡ none =
              sym (ap (λ x. env.redis.get stored x.1.keys) e)
              ∙ kept
              ∙ rw (right, (eq_iff stored stored).1 refl) refl in
            (consume_lem channel target code stored w' configured).0 ∙ rw gone refl
        | inr wrong ↦
            let refused : Path (Result {0} Unit) (ok tt)
                (err (unauthorized "Invalid or expired verification code")) =
              sym (ap (λ x. x.0) e) ∙ result ∙ rw wrong refl in
            cc
      ]

  hash_lem :
      (code : String) (w : World env)
      → env.get_text "JWT_SECRET" ≡ some key
      → hash env code w ≡ (ok (env.hmac key code), w)
  unfolding hash secret
  hash_lem code w configured = rw configured refl

  hash_value :
      (code hashed : String) (w : World env)
      → env.get_text "JWT_SECRET" ≡ some key
      → hash env code w ≡ (ok hashed, w)
      → env.hmac key code ≡ hashed
  hash_value code hashed w configured e =
      let same : Path (Result {0} String) (ok (env.hmac key code)) (ok hashed) =
        ap (λ x. x.0) (sym (hash_lem code w configured) ∙ e) in
      cc

  hash_state :
      (code : String) (w : World env)
      → env.get_text "JWT_SECRET" ≡ some key
      → (hash env code w).1 ≡ w
  hash_state code w configured = ap (λ x. x.1) (hash_lem code w configured)

  delivered_state :
      (channel target code : String) (w w' : World env)
      → deliver_code env channel target code w ≡ (ok tt, w')
      → w ≡ w'
  unfolding deliver_code delete
  delivered_state channel target code w w' e = elim (Bool-cases (env.deliver channel target code)) [
    | inl sent ↦
        let done : Path (Result {0} Unit × World env) (ok tt, w) (ok tt, w') = rw sent at e in
        ap (λ x. x.1) done
    | inr failed ↦ cc
  ]

  send-stores :
      (channel target digits : String) (w : World env)
      → env.get_text "JWT_SECRET" ≡ some key
      → Returns
          (λ _ w'.
            env.redis.get (code_key channel target) w'.keys
            ≡ some (env.hmac key (chosen_code env digits)))
          (send env channel target digits w)
  unfolding send
  send-stores channel target digits w configured =
      let stored = code_key channel target in
      let chosen = chosen_code env digits in
      Returns-bind (set env (cooldown_key channel target) "1" _) _ w λ allowed w₁ _.
        Returns-read (throw_if (not allowed) (conflict "Verification code was sent too recently")) _
          w₁ (throw_if_state _ _ w₁)
          λ _ _. Returns-read (hash env chosen) _ w₁ (hash_state chosen w₁ configured) λ hashed h.
            Returns-bind (set env stored hashed (for_seconds _)) _ w₁ λ b w₂ done. record {
              holds = λ _ w' e.
                  ap (λ v. env.redis.get stored v.keys)
                    (sym (delivered_state channel target chosen w₂ w' e))
                  ∙ sym (ap (λ x. env.redis.get stored x.1.keys) done)
                  ∙ get-set env redis stored hashed _ w₁ stored
                  ∙ rw ((eq_iff stored stored).1 refl, hash_value chosen hashed w₁ configured h)
                      refl;
            }

  -- A code that has been sent is accepted in every later state in which what is stored for the
  -- address is what was stored when it was sent.
  pub send-consume :
      (channel target digits : String) (w w' v : World env)
      → env.get_text "JWT_SECRET" ≡ some key
      → send env channel target digits w ≡ (ok tt, w')
      → env.redis.get (code_key channel target) v.keys
        ≡ env.redis.get (code_key channel target) w'.keys
      → (consume env channel target (chosen_code env digits) v).0 ≡ ok tt
  send-consume channel target digits w w' v configured e kept =
      let hashed = env.hmac key (chosen_code env digits) in
      let there = (send-stores channel target digits w configured).holds tt w' e in
      (consume_lem channel target (chosen_code env digits) "" v configured).0
      ∙ rw (kept, there, (eq_iff hashed hashed).1 refl) refl

  -- The state in which a code is delivered.
  abbrev sent_state : String → String → String → World env → World env
  sent_state channel target digits w =
      (set env (code_key channel target) (env.hmac key (chosen_code env digits))
        (for_seconds (or_else (env.get_number "VERIFY_CODE_TTL_SECONDS") 300))
        (set env (cooldown_key channel target) "1"
          (for_seconds_nx (or_else (env.get_number "VERIFY_CODE_COOLDOWN_SECONDS") 60)) w).1).1

  send_steps :
      (channel target digits : String) (w : World env)
      → env.get_text "JWT_SECRET" ≡ some key
      → env.redis.get (cooldown_key channel target) w.keys ≡ none
      → send env channel target digits w
        ≡ deliver_code env channel target
            (chosen_code env digits)
            (sent_state channel target digits w)
  unfolding send hash secret
  send_steps channel target digits w configured absent =
      rw
        (
          set_nx_result env redis (cooldown_key channel target) "1"
              (or_else (env.get_number "VERIFY_CODE_COOLDOWN_SECONDS") 60) w,
          absent,
          configured,
          set_result env redis (code_key channel target) (env.hmac key (chosen_code env digits))
              (or_else (env.get_number "VERIFY_CODE_TTL_SECONDS") 300)
              (set env (cooldown_key channel target) "1"
                (for_seconds_nx (or_else (env.get_number "VERIFY_CODE_COOLDOWN_SECONDS") 60)) w).1,
        )
        refl

  taken_back :
      (channel target code j : String) (w : World env)
      → env.deliver channel target code ≡ false
      → ((deliver_code env channel target code w).0 ≡ err (failure "Delivery failed"))
        × (env.redis.get j (deliver_code env channel target code w).1.keys ≡ (
            if includes (code_key channel target ∷ cooldown_key channel target ∷ []) j
            then none
            else env.redis.get j w.keys))
  unfolding deliver_code delete
  taken_back channel target code j w failed =
      rw failed
        (refl, redis.get-del (code_key channel target ∷ cooldown_key channel target ∷ []) j w.keys)

  -- A delivery that fails leaves neither the code nor the waiting time behind: the error is thrown,
  -- and both keys are gone.
  pub send_undelivered :
      (channel target digits : String) (w : World env)
      → env.get_text "JWT_SECRET" ≡ some key
      → env.redis.get (cooldown_key channel target) w.keys ≡ none
      → env.deliver channel target (chosen_code env digits) ≡ false
      → let (r, w') = send env channel target digits w in
        (r ≡ err (failure "Delivery failed"))
        × (env.redis.get (code_key channel target) w'.keys ≡ none)
        × (env.redis.get (cooldown_key channel target) w'.keys ≡ none)
  send_undelivered channel target digits w configured absent failed =
      let c = code_key channel target in
      let d = cooldown_key channel target in
      let v = sent_state channel target digits w in
      let chosen = chosen_code env digits in
      rw (send_steps channel target digits w configured absent) (
        (taken_back channel target chosen c v failed).0,
        (taken_back channel target chosen c v failed).1 ∙ ground (arith, eq_iff c c),
        (taken_back channel target chosen d v failed).1 ∙ ground (arith, eq_iff d d),
      )
