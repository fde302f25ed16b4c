-- ===== src/Throttler/Blocking.antt =====
-- When src/redis/redis-throttler-storage.ts blocks a client.
use nestjs_scaffold.Base.{
  max_zero, ℕ, ◌≤◌, ◌*◌, String, true, false, ◌≡◌, ◌∙◌, sym, ap, refl, arith, ltb, eqb, is_pos,
  max_zero, pos,
}
use nestjs_scaffold.Exec.{ok, pure, when, ◌>>◌, Returns, Returns-bind}
use nestjs_scaffold.Redis.Laws.{RedisLaws}
use nestjs_scaffold.Env.{Env, World}
use nestjs_scaffold.RedisService.{for_seconds, set, set_with_options, ttl, expire, increment}
use nestjs_scaffold.RedisService.Laws.{set_result}
use nestjs_scaffold.Throttler.{
  ThrottlerStorageRecord, block_key, ceil_seconds, set_block, count_hit, increment_hits,
}

module _ (env : Env) (redis : RedisLaws env.redis) where
  ttl-set_key :
      (key value : String) (n : ℕ) (w : World env)
      → env.redis.ttl key (set env key value (for_seconds n) w).1.keys ≡ pos n
  unfolding set set_with_options
  ttl-set_key key value n w =
      redis.ttl-set (set_with_options key value (for_seconds n)) w.keys n refl refl

  blocked :
      (key : String) (d : ℕ) (w : World env)
      → 1 ≤ d
      → is_pos (env.redis.ttl (block_key key) (set_block env key d w).1.keys) ≡ true
  unfolding set_block
  blocked key d w positive =
      let on : ltb 0 d ≡ true = ground arith in
      rw
        (
          on,
          set_result env redis (block_key key) "1" (ceil_seconds d) w,
          ttl-set_key (block_key key) "1" (ceil_seconds d) w,
        )
        (ground arith)

  count_hit-Returns :
      (key : String) (t d : ℕ) (w : World env)
      → 1 ≤ d
      → Returns
          (λ _ w'. is_pos (env.redis.ttl (block_key key) w'.keys) ≡ true)
          (count_hit env key t d w)
  unfolding count_hit
  count_hit-Returns key t d w positive = Returns-bind (increment env key) _ w λ hits w₁ _.
      Returns-bind (when (eqb hits 1) (expire env key (ceil_seconds t) >> pure tt)) _ w₁ λ _ w₂ _.
        Returns-bind (ttl env key) _ w₂ λ left w₃ _.
          Returns-bind (set_block env key d) _ w₃ λ _ w₄ done. record {
            holds = λ r w' e.
                ap (λ v. is_pos (env.redis.ttl (block_key key) v.keys)) (sym (ap (λ x. x.1) e))
                ∙ sym (ap (λ x. is_pos (env.redis.ttl (block_key key) x.1.keys)) done)
                ∙ blocked key d w₃ positive;
          }

  again :
      (key : String) (t limit d : ℕ) (w : World env)
      → is_pos (env.redis.ttl (block_key key) w.keys) ≡ true
      → (r : ThrottlerStorageRecord) × (increment_hits env key t limit d w ≡ (ok r, w))
        × (r.is_blocked ≡ true)
  unfolding increment_hits ttl
  again key t limit d w on = (
    record {
      total_hits = 0;
      time_to_expire = 0;
      is_blocked = true;
      time_to_block_expire = max_zero (env.redis.ttl (block_key key) w.keys) * 1000;
    },
    rw on refl,
    refl,
  )

  first_hit :
      (key : String) (t limit d : ℕ) (w : World env)
      → is_pos (env.redis.ttl (block_key key) w.keys) ≡ false
      → increment_hits env key t limit d w ≡ count_hit env key t d w
  unfolding increment_hits ttl
  first_hit key t limit d w off = rw off refl

  -- With a block duration, a client that was not blocked is blocked by one request, whatever the
  -- limit is: the next request is answered as blocked, and changes nothing.
  pub blocked_by_one :
      (key : String) (t limit d : ℕ) (w w' : World env) (r : ThrottlerStorageRecord)
      → 1 ≤ d
      → is_pos (env.redis.ttl (block_key key) w.keys) ≡ false
      → increment_hits env key t limit d w ≡ (ok r, w')
      → (r' : ThrottlerStorageRecord) × (increment_hits env key t limit d w' ≡ (ok r', w'))
        × (r'.is_blocked ≡ true)
  blocked_by_one key t limit d w w' r positive off e =
      again key t limit d w' (
        (count_hit-Returns key t d w positive).holds r w' (sym (first_hit key t limit d w off) ∙ e))
