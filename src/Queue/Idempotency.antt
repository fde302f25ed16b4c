-- ===== src/Queue/Idempotency.antt =====
-- src/queue/idempotency.guard.ts: which events have been processed, and which are being processed.
use nestjs_scaffold.Base.{String, Bool, [], ◌∷◌, ◌<>◌}
use nestjs_scaffold.Exec.{◌>>◌, pure}
use nestjs_scaffold.Env.{Env, Action}
use nestjs_scaffold.RedisService.{for_seconds, set, delete, exists}
use nestjs_scaffold.RedisService.Laws.{for_seconds_nx}

abbrev pub processed_key : String → String → String
processed_key event_id routing_key = "event:processed:" <> routing_key <> ":" <> event_id

abbrev pub processing_key : String → String → String
processing_key event_id routing_key = "event:processing:" <> routing_key <> ":" <> event_id

module _ (env : Env) where
  unfoldable pub is_processed : String → String → Action env Bool
  is_processed event_id routing_key = exists env (processed_key event_id routing_key)

  unfoldable pub mark_processed : String → String → Action env Unit
  mark_processed event_id routing_key = do
    set env (processed_key event_id routing_key) "1" (for_seconds 604800)
    pure tt

  unfoldable pub acquire_processing_lock : String → String → Action env Bool
  acquire_processing_lock event_id routing_key =
      set env (processing_key event_id routing_key) "1" (for_seconds_nx 300)

  unfoldable pub release_processing_lock : String → String → Action env Unit
  release_processing_lock event_id routing_key = do
    delete env (processing_key event_id routing_key ∷ [])
    pure tt
