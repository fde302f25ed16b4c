-- ===== src/Queue/Cleanup.antt =====
-- src/queue/events-cleanup.service.ts: the deletion of old outbox events and processed marks. A
-- deletion does not throw here, so the handlers of its errors, which only log, are left out.
use nestjs_scaffold.Base.{
  ℕ, ◌-◌, ◌*◌, Bool, true, false, not, [], ◌≡◌, refl, ◌∙◌, ◌&&◌, ltb, or_else, count-ext,
  count-false, if◌then◌else◌,
}
use nestjs_scaffold.Exec.{◌>>◌, pure}
use nestjs_scaffold.Schema.{OutboxEvent, ProcessedEvent, outbox_event, processed_event}
use nestjs_scaffold.Prisma.Laws.{PrismaLaws, tally}
use nestjs_scaffold.Env.{Env, World, Action}

gone : (b : Bool) → (if b then false else b) ≡ false
gone true = refl
gone false = refl

stays : (b c : Bool) → (if b then false else not b && c) ≡ (not b && c)
stays true c = refl
stays false c = refl

module _ (env : Env) where
  abbrev pub retention_hours : ℕ
  retention_hours = or_else (env.get_number "OUTBOX_RETENTION_HOURS") 72

  unfoldable pub cleanup_outbox_events : Action env Unit
  cleanup_outbox_events w =
      let cutoff = w.now - retention_hours * 3600000 in
      pure tt (record w {
        db = (env.prisma.delete_many outbox_event (λ e. ltb e.created_at cutoff) w.db).1;
      })

  unfoldable pub cleanup_processed_events : Action env Unit
  cleanup_processed_events w = pure tt (record w {
    db = (env.prisma.delete_many processed_event (λ e. ltb e.expires_at w.now) w.db).1;
  })

  unfoldable pub cleanup_expired_events : Action env Unit
  cleanup_expired_events = do cleanup_outbox_events; cleanup_processed_events

  module _ (prisma : PrismaLaws env.prisma) where
    -- The two deletions leave no outbox event that is older than the retention and no processed mark
    -- that has expired; and each keeps all other rows of its table.
    pub cleanup_events_lem :
        (kept_outbox : OutboxEvent → Bool) (kept_processed : ProcessedEvent → Bool) (w : World env)
        → let old = λ (e : OutboxEvent). ltb e.created_at (w.now - retention_hours * 3600000) in
          let expired = λ (e : ProcessedEvent). ltb e.expires_at w.now in
          let outbox = (cleanup_outbox_events w).1.db in
          let processed = (cleanup_processed_events w).1.db in
          (tally env.prisma outbox_event old outbox ≡ 0)
          × (tally env.prisma outbox_event (λ e. not (old e) && kept_outbox e) outbox
              ≡ tally env.prisma outbox_event (λ e. not (old e) && kept_outbox e) w.db)
          × (tally env.prisma processed_event expired processed ≡ 0)
          × (tally env.prisma processed_event (λ e. not (expired e) && kept_processed e) processed
              ≡ tally env.prisma processed_event (λ e. not (expired e) && kept_processed e) w.db)
    unfolding cleanup_outbox_events cleanup_processed_events
    cleanup_events_lem kept_outbox kept_processed w =
        let old = λ (e : OutboxEvent). ltb e.created_at (w.now - retention_hours * 3600000) in
        let expired = λ (e : ProcessedEvent). ltb e.expires_at w.now in
        let outbox_rows = env.prisma.find_many outbox_event (λ _. true) [] w.db in
        let processed_rows = env.prisma.find_many processed_event (λ _. true) [] w.db in
        (
          prisma.delete_many-tally outbox_event old old w.db
              ∙ count-ext _ (λ _. false) outbox_rows (λ e. gone (old e))
              ∙ count-false outbox_rows,
          prisma.delete_many-tally outbox_event old _ w.db
              ∙ count-ext _ _ outbox_rows (λ e. stays (old e) (kept_outbox e)),
          prisma.delete_many-tally processed_event expired expired w.db
              ∙ count-ext _ (λ _. false) processed_rows (λ e. gone (expired e))
              ∙ count-false processed_rows,
          prisma.delete_many-tally processed_event expired _ w.db
              ∙ count-ext _ _ processed_rows (λ e. stays (expired e) (kept_processed e)),
        )
