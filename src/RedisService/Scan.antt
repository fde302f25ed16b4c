-- ===== src/RedisService/Scan.antt =====
-- `deleteByPattern` (src/redis/redis.service.ts): the scan loop deletes what matches, and only that.
use nestjs_scaffold.Base.{
  ℕ, zero, suc, ◌<◌, ◌+◌, String, true, false, none, List, [], ◌∷◌, ◌≡◌, refl, ◌≢◌, inl, inr, arith,
  ◌∙◌, ◌==◌, eq_iff, Bool-cases, Option-cases, includes, if◌then◌else◌,
}
use nestjs_scaffold.Redis.{Redis}
use nestjs_scaffold.Redis.Laws.{RedisLaws, ScanLaws}
use nestjs_scaffold.Env.{Env, World}
use nestjs_scaffold.RedisService.{del_found, scan_loop, delete_by_pattern}

not_same : (s t : String) → s ≢ t → (s == t) ≡ false
not_same s t ne = ground (arith, eq_iff s t)

module _ (r : Redis) (laws : RedisLaws r) where
  get-del_found :
      (keys : List String) (k : String) (ks : r.Keyspace)
      → r.get k (del_found r keys ks).1 ≡ (if includes keys k then none else r.get k ks)
  get-del_found [] k ks = refl
  get-del_found (j ∷ rest) k ks = laws.get-del (j ∷ rest) k ks

  -- The loop never brings a key back.
  none-scan_loop :
      (rounds : ℕ) (cursor pattern : String) (batch deleted : ℕ) (k : String) (ks : r.Keyspace)
      → r.get k ks ≡ none
      → r.get k (scan_loop r rounds cursor pattern batch deleted ks).1 ≡ none
  unfolding scan_loop
  none-scan_loop zero cursor pattern batch deleted k ks h = h
  none-scan_loop (suc rounds) cursor pattern batch deleted k ks h =
      let (next, keys) = r.scan cursor pattern batch ks in
      let (n, ks') = del_found r keys ks in
      let gone : r.get k ks' ≡ none = ground (arith, get-del_found keys k ks) in
      elim (Bool-cases (next == "0")) [
        | inl done ↦ rw done gone
        | inr more ↦ rw more (none-scan_loop rounds next pattern batch (deleted + n) k ks' gone)
      ]

  -- So a key that one round has deleted stays away, whether the loop goes on or not.
  none-next :
      (rounds : ℕ) (next pattern : String) (batch deleted : ℕ) (k : String) (ks : r.Keyspace)
      → r.get k ks ≡ none
      → r.get k
          (if next == "0"
            then (deleted, ks)
            else scan_loop r rounds next pattern batch deleted ks).1
        ≡ none
  none-next rounds next pattern batch deleted k ks gone = elim (Bool-cases (next == "0")) [
    | inl done ↦ rw done gone
    | inr more ↦ rw more (none-scan_loop rounds next pattern batch deleted k ks gone)
  ]

  module _ (scan : ScanLaws r) where
    open scan use {matches, Ahead, remaining, covers, returns_matches, advances, from_start}

    -- A key that does not match is left alone.
    scan_loop-keeps :
        (rounds : ℕ) (cursor pattern : String) (batch deleted : ℕ) (k : String) (ks : r.Keyspace)
        → matches pattern k ≡ false
        → r.get k (scan_loop r rounds cursor pattern batch deleted ks).1 ≡ r.get k ks
    unfolding scan_loop
    scan_loop-keeps zero cursor pattern batch deleted k ks h = refl
    scan_loop-keeps (suc rounds) cursor pattern batch deleted k ks h =
        let (next, keys) = r.scan cursor pattern batch ks in
        let (n, ks') = del_found r keys ks in
        let kept : r.get k ks' ≡ r.get k ks =
          ground (arith, get-del_found keys k ks, returns_matches cursor pattern k batch ks) in
        elim (Bool-cases (next == "0")) [
          | inl done ↦ rw done kept
          | inr more ↦
              rw more (scan_loop-keeps rounds next pattern batch (deleted + n) k ks' h ∙ kept)
        ]

    -- A matching key that lies ahead of the cursor is gone after enough rounds.
    scan_loop-clears :
        (rounds : ℕ) (cursor pattern : String) (batch deleted : ℕ) (k : String) (ks : r.Keyspace)
        → remaining cursor < rounds
        → Ahead cursor k
        → matches pattern k ≡ true
        → r.get k (scan_loop r rounds cursor pattern batch deleted ks).1 ≡ none
    unfolding scan_loop
    scan_loop-clears zero cursor pattern batch deleted k ks enough ahead h = absurd (omega arith)
    scan_loop-clears (suc rounds) cursor pattern batch deleted k ks enough ahead h =
        elim (Option-cases (r.get k ks)) [
          | inl gone ↦ none-scan_loop (suc rounds) cursor pattern batch deleted k ks gone
          | inr (v, there) ↦ elim (covers cursor pattern k batch ks ahead (rw there) h) [
            | inl found ↦
                let (next, keys) = r.scan cursor pattern batch ks in
                let (n, ks') = del_found r keys ks in
                let gone : r.get k ks' ≡ none = ground (arith, get-del_found keys k ks) in
                none-next rounds next pattern batch (deleted + n) k ks' gone
            | inr (ne, ahead') ↦
                let (next, keys) = r.scan cursor pattern batch ks in
                let (n, ks') = del_found r keys ks in
                rw (not_same next "0" ne) (
                  scan_loop-clears rounds next pattern batch (deleted + n) k ks'
                    (omega (arith, advances cursor pattern batch ks ne)) ahead' h)
          ]
        ]

-- With enough rounds for a full iteration, `deleteByPattern` removes exactly the keys that match
-- the pattern: a key that matches is gone, and every other key keeps its value.
pub delete_by_pattern_lem :
    (env : Env) (laws : RedisLaws env.redis) (scan : ScanLaws env.redis) (pattern k : String)
    (w : World env)
    → scan.remaining "0" < env.scan_rounds
    → env.redis.get k (delete_by_pattern env pattern w).1.keys
      ≡ (if scan.matches pattern k then none else env.redis.get k w.keys)
unfolding delete_by_pattern
delete_by_pattern_lem env laws scan pattern k w enough =
    elim (Bool-cases (scan.matches pattern k)) [
      | inl found ↦ rw found (
          scan_loop-clears env.redis laws scan env.scan_rounds "0" pattern 500 0 k w.keys enough
            (scan.from_start k) found)
      | inr missed ↦
          rw missed
            (scan_loop-keeps env.redis laws scan env.scan_rounds "0" pattern 500 0 k w.keys missed)
    ]
