-- ===== src/Telemetry/Redis/Refines.antt =====
-- The Redis store against the in-memory store: the same calls, the same reads.
use distributed_ai_networkin.Prelude.{
  String, ◌≡◌, refl, sym, ap, ◌∙◌, subst, inl, inr, false, Option, none, some, List, [], ◌∷◌, arith,
  ◌==◌, eq_iff, Bool-cases, contains, Distinct,
}
use distributed_ai_networkin.Telemetry.Redis.Calls.{
  SnapshotLaws, IsDumpable, AllDumpable, StaysDumpable, clear_call, threshold_call, age_call,
  record_call, step, step_redis, Holds, by_node, run_redis, Call, run, RedisLaws,
}
use distributed_ai_networkin.Telemetry.Redis.Dumped.{
  get-dumped, encode_all_inj, keys-dumped, validate_all-dumped, entries_of_get, none_left,
}
use distributed_ai_networkin.Telemetry.Store.Laws.{get-age_all}
use distributed_ai_networkin.Prelude.Dict.{get-put}
use distributed_ai_networkin.Telemetry.Redis.{
  hset_snapshot, hash_key, read_data, hset_aged, RedisTelemetryStore, RedisServer,
}
use distributed_ai_networkin.Telemetry.Store.{TelemetryStore, aged}
use distributed_ai_networkin.Interfaces.{Codec}
use distributed_ai_networkin.Contracts.Models.{NodeTelemetrySnapshot}
use distributed_ai_networkin.Prelude.Floats.{Floats}
use mathlib.Core.Option
use distributed_ai_networkin.Prelude.Dict
use distributed_ai_networkin.Telemetry.Store
use distributed_ai_networkin.Telemetry.Redis

module _ {R F : Type 0} ⦃fl : Floats F⦄ (server : RedisServer R) (laws : RedisLaws server)
    (codec : Codec (NodeTelemetrySnapshot F)) (codec_laws : SnapshotLaws codec) where
  -- the text of a field after the ages are advanced
  abbrev aged_text : F → Option (NodeTelemetrySnapshot F) → Option String → Option String
  aged_text now none old = old
  aged_text now (some snap) old = some (codec.encode (aged now snap))

  hget-hset_aged :
      (now : F) (l : List (NodeTelemetrySnapshot F)) (k : String) (r : R)
      → Distinct (Dict.keys (by_node l))
      → server.hget hash_key k (hset_aged server codec now l r)
        ≡ aged_text now (Dict.get (by_node l) k) (server.hget hash_key k r)
  unfolding hset_aged Dict.get aged
  hget-hset_aged now [] k r distinct = refl
  hget-hset_aged now (snap ∷ l) k r distinct =
      let r' = hset_snapshot server codec (aged now snap) r in
      let after = hget-hset_aged now l k r' distinct.1 in
      let here = laws.hget-hset hash_key snap.node_id k (codec.encode (aged now snap)) r in
      elim (Bool-cases (snap.node_id == k)) [
        | inl e ↦
            let gone = none_left codec codec_laws l k (
              subst (λ n. contains n (Dict.keys (by_node l)) ≡ false) ((eq_iff snap.node_id k).0 e)
                distinct.0) in
            rw e (after ∙ rw gone (here ∙ rw e refl))
        | inr e ↦ rw e (after ∙ ap (aged_text now (Dict.get (by_node l) k)) (here ∙ rw e refl))
      ]

  entry_of :
      (k v : String) (o : Option (NodeTelemetrySnapshot F))
      → ((snap : NodeTelemetrySnapshot F) → o ≡ some snap → snap.node_id ≡ k)
      → ((snap : NodeTelemetrySnapshot F) → o ≡ some snap → IsDumpable snap)
      → Option.map codec.encode o ≡ some v
      → (snap : NodeTelemetrySnapshot F) × (v ≡ codec.encode snap)
        × (snap.node_id ≡ k)
        × IsDumpable snap
  entry_of k v none named dumpable e = ground (arith, e)
  entry_of k v (some snap) named dumpable e =
      (snap, ground (arith, e), named snap refl, dumpable snap refl)

  -- Reading all snapshots of a server that holds a store's gives each node's once.
  get_all_snapshots-Holds :
      (r : RedisTelemetryStore R F) (s : TelemetryStore F)
      → Holds server codec r s
      → (l : List (NodeTelemetrySnapshot F)) × ((Redis.get_all_snapshots server codec r ≡ some l)
          × (Distinct (Dict.keys (by_node l))
              × ((k : String) → Dict.get (by_node l) k ≡ Store.get_snapshot s k)))
  unfolding Redis.get_all_snapshots
  get_all_snapshots-Holds r s h =
      let d = server.hgetall hash_key r.redis in
      let distinct = laws.hgetall-Distinct hash_key r.redis in
      let text_of : (k : String) → Dict.get d k ≡ Option.map codec.encode (Store.get_snapshot s k) =
        λ k. laws.get-hgetall hash_key k r.redis ∙ h.texts k in
      let entries =
        entries_of_get
          (λ k v.
            (snap : NodeTelemetrySnapshot F) × (v ≡ codec.encode snap)
            × (snap.node_id ≡ k)
            × IsDumpable snap)
          d distinct
          (λ k v e.
            entry_of k v (Store.get_snapshot s k) (h.named k) (h.dumpable k)
              (sym (text_of k) ∙ e)) in
      let (l, all, same, dumpable) = validate_all-dumped codec codec_laws d entries in
      (
        l,
        (
          all,
          (
            subst Distinct (ap Dict.keys same ∙ keys-dumped codec codec_laws l) distinct,
            λ k.
                encode_all_inj codec codec_laws _ _
                  (λ snap e. Dict.get-All IsDumpable (by_node l) k snap dumpable e) (h.dumpable k)
                  (sym (get-dumped codec codec_laws l k)
                    ∙ ap (λ e. Dict.get e k) (sym same)
                    ∙ text_of k),
          ),
        ),
      )

  aged_text-map :
      (now : F) (o : Option (NodeTelemetrySnapshot F))
      → aged_text now o (Option.map codec.encode o)
        ≡ Option.map codec.encode (Option.map (aged now) o)
  aged_text-map now none = refl
  aged_text-map now (some snap) = refl

  aged_named :
      (now : F) (k : String) (snap : NodeTelemetrySnapshot F) (o : Option (NodeTelemetrySnapshot F))
      → ((old : NodeTelemetrySnapshot F) → o ≡ some old → old.node_id ≡ k)
      → Option.map (aged now) o ≡ some snap
      → snap.node_id ≡ k
  unfolding aged
  aged_named now k snap none named e = ground (arith, e)
  aged_named now k snap (some old) named e = ground (arith, e, named old refl)

  read_data-encode :
      (o : Option (NodeTelemetrySnapshot F))
      → ((snap : NodeTelemetrySnapshot F) → o ≡ some snap → IsDumpable snap)
      → read_data codec (Option.map codec.encode o) ≡ some o
  read_data-encode none dumpable = refl
  read_data-encode (some snap) dumpable =
      rw (codec_laws.encode-ne-empty snap, codec_laws.decode-encode snap (dumpable snap refl)) refl

  record_snapshot-Holds :
      (snap : NodeTelemetrySnapshot F) (r : RedisTelemetryStore R F) (s : TelemetryStore F)
      → Holds server codec r s
      → AllDumpable (Store.record_snapshot snap s)
      → Holds server codec
          (Redis.record_snapshot server codec snap r)
          (Store.record_snapshot snap s)
  unfolding Redis.record_snapshot Store.record_snapshot Store.get_snapshot
  record_snapshot-Holds snap r s h dumpable = record {
    dumpable = dumpable;
    texts = λ k. ground (
      arith,
      laws.hget-hset hash_key snap.node_id k (codec.encode snap) r.redis,
      get-put s.snapshots snap.node_id k snap,
      h.texts k,
    );
    named = λ k found e.
        ground (
          arith,
          e,
          get-put s.snapshots snap.node_id k snap,
          eq_iff snap.node_id k,
          h.named k found,
        );
    threshold = h.threshold;
  }

  update_heartbeat_age-Holds :
      (now : F) (r : RedisTelemetryStore R F) (s : TelemetryStore F)
      → Holds server codec r s
      → AllDumpable (Store.update_heartbeat_age now s)
      → (r' : RedisTelemetryStore R F) × ((Redis.update_heartbeat_age server codec now r ≡ some r')
          × Holds server codec r' (Store.update_heartbeat_age now s))
  unfolding Redis.update_heartbeat_age Store.update_heartbeat_age Store.get_snapshot
  update_heartbeat_age-Holds now r s h dumpable =
      let (l, (all, (distinct, same))) = get_all_snapshots-Holds r s h in
      (
        record r { redis = hset_aged server codec now l r.redis },
        (
          rw all refl,
          record {
            dumpable = dumpable;
            texts = λ k.
                hget-hset_aged now l k r.redis distinct
                ∙ rw (same k, h.texts k, get-age_all) (aged_text-map now (Dict.get s.snapshots k));
            named = λ k snap e.
                aged_named now k snap (Dict.get s.snapshots k) (h.named k)
                  (sym (get-age_all now s.snapshots k) ∙ e);
            threshold = h.threshold;
          },
        ),
      )

  step_redis-Holds :
      (call : Call F) (r : RedisTelemetryStore R F) (s : TelemetryStore F)
      → Holds server codec r s
      → AllDumpable (step call s)
      → (r' : RedisTelemetryStore R F) × ((step_redis server codec call r ≡ some r')
          × Holds server codec r' (step call s))
  unfolding Redis.clear Store.clear Redis.set_staleness_threshold Store.set_staleness_threshold
      Store.get_snapshot Dict.get
  step_redis-Holds (record_call snap) r s h d = (_, (refl, record_snapshot-Holds snap r s h d))
  step_redis-Holds (age_call now) r s h d = update_heartbeat_age-Holds now r s h d
  step_redis-Holds clear_call r s h d = (
    _,
    (
      refl,
      record {
        dumpable = d;
        texts = λ k. laws.hget-delete hash_key k r.redis;
        named = λ k snap e. ground (arith, e);
        threshold = h.threshold;
      },
    ),
  )
  step_redis-Holds (threshold_call v) r s h d =
      (_, (refl, record { dumpable = d; texts = h.texts; named = h.named; threshold = refl }))

  run_redis-Holds :
      (calls : List (Call F)) (r : RedisTelemetryStore R F) (s : TelemetryStore F)
      → Holds server codec r s
      → StaysDumpable calls s
      → (r' : RedisTelemetryStore R F) × ((run_redis server codec calls (some r) ≡ some r')
          × Holds server codec r' (run calls s))
  unfolding run run_redis StaysDumpable
  run_redis-Holds [] r s h d = (r, (refl, h))
  run_redis-Holds (call ∷ calls) r s h d =
      let (r', (e, h')) = step_redis-Holds call r s h d.0 in
      let (r'', (e', h'')) = run_redis-Holds calls r' (step call s) h' d.1 in
      (r'', (ap (run_redis server codec calls) e ∙ e', h''))

  get_snapshot-Holds :
      (r : RedisTelemetryStore R F) (s : TelemetryStore F) (k : String)
      → Holds server codec r s
      → Redis.get_snapshot server codec r k ≡ some (Store.get_snapshot s k)
  unfolding Redis.get_snapshot
  get_snapshot-Holds r s k h =
      rw (h.texts k) (read_data-encode (Store.get_snapshot s k) (h.dumpable k))

  -- After any run of calls on a hash that was empty, after each of which every snapshot in the store is within the bounds of its model and has finite numbers, the Redis store has raised no error and agrees with the in-memory store after the same calls: every node reads as the same snapshot or as none in both, and the list of all snapshots has each node's once and no others.
  pub run_redis-run :
      (calls : List (Call F)) (r : R) (threshold : F)
      → ((k : String) → server.hget hash_key k r ≡ none)
      → StaysDumpable calls (Store.init threshold)
      → let s' = run calls (Store.init threshold) in
        (r' : RedisTelemetryStore R F) × ((run_redis server codec calls
              (some (record { redis = r; staleness_threshold_ms = threshold }))
            ≡ some r')
          × (((k : String) → Redis.get_snapshot server codec r' k ≡ some (Store.get_snapshot s' k))
              × ((l : List (NodeTelemetrySnapshot F)) × ((Redis.get_all_snapshots server codec r'
                      ≡ some l)
                    × (Distinct (Dict.keys (by_node l))
                        × ((k : String) → Dict.get (by_node l) k ≡ Store.get_snapshot s' k))))))
  unfolding Store.get_snapshot Dict.get
  run_redis-run calls r threshold empty_hash stays =
      let holds : Holds server codec (record { redis = r; staleness_threshold_ms = threshold })
          (Store.init threshold) =
        record {
          texts = empty_hash;
          dumpable = λ k snap e. ground (arith, e);
          named = λ k snap e. ground (arith, e);
          threshold = refl;
        } in
      let (r', (e, h)) =
        run_redis-Holds calls (record { redis = r; staleness_threshold_ms = threshold })
          (Store.init threshold) holds stays in
      (
        r',
        (
          e,
          (
            λ k. get_snapshot-Holds r' (run calls (Store.init threshold)) k h,
            get_all_snapshots-Holds r' (run calls (Store.init threshold)) h,
          ),
        ),
      )
