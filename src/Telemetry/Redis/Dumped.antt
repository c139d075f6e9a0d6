-- ===== src/Telemetry/Redis/Dumped.antt =====
-- Lists of snapshots as the dict of their texts.
use distributed_ai_networkin.Prelude.{
  String, ◌≡◌, refl, sym, ap, ◌∙◌, false, Option, none, some, List, [], ◌∷◌, map, arith, eq_iff,
  eq_refl, Option-cases, contains, All, Distinct,
}
use distributed_ai_networkin.Telemetry.Redis.{validate_all}
use distributed_ai_networkin.Telemetry.Redis.Calls.{by_node, SnapshotLaws, IsDumpable}
use distributed_ai_networkin.Interfaces.{Codec}
use distributed_ai_networkin.Contracts.Models.{NodeTelemetrySnapshot}
use distributed_ai_networkin.Prelude.Dict.{contains-keys, Dict}
use distributed_ai_networkin.Prelude.Floats.{Floats}
use mathlib.Core.Option
use distributed_ai_networkin.Prelude.Dict

-- What holds of every field as it reads holds of every entry.
pub entries_of_get {ℓ κ} :
    {V : Type ℓ} (P : String → V → Type κ) (d : Dict V)
    → Distinct (Dict.keys d)
    → ((k : String) (v : V) → Dict.get d k ≡ some v → P k v)
    → All (λ e. P e.0 e.1) d
unfolding Dict.get
entries_of_get P [] distinct h = tt
entries_of_get P ((j, w) ∷ d) distinct h = (
  h j w (rw eq_refl refl),
  entries_of_get P d distinct.1
      (λ k v e. h k v (ground (arith, e, eq_iff j k, contains-keys d k, distinct.0))),
)

module _ {F : Type 0} ⦃fl : Floats F⦄ (codec : Codec (NodeTelemetrySnapshot F))
    (laws : SnapshotLaws codec) where
  abbrev pub dumped : List (NodeTelemetrySnapshot F) → Dict String
  dumped = map (λ snap. (snap.node_id, codec.encode snap))

  pub get-dumped :
      (l : List (NodeTelemetrySnapshot F)) (k : String)
      → Dict.get (dumped l) k ≡ Option.map codec.encode (Dict.get (by_node l) k)
  unfolding Dict.get
  get-dumped [] k = refl
  get-dumped (snap ∷ l) k = ground (arith, get-dumped l k)

  pub keys-dumped :
      (l : List (NodeTelemetrySnapshot F)) → Dict.keys (dumped l) ≡ Dict.keys (by_node l)
  keys-dumped [] = refl
  keys-dumped (snap ∷ l) = ap (◌∷◌ snap.node_id) (keys-dumped l)

  encode_inj :
      (a b : NodeTelemetrySnapshot F)
      → IsDumpable a
      → IsDumpable b
      → codec.encode a ≡ codec.encode b
      → a ≡ b
  encode_inj a b ha hb e =
      let same = sym (laws.decode-encode a ha) ∙ ap codec.decode e ∙ laws.decode-encode b hb in
      ground (arith, same)

  pub encode_all_inj :
      (a b : Option (NodeTelemetrySnapshot F))
      → ((snap : NodeTelemetrySnapshot F) → a ≡ some snap → IsDumpable snap)
      → ((snap : NodeTelemetrySnapshot F) → b ≡ some snap → IsDumpable snap)
      → Option.map codec.encode a ≡ Option.map codec.encode b
      → a ≡ b
  encode_all_inj none none ha hb e = refl
  encode_all_inj none (some b) ha hb e = ground arith
  encode_all_inj (some a) none ha hb e = ground arith
  encode_all_inj (some a) (some b) ha hb e =
      ap some (encode_inj a b (ha a refl) (hb b refl) (ground (arith, e)))

  pub validate_all-dumped :
      (d : Dict String)
      → All
          (λ e.
            (snap : NodeTelemetrySnapshot F) × (e.1 ≡ codec.encode snap)
            × (snap.node_id ≡ e.0)
            × IsDumpable snap)
          d
      → (l : List (NodeTelemetrySnapshot F)) × (validate_all codec (Dict.values d) ≡ some l)
        × (d ≡ dumped l)
        × All IsDumpable (Dict.values (by_node l))
  unfolding validate_all
  validate_all-dumped [] h = ([], refl, refl, tt)
  validate_all-dumped ((k, v) ∷ d) ((snap, is_dump, mine, dumpable), rest) =
      let (l, all, same, others) = validate_all-dumped d rest in
      (
        snap ∷ l,
        rw is_dump (rw (laws.decode-encode snap dumpable) (rw all refl)),
        rw (is_dump, mine, same) refl,
        (dumpable, others),
      )

  pub none_left :
      (l : List (NodeTelemetrySnapshot F)) (k : String)
      → contains k (Dict.keys (by_node l)) ≡ false
      → Dict.get (by_node l) k ≡ none
  none_left l k h =
      ground (arith, contains-keys (by_node l) k, Option-cases (Dict.get (by_node l) k))
