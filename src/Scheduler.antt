-- ===== src/Scheduler.antt =====
-- scheduler/dispatcher.py: `TaskScheduler`.
pub mod Chain
pub mod Leadership
pub mod Attempt
pub mod Dispatch
use distributed_ai_networkin.State.{Etcd}
use distributed_ai_networkin.Interfaces.{Signing}
use distributed_ai_networkin.Security.Algorithms.{PqcConfig}
use distributed_ai_networkin.Prelude.Floats.{Floats}
use distributed_ai_networkin.Prelude.Dict.{Dict}
use distributed_ai_networkin.Prelude.Dict
use distributed_ai_networkin.Prelude.{ℕ, String, Bool, Option, none, some, [], ◌==◌, if◌then◌else◌}
use Prim.Native.String.{◌++◌ as ◌&◌}
use distributed_ai_networkin.State

pub record TaskScheduler (K : Type 0) : Type 0 where
  pub node_targets : Dict String
  -- the open channels, by the target that each was opened to
  pub channels : Dict String
  pub scheduler_id : String
  pub lease_id : ℕ
  pub is_leader : Bool
  pub signing_key : K
  pub pqc_config : PqcConfig
  -- the oqs library is installed, so that there is a signer if two signatures are required
  pub oqs_available : Bool

unfoldable pub leader_key : String
leader_key = "/distributed-ai/scheduler/leader"

unfoldable pub identity_key : String → String
identity_key id = "/distributed-ai/scheduler/" & (id & "/identity")

module _ {F K : Type 0} ⦃fl : Floats F⦄ (signing : Signing K) where
  -- `__init__` at time `now`: a lease of 30 seconds, an attempt at the leader key, the public key
  unfoldable pub init :
      F → Dict String → String → K → PqcConfig → Bool → Etcd F → TaskScheduler K × Etcd F
  init now targets id key config oqs etcd =
      let (lease, etcd') = State.grant_lease now 30 etcd in
      let (leads, etcd'') = State.compare_and_swap now leader_key none id (some lease) etcd' in
      (
        record {
          node_targets = targets;
          channels = [];
          scheduler_id = id;
          lease_id = lease;
          is_leader = leads;
          signing_key = key;
          pqc_config = config;
          oqs_available = oqs;
        },
        State.put (identity_key id) (signing.public_pem key) etcd'',
      )

module _ {K : Type 0} where
  -- a channel to an old target is dropped
  unfoldable pub register_worker : String → String → TaskScheduler K → TaskScheduler K
  register_worker node_id target s = record s {
    node_targets = Dict.put s.node_targets node_id target;
    channels = Dict.remove s.channels node_id;
  }

  -- the target of the channel to a node; `none` is a NodeUnavailableError
  unfoldable pub get_stub : String → TaskScheduler K → Option String × TaskScheduler K
  get_stub node_id s = elim (Dict.get s.channels node_id) [
    | some target ↦ (some target, s)
    | none ↦ elim (Dict.get s.node_targets node_id) [
      | none ↦ (none, s)
      | some target ↦
          if target == ""
          then (none, s)
          else (some target, record s { channels = Dict.put s.channels node_id target })
    ]
  ]
