-- ===== src/Kube/Config.antt =====
-- kube/locker.go, kube/single.go and the constructor of kube/multi.go: a lock's configuration, the
-- locks that it describes, and the start of the leader elector. Durations are in nanoseconds.
pub mod Validation
pub mod Start
use Prim.Native.String.{◌++◌}
use mathlib.Core.Option.{map as option_map}
use locking.Prelude.{
  ℕ, suc, ◌*◌, ◌^◌, ◌/◌, String, Bool, true, false, List, [], ◌∷◌, Option, none, some, ltb, leb,
  ◌==◌, str_eq, if◌then◌else◌, length,
}
use locking.Prelude.Result.{
  Error, Result, ok, err, text, panic, ◌>>=◌, ◌>>◌, reject_if, wrap_err, traverse,
}

-- What the package calls: client-go, controller-runtime's event recorders, the host and the random
-- identifiers.
pub record Platform : Type 1 where
  pub RestConfig : Type 0
  pub Client : Type 0
  pub Provider : Type 0
  pub EventRecorder : Type 0
  pub add_user_agent : RestConfig → String → RestConfig
  pub set_timeout : ℕ → RestConfig → RestConfig
  pub new_for_config : RestConfig → Result Client
  pub get_event_recorder_for : Provider → String → EventRecorder
  pub hostname : Result String
  pub new_uuid : String

abbrev pub second : ℕ
second = 10 ^ 9

abbrev pub default_renew_deadline : ℕ
default_renew_deadline = 15 * second

abbrev pub default_lease_duration : ℕ
default_lease_duration = 30 * second

abbrev pub default_retry_period : ℕ
default_retry_period = 5 * second

pub record ClusterNamespaceConfig (p : Platform) : Type 0 where
  pub namespace : String
  pub config : Option p.RestConfig

pub record LockConfiguration (p : Platform) : Type 0 where
  pub id : String
  pub name : String
  pub configs : List (ClusterNamespaceConfig p)
  pub leader_labels : List (String × String)
  pub renew_deadline : ℕ
  pub lease_duration : ℕ
  pub retry_period : ℕ
  pub recorder_provider : Option p.Provider

-- `resourcelock.LeaseLock` with the fields that the program sets.
pub record LeaseLock (p : Platform) : Type 0 where
  pub namespace : String
  pub name : String
  pub client : p.Client
  pub identity : String
  pub event_recorder : Option p.EventRecorder
  pub labels : List (String × String)

pub data ResourceLock (p : Platform) : Type 0 where
  single : LeaseLock p → ResourceLock p
  multi : LeaseLock p → List (LeaseLock p) → ResourceLock p

-- `leaderelection.LeaderElectionConfig` without its callbacks (Kube/Elector).
pub record ElectorConfig (p : Platform) : Type 0 where
  pub lock : ResourceLock p
  pub lease_duration : ℕ
  pub renew_deadline : ℕ
  pub retry_period : ℕ
  pub release_on_cancel : Bool
  pub name : String

abbrev default_to : ℕ → ℕ → ℕ
default_to d x = if x == 0 then d else x

abbrev is_none {ℓ} : {A : Type ℓ} → Option A → Bool
is_none none = true
is_none (some _) = false

-- A deadline of 0 leaves the client's timeout as it is.
unfoldable pub client_config : (p : Platform) → ℕ → p.RestConfig → p.RestConfig
client_config p renew_deadline c =
    if renew_deadline == 0
    then c
    else p.set_timeout (if ltb (renew_deadline / 2) second then second else renew_deadline / 2) c

-- The inner `id` of the branch for an empty ID: it goes out of scope with the branch.
inner_id : (p : Platform) → String → Result String
inner_id p id =
    if str_eq id "" then (do host ← p.hostname; ok (host ++ ("_" ++ p.new_uuid))) else ok id

module _ {p : Platform} where
  -- The loop of `validate` over the clusters.
  unfoldable pub validate_configs : List (ClusterNamespaceConfig p) → Result (Unit {0})
  validate_configs [] = ok tt
  validate_configs (c ∷ cs) = do
    reject_if (str_eq c.namespace "") "all lock configs must specify namespace"
    reject_if (is_none c.config) "all lock configs must specify kube config"
    validate_configs cs

  unfoldable pub validate : LockConfiguration p → Result (LockConfiguration p)
  validate lc = do
    reject_if (str_eq lc.name "") "lock name must be specified"
    reject_if (length lc.configs == 0) "configurations must be specified"
    validate_configs lc.configs
    ok (record lc {
      renew_deadline = default_to default_renew_deadline lc.renew_deadline;
      lease_duration = default_to default_lease_duration lc.lease_duration;
      retry_period = default_to default_retry_period lc.retry_period;
    })

  unfoldable pub new_single_resource_lock :
      String → LockConfiguration p → ClusterNamespaceConfig p → Result (LeaseLock p)
  unfolding client_config
  new_single_resource_lock id config cn = elim cn.config [
    | none ↦ err (panic "nil rest.Config")
    | some c ↦ do
      client ←
          p.new_for_config
            (client_config p config.renew_deadline (p.add_user_agent c "leader-election"))
      ok (record {
        namespace = cn.namespace;
        name = config.name;
        client = client;
        identity = id;
        event_recorder = option_map (λ r. p.get_event_recorder_for r id) config.recorder_provider;
        labels = config.leader_labels;
      })
  ]

  -- The secondaries are made first. The slice `Configs[1:]` is the tail of the list.
  unfoldable pub new_multi_resource_lock :
      String → LockConfiguration p → List (ClusterNamespaceConfig p) → Result (ResourceLock p)
  unfolding new_single_resource_lock
  new_multi_resource_lock id config (first ∷ second_config ∷ rest) = do
    secondaries ← traverse (new_single_resource_lock id config) (second_config ∷ rest)
    primary ← new_single_resource_lock id config first
    ok (multi primary secondaries)
  new_multi_resource_lock id config _ =
      err (text "at least two configurations are required to create a multi resource lock")

  elector_config : ResourceLock p → LockConfiguration p → ElectorConfig p
  elector_config lock config = record {
    lock = lock;
    lease_duration = config.lease_duration;
    renew_deadline = config.renew_deadline;
    retry_period = config.retry_period;
    release_on_cancel = true;
    name = config.name;
  }

  -- `check` is the part of `leaderelection.NewLeaderElector` that may refuse a configuration.
  unfoldable pub leader_elector :
      (ElectorConfig p → Result (Unit {0}))
      → ResourceLock p
      → LockConfiguration p
      → Result (ElectorConfig p)
  unfolding elector_config
  leader_elector check lock config = do
    wrap_err "failed to initialize leader elector" (check (elector_config lock config))
    ok (elector_config lock config)

  new_resource_lock :
      String → LockConfiguration p → List (ClusterNamespaceConfig p) → Result (ResourceLock p)
  unfolding new_single_resource_lock new_multi_resource_lock
  new_resource_lock id config (cn ∷ []) = do
    lock ← new_single_resource_lock id config cn
    ok (single lock)
  new_resource_lock id config cns = new_multi_resource_lock id config cns

  -- The elector that `Run` starts and waits for.
  unfoldable pub run :
      (ElectorConfig p → Result (Unit {0})) → LockConfiguration p → Result (ElectorConfig p)
  unfolding validate inner_id new_resource_lock leader_elector
  run check given = do
    config ← validate given
    shadowed ← inner_id p config.id
    lock ←
        wrap_err "could not create resource lock"
          (new_resource_lock config.id config config.configs)
    wrap_err "could not create leader elector" (leader_elector check lock config)
