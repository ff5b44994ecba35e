-- ===== src/Kube/Multi.antt =====
-- kube/multi.go: one lock made of a primary and its secondaries.
pub mod Agreement
pub mod Leases
pub mod Creation
pub mod Updating
use locking.Prelude.{String, Bool, true, false, not, ◌&&◌, List, [], ◌∷◌, str_eq, if◌then◌else◌}
use locking.Prelude.Result.{Result, ok, err}
use locking.Kube.ResourceLock.{Api, Lock}

pub record MultiLock (api : Api) (W : Type 0) : Type 0 where
  pub primary : Lock api W
  pub secondaries : List (Lock api W)

module _ (api : Api) where
  open api use {
    LeaderElectionRecord, Raw, holder_identity, set_holder_identity, unknown_leader, marshal,
    concat_raw_record, is_not_found,
  }

  -- One round of the loop in `Get`, after the secondary's record has arrived.
  unfoldable pub merge :
      LeaderElectionRecord → Raw → LeaderElectionRecord → Raw → Result (LeaderElectionRecord × Raw)
  merge primary record_raw secondary secondary_raw =
      if str_eq (holder_identity primary) (holder_identity secondary)
      then ok (primary, concat_raw_record record_raw secondary_raw)
      else elim (marshal unknown) [
        | ok marshaled ↦ ok (unknown, concat_raw_record marshaled secondary_raw)
        | err e ↦ err e
      ]
    where
      unknown : LeaderElectionRecord
      unknown = set_holder_identity unknown_leader primary

  -- An error of `Get` that is not "not found" is dropped: the update is tried all the same.
  abbrev pub missing : Result (LeaderElectionRecord × Raw) → Bool
  missing (ok _) = false
  missing (err e) = is_not_found e

module _ {api : Api} {W : Type 0} where
  open api use {LeaderElectionRecord, Raw, holder_identity, is_not_found, is_already_exists}

  -- The loop over the secondaries in `Get`.
  unfoldable pub get_secondaries :
      List (Lock api W) → LeaderElectionRecord → Raw → W → Result (LeaderElectionRecord × Raw) × W
  get_secondaries [] primary raw w = (ok (primary, raw), w)
  get_secondaries (l ∷ ls) primary raw w =
      let (answer, w') = l.get w in
      elim answer [
        | err e ↦
            if is_not_found e && not (str_eq (holder_identity primary) l.identity)
            then (ok (primary, raw), w')
            else (err e, w')
        | ok (secondary, secondary_raw) ↦ elim (merge api primary raw secondary secondary_raw) [
          | ok (primary', raw') ↦ get_secondaries ls primary' raw' w'
          | err e ↦ (err e, w')
        ]
      ]

  unfoldable pub get : MultiLock api W → W → Result (LeaderElectionRecord × Raw) × W
  unfolding get_secondaries
  get ml w =
      let (answer, w') = ml.primary.get w in
      elim answer [
        | ok (primary, raw) ↦ get_secondaries ml.secondaries primary raw w'
        | err e ↦ (err e, w')
      ]

  -- `Create` makes the primary's call and each secondary's by the same rule: an error other than
  -- "already exists" ends it.
  unfoldable pub create_all : List (Lock api W) → LeaderElectionRecord → W → Result (Unit {0}) × W
  create_all [] ler w = (ok tt, w)
  create_all (l ∷ ls) ler w =
      let (answer, w') = l.create ler w in
      elim answer [
        | ok _ ↦ create_all ls ler w'
        | err e ↦ elim (is_already_exists e) [ true ↦ create_all ls ler w' | false ↦ (err e, w') ]
      ]

  unfoldable pub create : MultiLock api W → LeaderElectionRecord → W → Result (Unit {0}) × W
  unfolding create_all
  create ml ler w = create_all (ml.primary ∷ ml.secondaries) ler w

  -- The loop over the secondaries in `Update`. The call of `Create` returns from the loop.
  unfoldable pub update_secondaries :
      List (Lock api W) → LeaderElectionRecord → W → Result (Unit {0}) × W
  update_secondaries [] ler w = (ok tt, w)
  update_secondaries (l ∷ ls) ler w =
      let (found, w') = l.get w in
      elim (missing api found) [
        | true ↦ l.create ler w'
        | false ↦
            let (answer, w'') = l.update ler w' in
            elim answer [ ok _ ↦ update_secondaries ls ler w'' | err e ↦ (err e, w'') ]
      ]

  unfoldable pub update : MultiLock api W → LeaderElectionRecord → W → Result (Unit {0}) × W
  unfolding update_secondaries
  update ml ler w =
      let (answer, w') = ml.primary.update ler w in
      elim answer [ ok _ ↦ update_secondaries ml.secondaries ler w' | err e ↦ (err e, w') ]

  record_event_all : List (Lock api W) → String → W → W
  record_event_all [] s w = w
  record_event_all (l ∷ ls) s w = record_event_all ls s (l.record_event s w)

  unfoldable pub record_event : MultiLock api W → String → W → W
  unfolding record_event_all
  record_event ml s w = record_event_all ml.secondaries s (ml.primary.record_event s w)

  unfoldable pub describe : MultiLock api W → String
  describe ml = ml.primary.describe

  unfoldable pub identity : MultiLock api W → String
  identity ml = ml.primary.identity

  -- A multi lock is itself a lock.
  abbrev pub as_lock : MultiLock api W → Lock api W
  as_lock ml = record {
    get = get ml;
    create = create ml;
    update = update ml;
    record_event = record_event ml;
    describe = describe ml;
    identity = identity ml;
  }
