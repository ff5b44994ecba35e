-- ===== src/Kube/ResourceLock.antt =====
-- What kube/ relies on of client-go's resourcelock and apimachinery's errors packages.
use locking.Prelude.{String, ◌≡◌, Bool}
use locking.Prelude.Result.{Error, Result}

-- The election record, its JSON text, and the classes of API errors. The program reads and writes
-- no field of a record but `HolderIdentity`.
pub record Api : Type 1 where
  pub LeaderElectionRecord : Type 0
  pub Raw : Type 0
  pub holder_identity : LeaderElectionRecord → String
  pub set_holder_identity : String → LeaderElectionRecord → LeaderElectionRecord
  pub unknown_leader : String
  pub marshal : LeaderElectionRecord → Result Raw
  pub concat_raw_record : Raw → Raw → Raw
  pub is_not_found : Error → Bool
  pub is_already_exists : Error → Bool
  -- An assignment to the field is what the next read of it gives.
  pub holder_identity-set :
      (s : String) (r : LeaderElectionRecord) → holder_identity (set_holder_identity s r) ≡ s

-- `resourcelock.Interface` over a world `W`: the API servers that hold the leases.
pub record Lock (api : Api) (W : Type 0) : Type 0 where
  pub get : W → Result (api.LeaderElectionRecord × api.Raw) × W
  pub create : api.LeaderElectionRecord → W → Result (Unit {0}) × W
  pub update : api.LeaderElectionRecord → W → Result (Unit {0}) × W
  pub record_event : String → W → W
  pub describe : String
  pub identity : String
