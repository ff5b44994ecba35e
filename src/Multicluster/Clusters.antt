-- ===== src/Multicluster/Clusters.antt =====
-- The clusters of the runtime manager and their names: `GetClusterNames` of multicluster/manager.go
-- over the closure that raft.go gives it.
pub mod Listing
use locking.Prelude.{String, List, [], ◌∷◌, ◌++◌, Option, none, some, map}
use locking.Prelude.Result.{Result, ok, err}
use locking.Prelude.Map.{insert, string_key}

-- A name that the provider does not have any more is left out.
abbrev pub keep_ok : {C : Type 0} → String → Result C → List (String × C) → List (String × C)
keep_ok name (ok c) clusters = insert name c clusters
keep_ok name (err e) clusters = clusters

-- `C` is the type of clusters, and `get` the provider's answer to a name.
module _ {C : Type 0} (get : String → Result C) where
  -- The loop over the provider's names.
  unfoldable pub add_gotten : List String → List (String × C) → List (String × C)
  add_gotten [] clusters = clusters
  add_gotten (name ∷ names) clusters = add_gotten names (keep_ok name (get name) clusters)

  unfoldable pub get_clusters : List String → List (String × C)
  get_clusters names = add_gotten names []

abbrev pub keys : {C : Type 0} → List (String × C) → List String
keys [] = []
keys ((name, _) ∷ m) = name ∷ keys m

-- `local` is `mcmanager.LocalCluster`, `order` the order in which Go ranges over a map, and `sort` is
-- `sort.Strings`.
unfoldable pub get_cluster_names :
    {C : Type 0}
    → String
    → (List String → List String)
    → (List String → List String)
    → Option (List (String × C))
    → List String
get_cluster_names local order sort none = local ∷ []
get_cluster_names local order sort (some clusters) = sort ((local ∷ []) ++ order (keys clusters))
