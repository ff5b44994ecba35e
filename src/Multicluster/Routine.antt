-- ===== src/Multicluster/Routine.antt =====
-- The body of a leader routine of multicluster/raft.go: the leader fetches a peer's kubeconfig over
-- gRPC, and adds the cluster that it leads to.
pub mod Added
use locking.Prelude.{
  ◌≡◌, ◌≢◌, refl, sym, ap, ◌∙◌, subst, ◌⊎◌, inl, inr, String, ℕ, Bool, true, List, [],
}
use locking.Prelude.Result.{Error, Result, ok, err, ok-injective, ◌>>=◌, >>=-eq-ok, Result-cases}
use locking.Raft.Config.{LockConfiguration, LockerNode}
use locking.Raft.Transport.{client_for}
use locking.Raft.Transport
use locking.Multicluster.Node.{FetchRoutine, load_kubeconfig_from_bytes}
use locking.Multicluster.Node

-- What the routines share: the provider, and whether a signal waits in the channel `restart`, which
-- holds one.
pub record Shared (p : Node.Platform) : Type 0 where
  pub cluster_provider : p.Provider
  pub restart : Bool

-- The routine ended with an error, or it waits for the end of its context, and then returns no error.
pub data Outcome : Type 0 where
  failed : Error → Outcome
  waits : Outcome

IsWaiting : Outcome → Type 0
IsWaiting (failed _) = ⊥
IsWaiting waits = Unit

failed_ne_waits : (e : Error) → failed e ≢ waits
unfolding IsWaiting
failed_ne_waits e h = subst IsWaiting (sym h) tt

-- `new_cluster` is `cluster.New` with the manager's scheme and logger.
module _ (w : Transport.Platform) (p : Node.Platform) (rpc_kubeconfig : w.Client → Result (List ℕ))
    (new_cluster : p.RestConfig → Result p.Cluster)
    (add_or_replace : String → p.Cluster → p.Provider → Result (Unit {0}) × p.Provider) where
  unfoldable pub fetch_cluster : LockConfiguration → FetchRoutine → Result p.Cluster
  fetch_cluster raft_config r = do
    node ← r.asks
    client ← client_for w raft_config node []
    payload ← rpc_kubeconfig client
    kube_config ← load_kubeconfig_from_bytes p payload
    new_cluster kube_config

  -- What follows the call of `AddOrReplace`. The send to `restart` is dropped if a signal waits
  -- already.
  abbrev after_add : Result (Unit {0}) × p.Provider → Shared p → Outcome × Shared p
  after_add (err e, provider) s = (failed e, record s { cluster_provider = provider })
  after_add (ok _, provider) s = (waits, record { cluster_provider = provider; restart = true })

  unfoldable pub run_fetch : LockConfiguration → FetchRoutine → Shared p → Outcome × Shared p
  run_fetch raft_config r s = elim (fetch_cluster raft_config r) [
    | err e ↦ (failed e, s)
    | ok c ↦ after_add (add_or_replace r.peer_name c s.cluster_provider) s
  ]

  -- The cluster of the kubeconfig that the node gave is the one that was added under the name.
  abbrev pub IsAdded : LockConfiguration → String → LockerNode → p.Provider → p.Provider → Type 0
  IsAdded raft_config name node before then =
      (client : w.Client) × (payload : List ℕ) × (kube_config : p.RestConfig) × (c : p.Cluster)
      × (client_for w raft_config node [] ≡ ok client)
      × (rpc_kubeconfig client ≡ ok payload)
      × (load_kubeconfig_from_bytes p payload ≡ ok kube_config)
      × (new_cluster kube_config ≡ ok c)
      × (add_or_replace name c before ≡ (ok tt, then))

  pub fetch_cluster-asked :
      (raft_config : LockConfiguration) (r : FetchRoutine) (node : LockerNode) (c : p.Cluster)
      → r.asks ≡ ok node
      → fetch_cluster raft_config r ≡ ok c
      → (client : w.Client) × (payload : List ℕ) × (kube_config : p.RestConfig) × (client_for w
            raft_config node []
          ≡ ok client)
        × (rpc_kubeconfig client ≡ ok payload)
        × (load_kubeconfig_from_bytes p payload ≡ ok kube_config)
        × (new_cluster kube_config ≡ ok c)
  unfolding fetch_cluster
  fetch_cluster-asked raft_config r node c asks h =
      let (node', en, h1) = >>=-eq-ok r.asks _ h in
      let same : node' ≡ node = ok-injective (sym en ∙ asks) in
      let (client, ec, h2) = >>=-eq-ok (client_for w raft_config node' []) _ h1 in
      let (payload, ep, h3) = >>=-eq-ok (rpc_kubeconfig client) _ h2 in
      let (kube_config, ek, h4) = >>=-eq-ok (load_kubeconfig_from_bytes p payload) _ h3 in
      (
        client,
        payload,
        kube_config,
        ap (λ q. client_for w raft_config q []) (sym same) ∙ ec,
        ep,
        ek,
        h4,
      )

  after_add-waits :
      (r : Result (Unit {0}) × p.Provider) (s t : Shared p)
      → after_add r s ≡ (waits, t)
      → (r ≡ (ok tt, t.cluster_provider)) × (t.restart ≡ true)
  after_add-waits (err e, provider) s t h = absurd (failed_ne_waits e (ap (λ x. x.0) h))
  after_add-waits (ok tt, provider) s t h =
      (ap (λ x. (ok tt, x.1.cluster_provider)) h, sym (ap (λ x. x.1.restart) h))

  -- A run that comes to wait has added the cluster, and left a restart signal.
  pub run_fetch-IsAdded :
      (raft_config : LockConfiguration) (r : FetchRoutine) (node : LockerNode) (s t : Shared p)
      → r.asks ≡ ok node
      → run_fetch raft_config r s ≡ (waits, t)
      → IsAdded raft_config r.peer_name node s.cluster_provider t.cluster_provider
        × (t.restart ≡ true)
  unfolding run_fetch
  run_fetch-IsAdded raft_config r node s t asks h =
      elim (Result-cases (fetch_cluster raft_config r)) [
        | inr (e, q) ↦
            let ended : run_fetch raft_config r s ≡ (failed e, s) = rw (q, run_fetch) refl in
            absurd (failed_ne_waits e (ap (λ x. x.0) (sym ended ∙ h)))
        | inl (c, q) ↦
            let added : run_fetch raft_config r s
                ≡ after_add (add_or_replace r.peer_name c s.cluster_provider) s =
              rw (q, run_fetch) refl in
            let (client, payload, kube_config, ec, ep, ek, en) =
              fetch_cluster-asked raft_config r node c asks q in
            let (e, signal) =
              after_add-waits (add_or_replace r.peer_name c s.cluster_provider) s t
                (sym added ∙ h) in
            ((client, payload, kube_config, c, ec, ep, ek, en, e), signal)
      ]
