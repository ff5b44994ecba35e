-- ===== src/Kube/Multi/Agreement.antt =====
-- Who holds the lock of kube/multi.go: what `Get` answers, against the leases themselves.
use locking.Prelude.{
  String, ◌≡◌, refl, sym, ◌∙◌, ◌≢◌, ◌↔◌, ◌⊎◌, inl, inr, List, [], ◌∷◌, All, arith, eq_iff, ap,
}
use locking.Prelude.Result.{ok, Result-cases}
use locking.Kube.ResourceLock.{Api, Lock}
use locking.Kube.Multi.{MultiLock, merge, get_secondaries, get, as_lock}

module _ (api : Api) where
  open api use {LeaderElectionRecord, Raw, holder_identity, unknown_leader}

  -- A round keeps the primary's record, if the two name one holder, and else names no known one.
  merge-eq-ok :
      (p s q : LeaderElectionRecord) (raw sraw qraw : Raw)
      → merge api p raw s sraw ≡ ok (q, qraw)
      → ((holder_identity p ≡ holder_identity s) × (q ≡ p)) ⊎ (holder_identity q ≡ unknown_leader)
  unfolding merge
  merge-eq-ok p s q raw sraw qraw e = ground (
    arith,
    eq_iff (holder_identity p) (holder_identity s),
    api.holder_identity-set unknown_leader p,
  )

  merge-same :
      (p s : LeaderElectionRecord) (raw sraw : Raw)
      → holder_identity p ≡ holder_identity s
      → merge api p raw s sraw ≡ ok (p, api.concat_raw_record raw sraw)
  unfolding merge
  merge-same p s raw sraw h = ground (arith, eq_iff (holder_identity p) (holder_identity s))

module _ {api : Api} {W : Type 0} where
  open api use {LeaderElectionRecord, Raw, holder_identity, set_holder_identity, unknown_leader}

  -- A read leaves the world as it was.
  abbrev pub IsReader : Lock api W → Type 0
  IsReader l = (w : W) → (l.get w).1 ≡ w

  -- A read of the lock succeeds, and names `s` as the holder.
  abbrev pub Names : String → W → Lock api W → Type 0
  Names s w l =
      (r : LeaderElectionRecord) × (raw : Raw) × ((l.get w).0 ≡ ok (r, raw))
      × (holder_identity r ≡ s)

  get_secondaries-step :
      (l : Lock api W) (ls : List (Lock api W)) (p s q : LeaderElectionRecord) (raw sraw qraw : Raw)
      (w : W)
      → IsReader l
      → (l.get w).0 ≡ ok (s, sraw)
      → merge api p raw s sraw ≡ ok (q, qraw)
      → get_secondaries (l ∷ ls) p raw w ≡ get_secondaries ls q qraw w
  unfolding get_secondaries
  get_secondaries-step l ls p s q raw sraw qraw w pure got m = rw (got, m, pure w)

  -- The loop names `id` only if the primary and every secondary do.
  get_secondaries-Names :
      (id : String) (ls : List (Lock api W)) (primary : LeaderElectionRecord) (raw : Raw) (w : W)
      (r : LeaderElectionRecord) (raw' : Raw)
      → id ≢ unknown_leader
      → All IsReader ls
      → All (λ l. l.identity ≡ id) ls
      → (get_secondaries ls primary raw w).0 ≡ ok (r, raw')
      → holder_identity r ≡ id
      → (holder_identity primary ≡ id) × All (Names id w) ls
  unfolding get_secondaries
  get_secondaries-Names id [] primary raw w r raw' known pure mine e h = (ground arith, tt)
  get_secondaries-Names id (l ∷ ls) p raw w r raw' known pure mine e h =
      elim (Result-cases (l.get w).0) [
        | inr (x, got) ↦ absurd (ground (arith, eq_iff (holder_identity p) l.identity))
        | inl ((s, sraw), got) ↦ elim (Result-cases (merge api p raw s sraw)) [
          | inr (x, m) ↦ absurd (ground arith)
          | inl ((q, qraw), m) ↦
              let rest =
                get_secondaries-Names id ls q qraw w r raw' known pure.1 mine.1
                  (rw (get_secondaries-step l ls p s q raw sraw qraw w pure.0 got m) at e) h in
              elim (merge-eq-ok api p s q raw sraw qraw m) [
                | inl (same, kept) ↦
                    let named = ap holder_identity (sym kept) ∙ rest.0 in
                    (named, ((s, sraw, got, sym same ∙ named), rest.1))
                | inr lost ↦ absurd (known (sym rest.0 ∙ lost))
              ]
        ]
      ]

  -- If they all do, the loop ends and answers the primary's record.
  get_secondaries-ok :
      (id : String) (ls : List (Lock api W)) (p : LeaderElectionRecord) (raw : Raw) (w : W)
      → All IsReader ls
      → holder_identity p ≡ id
      → All (Names id w) ls
      → (raw' : Raw) × ((get_secondaries ls p raw w).0 ≡ ok (p, raw'))
  unfolding get_secondaries
  get_secondaries-ok id [] p raw w pure h named = (raw, refl)
  get_secondaries-ok id (l ∷ ls) p raw w pure h ((s, sraw, got, hs), named) =
      let m = merge-same api p s raw sraw (h ∙ sym hs) in
      let (raw', e) =
        get_secondaries-ok id ls p (api.concat_raw_record raw sraw) w pure.1 h named in
      (raw', ap (λ t. t.0) (get_secondaries-step l ls p s p raw sraw _ w pure.0 got m) ∙ e)

  get-step :
      (ml : MultiLock api W) (p : LeaderElectionRecord) (raw : Raw) (w : W)
      → IsReader ml.primary
      → (ml.primary.get w).0 ≡ ok (p, raw)
      → get ml w ≡ get_secondaries ml.secondaries p raw w
  unfolding get
  get-step ml p raw w pure got = rw (got, get, pure w)

  -- With one identity behind all its locks, the multi lock names that identity as the holder exactly
  -- when the primary's lease and every secondary's name it. Reads are taken to leave the world as
  -- it was, and the identity not to be the mark of an unknown leader.
  pub Names-as_lock :
      (id : String) (ml : MultiLock api W) (w : W)
      → id ≢ unknown_leader
      → All IsReader (ml.primary ∷ ml.secondaries)
      → All (λ l. l.identity ≡ id) (ml.primary ∷ ml.secondaries)
      → Names id w (as_lock ml) ↔ All (Names id w) (ml.primary ∷ ml.secondaries)
  unfolding get
  Names-as_lock id ml w known pure mine = (to, from)
    where
      to : Names id w (as_lock ml) → All (Names id w) (ml.primary ∷ ml.secondaries)
      to (r, raw, e, h) = elim (Result-cases (ml.primary.get w).0) [
        | inr (x, got) ↦ absurd (ground arith)
        | inl ((p, praw), got) ↦
            let (hp, rest) =
              get_secondaries-Names id ml.secondaries p praw w r raw known pure.1 mine.1
                (rw (get-step ml p praw w pure.0 got) at e) h in
            ((p, praw, got, hp), rest)
      ]

      from : All (Names id w) (ml.primary ∷ ml.secondaries) → Names id w (as_lock ml)
      from ((p, praw, got, hp), rest) =
          let (raw, e) = get_secondaries-ok id ml.secondaries p praw w pure.1 hp rest in
          (p, raw, rw (get-step ml p praw w pure.0 got) e, hp)
