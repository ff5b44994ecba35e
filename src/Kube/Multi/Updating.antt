-- ===== src/Kube/Multi/Updating.antt =====
-- What `Update` of kube/multi.go leaves in the leases of several clusters.
use locking.Prelude.{
  ℕ, ◌≡◌, refl, sym, ◌∙◌, ◌≢◌, inl, inr, true, false, List, [], ◌∷◌, ◌++◌, map, All, arith, none,
  some, ap, Bool-cases, subst, All-map₂, All-mono,
}
use locking.Prelude.Result.{Error, ok, err, Result-cases}
use locking.Kube.ResourceLock.{Api}
use locking.Kube.Multi.Leases.{Leases, Distinct, multi, Fresh-swap, Distinct-split}
use locking.Kube.Multi.{missing, update_secondaries, update}

module _ {api : Api} {W : Type 0} (c : Leases api W) where
  open api use {LeaderElectionRecord}

  module _ (i : ℕ) (is : List ℕ) (r : LeaderElectionRecord) (w : W) where
    -- A secondary that is there is updated, and the loop goes on.
    update_secondaries-next :
        missing api ((c.lock i).get w).0 ≡ false
        → ((c.lock i).update r w).0 ≡ ok tt
        → update_secondaries (map c.lock (i ∷ is)) r w
          ≡ update_secondaries (map c.lock is) r ((c.lock i).update r w).1
    unfolding update_secondaries
    update_secondaries-next there done =
        rw (there, c.get_pure i w, done, c.get_pure i w, update_secondaries)

    update_secondaries-stop :
        {e : Error}
        → missing api ((c.lock i).get w).0 ≡ false
        → ((c.lock i).update r w).0 ≡ err e
        → (update_secondaries (map c.lock (i ∷ is)) r w).0 ≡ err e
    unfolding update_secondaries
    update_secondaries-stop there failed = rw (there, c.get_pure i w, failed, update_secondaries)

    -- A secondary that is missing is created, and that ends the loop.
    update_secondaries-missing :
        missing api ((c.lock i).get w).0 ≡ true
        → update_secondaries (map c.lock (i ∷ is)) r w ≡ (c.lock i).create r w
    unfolding update_secondaries
    update_secondaries-missing gone = rw (gone, c.get_pure i w, update_secondaries)

    update-next :
        ((c.lock i).update r w).0 ≡ ok tt
        → update (multi c i is) r w ≡ update_secondaries (map c.lock is) r ((c.lock i).update r w).1
    unfolding update
    update-next done = rw (done, update)

    update-stop :
        {e : Error} → ((c.lock i).update r w).0 ≡ err e → (update (multi c i is) r w).0 ≡ err e
    unfolding update
    update-stop failed = rw (failed, update)

    missing-none : missing api ((c.lock i).get w).0 ≡ true → c.lease i w ≡ none
    missing-none h = elim (Result-cases ((c.lock i).get w).0) [
      | inl (x, e) ↦ absurd (ground arith)
      | inr (x, e) ↦ c.get_missing i w x e (rw e at h)
    ]

  -- An update of some clusters leaves the lease of any other as it was.
  update_secondaries-frame :
      (is : List ℕ) (j : ℕ) (r : LeaderElectionRecord) (w : W)
      → All (λ i. i ≢ j) is
      → c.lease j (update_secondaries (map c.lock is) r w).1 ≡ c.lease j w
  unfolding update_secondaries
  update_secondaries-frame [] j r w h = refl
  update_secondaries-frame (i ∷ is) j r w h =
      let here = c.update_frame i j r w h.0 in
      let later = update_secondaries-frame is j r ((c.lock i).update r w).1 h.1 in
      elim (Bool-cases (missing api ((c.lock i).get w).0)) [
        | inl gone ↦
            ap (λ t. c.lease j t.1) (update_secondaries-missing i is r w gone)
            ∙ c.create_frame i j r w h.0
        | inr there ↦ elim (Result-cases ((c.lock i).update r w).0) [
          | inl (u, e) ↦
              ap (λ t. c.lease j t.1) (update_secondaries-next i is r w there e) ∙ later ∙ here
          | inr (x, e) ↦ rw (there, c.get_pure i w, e, c.get_pure i w, update_secondaries) here
        ]
      ]

  update_secondaries_every :
      (is : List ℕ) (r : LeaderElectionRecord) (w : W)
      → Distinct is
      → All (λ j. c.lease j w ≢ none) is
      → (update_secondaries (map c.lock is) r w).0 ≡ ok tt
      → All (λ j. c.lease j (update_secondaries (map c.lock is) r w).1 ≡ some r) is
  update_secondaries_every [] r w d there h = tt
  update_secondaries_every (i ∷ is) r w d there h =
      let w' = ((c.lock i).update r w).1 in
      let kept = update_secondaries-frame is i r w' (Fresh-swap i is d.0) in
      let there' =
        All-map₂ (λ j. i ≢ j) (λ j. c.lease j w ≢ none) (λ j. c.lease j w' ≢ none) is
          (λ j n p q. p (sym (c.update_frame i j r w n) ∙ q)) d.0 there.1 in
      elim (Bool-cases (missing api ((c.lock i).get w).0)) [
        | inl gone ↦ absurd (there.0 (missing-none i is r w gone))
        | inr found ↦ elim (Result-cases ((c.lock i).update r w).0) [
          | inr (x, e) ↦ absurd (cc (update_secondaries-stop i is r w found e))
          | inl (u, e) ↦
              let next = update_secondaries-next i is r w found e in
              subst (λ t. All (λ j. c.lease j t.1 ≡ some r) (i ∷ is)) (sym next)
                (
                  kept ∙ c.update_ok i r w e,
                  update_secondaries_every is r w' d.1 there' (ap (λ t. t.0) (sym next) ∙ h),
                )
        ]
      ]

  -- For locks on distinct leases: an update that reports success, where every secondary's lease
  -- exists already, writes the record into every lease.
  pub update_every :
      (i : ℕ) (is : List ℕ) (r : LeaderElectionRecord) (w : W)
      → Distinct (i ∷ is)
      → All (λ j. c.lease j w ≢ none) is
      → (update (multi c i is) r w).0 ≡ ok tt
      → All (λ j. c.lease j (update (multi c i is) r w).1 ≡ some r) (i ∷ is)
  unfolding update
  update_every i is r w d there h =
      let w' = ((c.lock i).update r w).1 in
      let there' =
        All-map₂ (λ j. i ≢ j) (λ j. c.lease j w ≢ none) (λ j. c.lease j w' ≢ none) is
          (λ j n p q. p (sym (c.update_frame i j r w n) ∙ q)) d.0 there in
      elim (Result-cases ((c.lock i).update r w).0) [
        | inr (x, e) ↦ absurd (ground arith)
        | inl (u, e) ↦
            let next = update-next i is r w e in
            subst (λ t. All (λ j. c.lease j t.1 ≡ some r) (i ∷ is)) (sym next)
              (
                update_secondaries-frame is i r w' (Fresh-swap i is d.0) ∙ c.update_ok i r w e,
                update_secondaries_every is r w' d.1 there' (ap (λ t. t.0) (sym next) ∙ h),
              )
      ]

  -- The secondaries of a list that are there are updated, and the loop goes on to the next ones.
  update_secondaries-append :
      (is js : List ℕ) (r : LeaderElectionRecord) (w : W)
      → Distinct is
      → All (λ j. c.lease j w ≢ none) is
      → (update_secondaries (map c.lock is) r w).0 ≡ ok tt
      → update_secondaries (map c.lock (is ++ js)) r w
        ≡ update_secondaries (map c.lock js) r (update_secondaries (map c.lock is) r w).1
  update_secondaries-append [] js r w d there h = unfold update_secondaries in refl
  update_secondaries-append (i ∷ is) js r w d there h =
      let w' = ((c.lock i).update r w).1 in
      let there' =
        All-map₂ (λ j. i ≢ j) (λ j. c.lease j w ≢ none) (λ j. c.lease j w' ≢ none) is
          (λ j n p q. p (sym (c.update_frame i j r w n) ∙ q)) d.0 there.1 in
      elim (Bool-cases (missing api ((c.lock i).get w).0)) [
        | inl gone ↦ absurd (there.0 (missing-none i is r w gone))
        | inr found ↦ elim (Result-cases ((c.lock i).update r w).0) [
          | inr (x, e) ↦ absurd (cc (update_secondaries-stop i is r w found e))
          | inl (u, e) ↦
              let next = update_secondaries-next i is r w found e in
              update_secondaries-next i (is ++ js) r w found e
              ∙ update_secondaries-append is js r w' d.1 there' (ap (λ t. t.0) (sym next) ∙ h)
              ∙ ap (λ t. update_secondaries (map c.lock js) r t.1) (sym next)
        ]
      ]

  -- For locks on distinct leases: let the primary and the secondaries before `j`, whose leases are
  -- there, be updated with success, and let the lease of `j` then be found missing and created with
  -- success. Then the update reports success, the record is in the leases of all these and of `j`, but
  -- the secondaries after `j` get no call, so that their leases stay as they were.
  pub update_skips :
      (i : ℕ) (is : List ℕ) (j : ℕ) (js : List ℕ) (r : LeaderElectionRecord) (w : W)
      → let w' = (update (multi c i is) r w).1 in
        let done = update (multi c i (is ++ j ∷ js)) r w in
        Distinct ((i ∷ is) ++ j ∷ js)
        → All (λ k. c.lease k w ≢ none) is
        → (update (multi c i is) r w).0 ≡ ok tt
        → missing api ((c.lock j).get w').0 ≡ true
        → ((c.lock j).create r w').0 ≡ ok tt
        → (done.0 ≡ ok tt)
          × All (λ k. c.lease k done.1 ≡ some r) (i ∷ is)
          × (c.lease j done.1 ≡ some r)
          × All (λ k. c.lease k done.1 ≡ c.lease k w) js
  update_skips i is j js r w d there h gone made =
      let w1 = ((c.lock i).update r w).1 in
      let w' = (update (multi c i is) r w).1 in
      let (before, after, apart) = Distinct-split (i ∷ is) (j ∷ js) d in
      let there' =
        All-map₂ (λ k. i ≢ k) (λ k. c.lease k w ≢ none) (λ k. c.lease k w1 ≢ none) is
          (λ k n p q. p (sym (c.update_frame i k r w n) ∙ q)) before.0 there in
      let written = update_every i is r w before there h in
      let here : All (λ k. j ≢ k) (i ∷ is) =
        All-mono (λ k. k ≢ j) (λ k. j ≢ k) (i ∷ is) (λ k n e. n (sym e)) apart.0 in
      elim (Result-cases ((c.lock i).update r w).0) [
        | inr (x, e) ↦ absurd (cc (sym h ∙ update-stop i is r w e))
        | inl (u, e) ↦
            let next = update-next i is r w e in
            let whole : update (multi c i (is ++ j ∷ js)) r w ≡ (c.lock j).create r w' =
              update-next i (is ++ j ∷ js) r w e
              ∙ update_secondaries-append is (j ∷ js) r w1 before.1 there'
                  (ap (λ t. t.0) (sym next) ∙ h)
              ∙ ap (λ t. update_secondaries (map c.lock (j ∷ js)) r t.1) (sym next)
              ∙ update_secondaries-missing j js r w' gone in
            subst
              (λ t.
                (t.0 ≡ ok tt)
                × All (λ k. c.lease k t.1 ≡ some r) (i ∷ is)
                × (c.lease j t.1 ≡ some r)
                × All (λ k. c.lease k t.1 ≡ c.lease k w) js)
              (sym whole)
              (
                made,
                All-map₂ (λ k. j ≢ k) (λ k. c.lease k w' ≡ some r)
                    (λ k. c.lease k ((c.lock j).create r w').1 ≡ some r) (i ∷ is)
                    (λ k n q. c.create_frame j k r w' n ∙ q) here written,
                c.create_ok j r w' made,
                All-map₂ (λ k. j ≢ k) (λ k. All (λ l. l ≢ k) (i ∷ is))
                    (λ k. c.lease k ((c.lock j).create r w').1 ≡ c.lease k w) js
                    (λ k n q.
                      c.create_frame j k r w' n
                      ∙ ap (λ t. c.lease k t.1) next
                      ∙ update_secondaries-frame is k r w1 q.1
                      ∙ c.update_frame i k r w q.0)
                    after.0 apart.1,
              )
      ]
