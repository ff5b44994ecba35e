-- ===== src/Raft/Transport/Arrival.antt =====
-- What becomes of one message that the loop of `runRaft` in raft/locker.go keeps sending, over
-- raft/transport.go: `DoSend` of the sender, and `Send` of a receiver whose raft node may start late.
use locking.Prelude.{
  ℕ, zero, suc, ◌+◌, ◌<◌, ◌≤◌, ◌≡◌, refl, sym, ap, ◌∙◌, inl, inr, ◌⊎◌, Bool, true, false, List, [],
  ◌∷◌, Option, some, arith, Option-cases, Bool-cases,
}
use locking.Prelude.Result.{Result, ok, Result-cases}
use locking.Prelude.Map.{lookup, nat_key}
use locking.Raft.Sending.{Message, Effect, delivered, sleep, send}
use locking.Raft.Transport.{Platform, Peer, GrpcTransport, do_send}
use locking.Raft.Transport
use locking.Raft.Transport.Messages.{rpc_send, Arrives, do_send-applied}

-- `n` sleeps of a second, and then the rest.
abbrev pub after_sleeps : ℕ → List Effect → List Effect
after_sleeps zero es = es
after_sleeps (suc n) es = sleep ∷ after_sleeps n es

-- The attempts before the j-th, from the n-th on, are answered by "not applied".
send-sleeps :
    (answer : ℕ → Result Bool) (m : Message) (fuel n j : ℕ)
    → ((i : ℕ) → i < j → answer (n + i) ≡ ok false)
    → answer (n + j) ≡ ok true
    → j < fuel
    → send answer m fuel n ≡ some (after_sleeps j (delivered m ∷ []))
unfolding send
send-sleeps answer m zero n j before now lt = absurd (omega arith)
send-sleeps answer m (suc fuel) n zero before now lt =
    let here : answer n ≡ ok true = ap answer (omega arith) ∙ now in rw (here, send) refl
send-sleeps answer m (suc fuel) n (suc j) before now lt =
    let here : answer n ≡ ok false = ap answer (omega arith) ∙ before 0 (omega arith) in
    let shift : (i : ℕ) → suc n + i ≡ n + suc i = λ i. omega arith in
    let later =
      send-sleeps answer m fuel (suc n) j
        (λ i l. ap answer (shift i) ∙ before (suc i) (omega arith)) (ap answer (shift j) ∙ now)
        (omega arith) in
    rw (here, send, later) refl

below : (i n : ℕ) → i < suc n → (i < n) ⊎ (i ≡ n)
below i n l = omega arith

-- The first of the attempts up to the k-th that is answered by something else than "not applied".
first_true :
    (answer : ℕ → Result Bool) (k : ℕ)
    → ((i : ℕ) → i ≤ k → (b : Bool) × (answer i ≡ ok b))
    → answer k ≡ ok true
    → (j : ℕ) × (j ≤ k) × (answer j ≡ ok true) × ((i : ℕ) → i < j → answer i ≡ ok false)
first_true answer k total now = search_from k 0 (omega arith) (λ i l. absurd (omega arith))
  where
    search_from :
        (d n : ℕ)
        → n + d ≡ k
        → ((i : ℕ) → i < n → answer i ≡ ok false)
        → (j : ℕ) × (j ≤ k) × (answer j ≡ ok true) × ((i : ℕ) → i < j → answer i ≡ ok false)
    search_from zero n e before =
        let at_end : n ≡ k = omega arith in (n, omega arith, ap answer at_end ∙ now, before)
    search_from (suc d) n e before =
        let (b, h) = total n (omega arith) in
        elim (Bool-cases b) [
          | inl taken ↦ (n, omega arith, h ∙ ap ok taken, before)
          | inr early ↦ search_from d (suc n) (omega arith) (λ i l. elim (below i n l) [
            | inl lt ↦ before i lt
            | inr eq ↦ ap answer eq ∙ h ∙ ap ok early
          ])
        ]

module _ (p : Platform) where
  open p use {Client}

  send-total :
      (s : GrpcTransport p) (payload : List ℕ) → (b : Bool) × (Transport.send p s payload ≡ ok b)
  unfolding Transport.send
  send-total s payload = elim (Option-cases s.node) [
    | inl e ↦ (false, rw (e, Transport.send) refl)
    | inr (step, e) ↦ elim (Result-cases (p.unmarshal payload)) [
      | inr (x, eu) ↦ (false, rw (e, eu, Transport.send) refl)
      | inl (m, eu) ↦ elim (Result-cases (step m)) [
        | inr (x, es) ↦ (false, rw (e, eu, es, Transport.send) refl)
        | inl (u, es) ↦ (true, rw (e, eu, es, Transport.send) refl)
      ]
    ]
  ]

  module _ (decodes : (m : Message) (b : List ℕ) → p.marshal m ≡ ok b → p.unmarshal b ≡ ok m)
      (node_at : ℕ → Client → Option (GrpcTransport p)) (t : GrpcTransport p) (m : Message) where
    -- What `DoSend` answers at the i-th attempt; `node_at i` is what its clients reach by then.
    abbrev pub answer : ℕ → Result Bool
    answer i = do_send p (rpc_send p (node_at i)) t m

    answer-total :
        (i : ℕ) (peer : Peer p) (payload : List ℕ) (s : GrpcTransport p)
        → lookup m.to t.peers ≡ some peer
        → p.marshal m ≡ ok payload
        → node_at i peer.client ≡ some s
        → (b : Bool) × (answer i ≡ ok b)
    unfolding do_send
    answer-total i peer payload s known coded reached =
        let (b, e) = send-total s payload in
        let arrived : rpc_send p (node_at i) peer.client payload ≡ ok b =
          rw (reached, rpc_send) e in
        (b, rw (known, coded, arrived, do_send) refl)

    -- With a codec that reads back what it writes: a message to a known peer, which is in reach up
    -- to the k-th attempt and accepts the message at that one, is given to the peer's raft node at
    -- the first attempt at which that accepts it, and not again; before are sleeps, one for each
    -- attempt that came too early.
    pub send-Arrives :
        (peer : Peer p) (payload : List ℕ) (k fuel : ℕ)
        → lookup m.to t.peers ≡ some peer
        → p.marshal m ≡ ok payload
        → ((i : ℕ) → i ≤ k → (s : GrpcTransport p) × (node_at i peer.client ≡ some s))
        → Arrives p (node_at k) t m
        → k < fuel
        → (j : ℕ) × (j ≤ k)
          × (send answer m fuel 0 ≡ some (after_sleeps j (delivered m ∷ [])))
          × Arrives p (node_at j) t m
          × ((i : ℕ) → i < j → ¬ Arrives p (node_at i) t m)
    send-Arrives peer payload k fuel known coded reached arrives lt =
        let applied = λ (i : ℕ). do_send-applied p decodes (node_at i) t m in
        let (j, le, now, before) =
          first_true answer k
            (λ i l. let (s, e) = reached i l in answer-total i peer payload s known coded e)
            ((applied k).1 arrives) in
        (
          j,
          le,
          send-sleeps answer m fuel 0 j (λ i l. ap answer (omega arith) ∙ before i l)
              (ap answer (omega arith) ∙ now) (omega arith),
          (applied j).0 now,
          λ i l a. let both : ok true ≡ ok false = sym ((applied i).1 a) ∙ before i l in cc,
        )
