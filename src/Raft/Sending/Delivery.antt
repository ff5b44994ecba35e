-- ===== src/Raft/Sending/Delivery.antt =====
-- What becomes of the messages of a `Ready`, and when the loop over them ends.
use locking.Prelude.{
  ℕ, zero, suc, ◌+◌, ◌≤◌, ◌<◌, ◌≡◌, refl, ◌≢◌, ◌⊎◌, inl, inr, sym, subst, Bool, true, false, List,
  [], ◌∷◌, ◌++◌, length, none, some, ◌==◌, arith, Bool-cases, ==_iff, ◌∙◌, ap,
}
use locking.Prelude.Result.{Error, Result, ok, err, Result-cases}
use locking.Raft.Sending.{
  Message, Effect, step, delivered, sleep, report_unreachable, send, send_all,
}

-- What becomes of a message: it is for the node itself, its receiver has applied it, or its receiver is
-- reported as unreachable.
pub data Fate : Type 0 where
  stepped accepted : Message → Fate
  given_up : ℕ → Fate

-- The fates of the messages, in order.
abbrev pub handled : List Effect → List Fate
handled [] = []
handled (step m ∷ es) = stepped m ∷ handled es
handled (delivered m ∷ es) = accepted m ∷ handled es
handled (sleep ∷ es) = handled es
handled (report_unreachable to ∷ es) = given_up to ∷ handled es

handled-append : (xs ys : List Effect) → handled (xs ++ ys) ≡ handled xs ++ handled ys
handled-append [] ys = refl
handled-append (step m ∷ xs) ys = ap (◌∷◌ (stepped m)) (handled-append xs ys)
handled-append (delivered m ∷ xs) ys = ap (◌∷◌ (accepted m)) (handled-append xs ys)
handled-append (sleep ∷ xs) ys = handled-append xs ys
handled-append (report_unreachable to ∷ xs) ys = ap (◌∷◌ (given_up to)) (handled-append xs ys)

-- The first `n` attempts are answered by "not applied".
abbrev pub NotApplied : (ℕ → Result Bool) → ℕ → Type 0
NotApplied answer zero = Unit
NotApplied answer (suc n) = NotApplied answer n × (answer n ≡ ok false)

-- The attempt is answered by an error or by "applied".
abbrev pub Settles : Result Bool → Type 0
Settles r = r ≢ ok false

abbrev pub Decides : Result Bool → Message → Fate → Type 0
Decides r m f =
    ((r ≡ ok true) × (f ≡ accepted m)) ⊎ ((e : Error) × (r ≡ err e) × (f ≡ given_up m.to))

-- A message for the node itself is stepped on. Another's fate is decided by the first answer that is
-- not "not applied": applied, or given up on an error.
abbrev pub IsFate : ℕ → (ℕ → Result Bool) → Message → Fate → Type 0
IsFate id answer m f =
    ((m.to ≡ id) × (f ≡ stepped m))
    ⊎ ((m.to ≢ id) × (k : ℕ) × NotApplied answer k × Decides (answer k) m f)

-- The messages from the p-th on come to these fates, each to one.
abbrev pub AllFates : ℕ → (ℕ → ℕ → Result Bool) → ℕ → List Message → List Fate → Type 0
AllFates id answers p [] [] = Unit
AllFates id answers p [] (_ ∷ _) = ⊥
AllFates id answers p (_ ∷ _) [] = ⊥
AllFates id answers p (m ∷ ms) (f ∷ fs) =
    IsFate id (answers p) m f × AllFates id answers (suc p) ms fs

send-returns :
    (answer : ℕ → Result Bool) (m : Message) (fuel n k : ℕ)
    → Settles (answer k)
    → n ≤ k
    → k < n + fuel
    → NotApplied answer n
    → (es : List Effect) × (f : Fate) × (j : ℕ) × (send answer m fuel n ≡ some es)
      × (handled es ≡ f ∷ [])
      × NotApplied answer j
      × Decides (answer j) m f
unfolding send
send-returns answer m zero n k s lo hi early = absurd (omega arith)
send-returns answer m (suc fuel) n k s lo hi early = elim (Result-cases (answer n)) [
  | inr (x, e) ↦ (
    report_unreachable m.to ∷ [],
    given_up m.to,
    n,
    rw (e, send) refl,
    refl,
    early,
    inr (x, e, refl),
  )
  | inl (true, e) ↦ (delivered m ∷ [], accepted m, n, rw (e, send) refl, refl, early, inl (e, refl))
  | inl (false, e) ↦
      let later : n ≢ k = (λ q. s (rw q at e)) in
      let (es, f, j, r, h, first, decides) =
        send-returns answer m fuel (suc n) k s (omega arith) (omega arith) (early, e) in
      (sleep ∷ es, f, j, rw (e, send, r) refl, h, first, decides)
]

-- If each position's answers settle at some attempt below the fuel, the loop over the messages
-- ends, and each message has come to its fate once, in order.
pub send_all-returns :
    (id : ℕ) (answers : ℕ → ℕ → Result Bool) (fuel p : ℕ) (ms : List Message)
    → ((q : ℕ) → (k : ℕ) × (k < fuel) × Settles (answers q k))
    → (es : List Effect) × (send_all id answers fuel p ms ≡ some es)
      × AllFates id answers p ms (handled es)
unfolding send_all
send_all-returns id answers fuel p [] h = ([], refl, tt)
send_all-returns id answers fuel p (m ∷ ms) h =
    let (rest, r, hr) = send_all-returns id answers fuel (suc p) ms h in
    let (k, lt, s) = h p in
    let (es, f, j, e, he, first, decides) =
      send-returns (answers p) m fuel 0 k s (omega arith) (omega arith) tt in
    elim (Bool-cases (m.to == id)) [
      | inl own ↦ (step m ∷ rest, ground arith, (inl ((==_iff m.to id).0 own, refl), hr))
      | inr other ↦ (
        es ++ rest,
        ground arith,
        subst (AllFates id answers p (m ∷ ms))
            (sym (handled-append es rest ∙ ap (λ fs. fs ++ handled rest) he))
            (inr ((λ same. cc (sym other ∙ (==_iff m.to id).1 same)), j, first, decides), hr),
      )
    ]

send-stuck :
    (answer : ℕ → Result Bool) (m : Message) (fuel n : ℕ)
    → ((k : ℕ) → answer k ≡ ok false)
    → send answer m fuel n ≡ none
unfolding send
send-stuck answer m zero n h = refl
send-stuck answer m (suc fuel) n h = rw (h n, send, send-stuck answer m fuel (suc n) h)

-- A message to another node that is answered "not applied" at every attempt holds up the loop of
-- `runRaft` for ever, whatever becomes of the messages before it: no fuel is enough.
pub send_all-stuck :
    (id : ℕ) (answers : ℕ → ℕ → Result Bool) (fuel p : ℕ) (ms : List Message) (m : Message)
    (rest : List Message)
    → m.to ≢ id
    → ((k : ℕ) → answers (p + length ms) k ≡ ok false)
    → send_all id answers fuel p (ms ++ m ∷ rest) ≡ none
unfolding send_all
send_all-stuck id answers fuel p [] m rest far h =
    let here : (k : ℕ) → answers p k ≡ ok false =
      (λ k. ap (λ q. answers q k) (omega arith) ∙ h k) in
    ground (arith, send-stuck (answers p) m fuel 0 here)
send_all-stuck id answers fuel p (x ∷ ms) m rest far h =
    let next : (k : ℕ) → answers (suc p + length ms) k ≡ ok false =
      (λ k. ap (λ q. answers q k) (omega arith) ∙ h k) in
    ground (arith, send_all-stuck id answers fuel (suc p) ms m rest far next)
