-- ===== src/Raft/Loop/Views.antt =====
-- What the effects of the loop of `runRaft` are to the raft node and its peers, and to the leadership.
use locking.Prelude.Result.{Result}
use locking.Prelude.{ℕ, suc, Bool, ◌≡◌, refl, ap, List, [], ◌∷◌, ◌++◌, map}
use locking.Raft.Leadership.{
  LeaderCallbacks, Loop, effect_if, cancel, go_stopped, stop_node, start, on_ready, on_done, on_all,
}
use locking.Raft.Leadership
use locking.Raft.Leadership.Callbacks.{Seen}
use locking.Raft.Sending.{Message, step, delivered, sleep, report_unreachable, send_all}
use locking.Raft.Sending
use locking.Raft.Sending.Delivery.{Fate, stepped, accepted, given_up, handled, AllFates}
use locking.Raft.Loop.{Ready, Effect, led, append, sent, advance}

-- What the raft node and its peers see: entries that are kept, messages that come to their fate, and
-- the node's being told to go on.
pub data Event : Type 0 where
  kept : List ℕ → Event
  came_to : Fate → Event
  advanced : Event

abbrev pub traffic : List Effect → List Event
traffic [] = []
traffic (led _ ∷ es) = traffic es
traffic (append entries ∷ es) = kept entries ∷ traffic es
traffic (sent (step m) ∷ es) = came_to (stepped m) ∷ traffic es
traffic (sent (delivered m) ∷ es) = came_to (accepted m) ∷ traffic es
traffic (sent sleep ∷ es) = traffic es
traffic (sent (report_unreachable to) ∷ es) = came_to (given_up to) ∷ traffic es
traffic (advance ∷ es) = advanced ∷ traffic es

abbrev pub leadership : List Effect → List Leadership.Effect
leadership [] = []
leadership (led e ∷ es) = e ∷ leadership es
leadership (append _ ∷ es) = leadership es
leadership (sent _ ∷ es) = leadership es
leadership (advance ∷ es) = leadership es

-- One round, where the messages come to the given fates: the entries are kept, the messages come to
-- their fates, and the node is told to go on.
abbrev pub followed : Ready → List Fate → List Event
followed rd fates = kept rd.entries ∷ (map came_to fates ++ advanced ∷ [])

-- The rounds from the i-th on, one after the other.
abbrev pub Follows : ℕ → (ℕ → ℕ → ℕ → Result Bool) → ℕ → List Ready → List Event → Type 0
Follows id answers i [] evs = evs ≡ []
Follows id answers i (rd ∷ rds) evs =
    (fates : List Fate) × (rest : List Event) × AllFates id (answers i) 0 rd.messages fates
    × (evs ≡ followed rd fates ++ rest)
    × Follows id answers (suc i) rds rest

abbrev pub seen_in : Ready → Seen
seen_in rd = (rd.soft_state, rd.status)

pub traffic-append : (xs ys : List Effect) → traffic (xs ++ ys) ≡ traffic xs ++ traffic ys
traffic-append [] ys = refl
traffic-append (led e ∷ xs) ys = traffic-append xs ys
traffic-append (append es ∷ xs) ys = ap (λ zs. kept es ∷ zs) (traffic-append xs ys)
traffic-append (sent (step m) ∷ xs) ys = ap (λ zs. came_to (stepped m) ∷ zs) (traffic-append xs ys)
traffic-append (sent (delivered m) ∷ xs) ys =
    ap (λ zs. came_to (accepted m) ∷ zs) (traffic-append xs ys)
traffic-append (sent sleep ∷ xs) ys = traffic-append xs ys
traffic-append (sent (report_unreachable to) ∷ xs) ys =
    ap (λ zs. came_to (given_up to) ∷ zs) (traffic-append xs ys)
traffic-append (advance ∷ xs) ys = ap (λ zs. advanced ∷ zs) (traffic-append xs ys)

pub leadership-append :
    (xs ys : List Effect) → leadership (xs ++ ys) ≡ leadership xs ++ leadership ys
leadership-append [] ys = refl
leadership-append (led e ∷ xs) ys = ap (λ zs. e ∷ zs) (leadership-append xs ys)
leadership-append (append es ∷ xs) ys = leadership-append xs ys
leadership-append (sent e ∷ xs) ys = leadership-append xs ys
leadership-append (advance ∷ xs) ys = leadership-append xs ys

pub traffic-led :
    (xs : List Leadership.Effect) (ys : List Effect) → traffic (map led xs ++ ys) ≡ traffic ys
traffic-led [] ys = refl
traffic-led (x ∷ xs) ys = traffic-led xs ys

pub leadership-led :
    (xs : List Leadership.Effect) (ys : List Effect)
    → leadership (map led xs ++ ys) ≡ xs ++ leadership ys
leadership-led [] ys = refl
leadership-led (x ∷ xs) ys = ap (λ zs. x ∷ zs) (leadership-led xs ys)

pub traffic-sent :
    (xs : List Sending.Effect) (ys : List Effect)
    → traffic (map sent xs ++ ys) ≡ map came_to (handled xs) ++ traffic ys
traffic-sent [] ys = refl
traffic-sent (step m ∷ xs) ys = ap (λ zs. came_to (stepped m) ∷ zs) (traffic-sent xs ys)
traffic-sent (delivered m ∷ xs) ys = ap (λ zs. came_to (accepted m) ∷ zs) (traffic-sent xs ys)
traffic-sent (sleep ∷ xs) ys = traffic-sent xs ys
traffic-sent (report_unreachable to ∷ xs) ys =
    ap (λ zs. came_to (given_up to) ∷ zs) (traffic-sent xs ys)

pub leadership-sent :
    (xs : List Sending.Effect) (ys : List Effect) → leadership (map sent xs ++ ys) ≡ leadership ys
leadership-sent [] ys = refl
leadership-sent (x ∷ xs) ys = leadership-sent xs ys
