-- ===== src/Kube/Elector/Alternation.antt =====
-- The order in which the elector's user is told of its leadership.
use locking.Prelude.{◌≡◌, refl, true, false, List, [], ◌∷◌, Option, none, some}
use locking.Kube.Elector.{
  LeaderCallbacks, Call, started, stopped, Flags, Event, on_started_leading, on_stopped_leading,
  on_new_leader, fresh, handle_all,
}

-- No call is followed by the same call; `last` is the call before the list, if there was one.
abbrev pub Alternates : Option Call → List Call → Type 0
Alternates last [] = Unit
Alternates (some started) (started ∷ cs) = ⊥
Alternates (some stopped) (stopped ∷ cs) = ⊥
Alternates _ (c ∷ cs) = Alternates (some c) cs

-- The last call made, that before the list if the list is empty.
abbrev pub last_call : Option Call → List Call → Option Call
last_call last [] = last
last_call last (c ∷ cs) = last_call (some c) cs

-- The flags after a call, and those of a new elector.
abbrev pub flags_after : Option Call → Flags
flags_after none = fresh
flags_after (some started) = record { initialized = true; is_leader = true }
flags_after (some stopped) = record { initialized = true; is_leader = false }

abbrev pub both : Option LeaderCallbacks
both = some (record { on_started_leading = true; on_stopped_leading = true })

-- With both callbacks set, and where each handler has ended before the elector's next report, whatever
-- the elector reports, its user is told in turn that it leads and
-- that it does not: never the same thing twice on end. The flags always stand for the last thing
-- told.
pub handle_all-Alternates :
    (es : List Event) (last : Option Call)
    → let (calls, f) = handle_all both es (flags_after last) in
      Alternates last calls × (f ≡ flags_after (last_call last calls))
unfolding handle_all
handle_all-Alternates [] last = (tt, refl)
handle_all-Alternates (on_started_leading ∷ es) none = handle_all-Alternates es (some started)
handle_all-Alternates (on_started_leading ∷ es) (some started) =
    handle_all-Alternates es (some started)
handle_all-Alternates (on_started_leading ∷ es) (some stopped) =
    handle_all-Alternates es (some started)
handle_all-Alternates (on_stopped_leading ∷ es) none = handle_all-Alternates es (some stopped)
handle_all-Alternates (on_stopped_leading ∷ es) (some started) =
    handle_all-Alternates es (some stopped)
handle_all-Alternates (on_stopped_leading ∷ es) (some stopped) =
    handle_all-Alternates es (some stopped)
handle_all-Alternates (on_new_leader s ∷ es) none = handle_all-Alternates es (some stopped)
handle_all-Alternates (on_new_leader s ∷ es) (some started) =
    handle_all-Alternates es (some stopped)
handle_all-Alternates (on_new_leader s ∷ es) (some stopped) =
    handle_all-Alternates es (some stopped)

-- What the user is told last, by the elector's last report alone.
abbrev pub verdict : Option Call → List Event → Option Call
verdict last [] = last
verdict last (on_started_leading ∷ es) = verdict (some started) es
verdict last (on_stopped_leading ∷ es) = verdict (some stopped) es
verdict last (on_new_leader _ ∷ es) = verdict (some stopped) es

-- With both callbacks set, and where each handler has ended before the elector's next report, the last
-- report alone decides what the user was told last: that it leads after a start, and that it does not
-- after a stop or a new leader. The new leader's identity plays no part, also where it is the elector's
-- own, which client-go reports on the first acquisition.
pub handle_all-last :
    (es : List Event) (last : Option Call)
    → last_call last (handle_all both es (flags_after last)).0 ≡ verdict last es
unfolding handle_all
handle_all-last [] last = refl
handle_all-last (on_started_leading ∷ es) none = handle_all-last es (some started)
handle_all-last (on_started_leading ∷ es) (some started) = handle_all-last es (some started)
handle_all-last (on_started_leading ∷ es) (some stopped) = handle_all-last es (some started)
handle_all-last (on_stopped_leading ∷ es) none = handle_all-last es (some stopped)
handle_all-last (on_stopped_leading ∷ es) (some started) = handle_all-last es (some stopped)
handle_all-last (on_stopped_leading ∷ es) (some stopped) = handle_all-last es (some stopped)
handle_all-last (on_new_leader s ∷ es) none = handle_all-last es (some stopped)
handle_all-last (on_new_leader s ∷ es) (some started) = handle_all-last es (some stopped)
handle_all-last (on_new_leader s ∷ es) (some stopped) = handle_all-last es (some stopped)
