-- ===== src/Raft/ShutdownExamples.antt =====
-- A node whose transport cannot listen.
use locking.Prelude.{◌<◌, refl, true, [], ◌∷◌, none, some, length, arith}
use locking.Prelude.Result.{Error, text, wrap}
use locking.Raft.Shutdown.{
  listen_failed, ended, waiting, returned, System, serve, start, capacity, transport_fails,
  raft_stops, takes_error, returns, Reach, here, later,
}
use locking.Raft.Shutdown.Answer.{Explained, Reach-Explained}
use locking.Raft.Shutdown.Progress.{Reach-has_room}

abbrev in_use : Error
in_use = text "address already in use"

abbrev taken : Error
taken = wrap "failed to listen" in_use

abbrev failed : System
failed = record start { transport = ended (some taken); errs = taken ∷ [] }

abbrev woken : System
woken = record failed { main = waiting (some taken); errs = []; cancelled = true }

abbrev quiet : System
quiet = record woken { raft = ended none }

abbrev gone : System
gone = record quiet { main = returned (some taken) }

reach-failed : Reach start failed
unfolding serve
reach-failed =
    later here (transport_fails start (listen_failed in_use) taken refl tt refl (omega arith))

reach-gone : Reach start gone
reach-gone =
    later
      (later (later reach-failed (takes_error failed taken [] refl refl))
        (raft_stops woken refl refl))
      (returns quiet (some taken) (some taken) none refl refl refl)

Reach-Explained_example : Explained (some taken) gone
Reach-Explained_example = Reach-Explained gone (some taken) reach-gone refl

Reach-has_room_example : length start.errs < capacity
Reach-has_room_example = Reach-has_room start here refl
