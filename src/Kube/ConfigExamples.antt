-- ===== src/Kube/ConfigExamples.antt =====
-- Runs of the configuration and of the elector's callbacks.
use locking.Prelude.{ℕ, String, ◌≡◌, refl, ◌*◌, ◌^◌, ◌+◌, true, false, [], ◌∷◌, none, some, map}
use locking.Prelude.Result.{Result, ok, traverse}
use locking.Kube.Config.{
  Platform, LockConfiguration, ElectorConfig, LeaseLock, multi, validate_configs, run,
  client_config,
}
use locking.Kube.Config.Start.{leases, seat, run-leases}
use locking.Kube.Elector.{on_started_leading, on_new_leader, fresh, handle_all, started, stopped}
use locking.Kube.Elector.Concurrent.{
  System, idle, Reach, here, step, report, go_on, advance, storing, swapping_true,
  swapping_initialized, swapping_false, owing, ended,
}
use locking.Kube.Elector.Alternation.{last_call, both}
use locking.Kube.Elector.Concurrent.Sequential.{Handled, none_yet, next, goes, rest, Handled-last}

abbrev host : Platform
host = record {
  RestConfig = ℕ;
  Client = ℕ;
  Provider = ℕ;
  EventRecorder = ℕ;
  add_user_agent = λ c s. c;
  set_timeout = λ n c. n + c;
  new_for_config = λ c. ok c;
  get_event_recorder_for = λ p s. p;
  hostname = ok "node-7";
  new_uuid = "1234";
}

-- Two clusters, and no ID.
abbrev nameless : LockConfiguration host
nameless = record {
  id = "";
  name = "operator";
  configs =
      record { namespace = "east"; config = some 1 }
      ∷ record { namespace = "west"; config = some 2 }
      ∷ [];
  leader_labels = [];
  renew_deadline = 0;
  lease_duration = 0;
  retry_period = 0;
  recorder_provider = none;
}

accepts : ElectorConfig host → Result (Unit {0})
accepts e = ok tt

abbrev east_lease : ℕ → String → LeaseLock host
east_lease client namespace = record {
  namespace = namespace;
  name = "operator";
  client = client;
  identity = "";
  event_recorder = none;
  labels = [];
}

abbrev nameless_elector : ElectorConfig host
nameless_elector = record {
  lock = multi (east_lease 7500000001 "east") (east_lease 7500000002 "west" ∷ []);
  lease_duration = 30 * 10 ^ 9;
  renew_deadline = 15 * 10 ^ 9;
  retry_period = 5 * 10 ^ 9;
  release_on_cancel = true;
  name = "operator";
}

run-nameless : run accepts nameless ≡ ok nameless_elector
unfolding run validate_configs accepts traverse
run-nameless = refl

-- The host is "node-7", and the locks ask in the name of "". A client is its timeout and its cluster's
-- number.
run-leases_example :
    map seat (leases nameless_elector.lock)
    ≡ ("east", "operator", "", some 7500000001) ∷ ("west", "operator", "", some 7500000002) ∷ []
unfolding client_config
run-leases_example = run-leases accepts nameless nameless_elector run-nameless

-- The elector wins and reports itself as the new leader only when the first handler has ended.
abbrev told_first : System
told_first = record {
  flags = record { initialized = true; is_leader = true };
  handlers = ended ∷ [];
  calls = started ∷ [];
}

abbrev told_in_order : System
told_in_order = record {
  flags = record { initialized = true; is_leader = false };
  handlers = ended ∷ ended ∷ [];
  calls = started ∷ stopped ∷ [];
}

Handled-first : Handled (on_started_leading ∷ []) told_first
unfolding advance
Handled-first =
    next on_started_leading none_yet
      (goes [] storing [] refl
        (goes [] swapping_true [] refl (goes [] (owing started) [] refl rest)))
      (refl, tt)

Handled-both : Handled (on_started_leading ∷ on_new_leader "me" ∷ []) told_in_order
unfolding advance
Handled-both =
    next (on_new_leader "me") Handled-first
      (goes (ended ∷ []) swapping_initialized [] refl
        (goes (ended ∷ []) swapping_false [] refl (goes (ended ∷ []) (owing stopped) [] refl rest)))
      (refl, (refl, tt))

Handled-last_example :
    Reach idle told_in_order
    × (told_in_order.calls
        ≡ (handle_all both (on_started_leading ∷ on_new_leader "me" ∷ []) fresh).0)
    × (last_call none (started ∷ stopped ∷ []) ≡ some stopped)
Handled-last_example =
    Handled-last (on_started_leading ∷ on_new_leader "me" ∷ []) told_in_order Handled-both

-- The elector wins and reports itself as the new leader: the handler for the latter makes its call
-- first.
abbrev pub told_late : System
told_late = record {
  flags = record { initialized = true; is_leader = false };
  handlers = ended ∷ ended ∷ [];
  calls = stopped ∷ started ∷ [];
}

unfoldable pub late : Reach idle told_late
unfolding advance
late =
    step
      (step
        (step
          (step
            (step
              (step (step (step here (report on_started_leading)) (report (on_new_leader "me")))
                (go_on [] storing (swapping_initialized ∷ []) refl))
              (go_on [] swapping_true (swapping_initialized ∷ []) refl))
            (go_on (owing started ∷ []) swapping_initialized [] refl))
          (go_on (owing started ∷ []) swapping_false [] refl))
        (go_on (owing started ∷ []) (owing stopped) [] refl))
      (go_on [] (owing started) (ended ∷ []) refl)
