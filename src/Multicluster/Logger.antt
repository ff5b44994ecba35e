-- ===== src/Multicluster/Logger.antt =====
-- `raftLogr` of multicluster/raft.go, the logger of raft over the one of the runtime manager: what
-- each of its methods logs, and how it ends.
use Prim.Native.String.{◌++◌ as str_append}
use locking.Prelude.{ℕ, String, ◌≡◌, ap, List, [], ◌∷◌}
use locking.Prelude.Result.{Error, text}

-- What logr.Logger gets: a message at a verbosity, or an error with a message.
pub data Entry : Type 0 where
  informed : ℕ → String → Entry
  failed : Error → String → Entry

-- How a method ends: by its return, by `os.Exit` with a code, or by a panic.
pub data Ending : Type 0 where
  returned : Ending
  exited : ℕ → Ending
  panicked : String → Ending

abbrev Call : Type 0
Call = List Entry × Ending

-- The methods' names, as raft has them in its interface `Logger`.
pub data Severity : Type 0 where
  debug : Severity
  info : Severity
  warning : Severity
  error : Severity
  fatal : Severity
  panic : Severity

-- `V` is Go's `any`; `sprint` and `sprintf` are those of fmt.
module _ {V : Type 0} (sprint : List V → String) (sprintf : String → List V → String) where
  abbrev informs : ℕ → String → String → Call
  informs verbosity tag msg = (informed verbosity (str_append tag msg) ∷ [], returned)

  abbrev fails : String → Ending → Call
  fails msg ending = (failed (text msg) msg ∷ [], ending)

  -- `Debug`, `Info`, `Warning`, `Error`, `Fatal` and `Panic`
  unfoldable pub log : Severity → List V → Call
  log debug v = informs 1 "[DEBUG] " (sprint v)
  log info v = informs 0 "[INFO] " (sprint v)
  log warning v = informs 0 "[WARN] " (sprint v)
  log error v = fails (sprint v) returned
  log fatal v = fails (sprint v) (exited 1)
  log panic v = fails (sprint v) (panicked (sprint v))

  -- `Debugf`, `Infof`, `Warningf`, `Errorf`, `Fatalf` and `Panicf`
  unfoldable pub logf : Severity → String → List V → Call
  logf debug format v = informs 1 "[DEBUG] " (sprintf format v)
  logf info format v = informs 0 "[INFO] " (sprintf format v)
  logf warning format v = informs 0 "[WARN] " (sprintf format v)
  logf error format v = fails (sprintf format v) returned
  logf fatal format v = fails (sprintf format v) (exited 1)
  logf panic format v = fails (sprintf format v) (panicked (sprintf format v))

  -- The two methods of a severity do the same where their texts are the same.
  logf-log :
      (s : Severity) (format : String) (v w : List V)
      → sprintf format v ≡ sprint w
      → logf s format v ≡ log s w
  unfolding log logf
  logf-log debug format v w h = ap (informs 1 "[DEBUG] ") h
  logf-log info format v w h = ap (informs 0 "[INFO] ") h
  logf-log warning format v w h = ap (informs 0 "[WARN] ") h
  logf-log error format v w h = ap (λ msg. fails msg returned) h
  logf-log fatal format v w h = ap (λ msg. fails msg (exited 1)) h
  logf-log panic format v w h = ap (λ msg. fails msg (panicked msg)) h
