-- ===== src/Processes/Objects.antt =====
-- host/src/orchestrator/runner.ts: the objects of processes, and the small changes to them.
use ontheia.Prelude.{
  ℕ, ◌==◌, ltb, Bool, true, false, Option, none, some, List, [], ◌∷◌, ◌++◌, if◌then◌else◌, Text,
  codes, text_eq, length, drop,
}
use ontheia.Processes.Table.{table_set}

pub data ProcessStatus : Type 0 where
  starting : ProcessStatus
  running : ProcessStatus
  exited : ProcessStatus
  failed : ProcessStatus

-- An exit code, `null` where the process was ended by a signal or runs.
pub data ExitCode : Type 0 where
  null : ExitCode
  code : ℕ → ExitCode
  below_zero : ℕ → ExitCode

pub data LifecycleEvent : Type 0 where
  running_event : (name : Text) (started_at : ℕ) → LifecycleEvent
  stopped_event :
      (name : Text) (exit_code : ExitCode) (signal : Option Text) (logs : List Text)
      → LifecycleEvent
  failed_event :
      (name : Text) (exit_code : ExitCode) (signal : Option Text) (logs : List Text)
      → LifecycleEvent

pub record Preview : Type 0 where
  pub command : Text
  pub args : List Text
  pub env : List (Text × Text)

-- `exit_code` and `signal` are `none` as long as they are not set; `is_heard` says that the listeners of the process
-- are not removed.
pub record RunnerProcess : Type 0 where
  pub name : Text
  pub command : Text
  pub args : List Text
  pub env : List (Text × Text)
  pub status : ProcessStatus
  pub exit_code : Option ExitCode
  pub signal : Option (Option Text)
  pub logs : List Text
  pub started_at : Option ℕ
  pub is_heard : Bool

-- `objects` are the process objects that were made, the next one gets the number `next`.
pub record RunnerState : Type 0 where
  pub objects : ℕ → Option RunnerProcess
  pub next : ℕ
  pub processes : List (Text × ℕ)
  pub lifecycle : List LifecycleEvent

abbrev pub new_runner : RunnerState
new_runner = record { objects = λ ref. none; next = 0; processes = []; lifecycle = [] }

pub data StartResult : Type 0 where
  already_running : StartResult
  started : StartResult

pub data StopResult : Type 0 where
  not_found : StopResult
  already_stopped : StopResult
  force_killed : StopResult
  stopped : StopResult

-- Where a call of `stop` is: at its end, before a turn of its loop, or behind the SIGKILL.
pub data Stopping : Type 0 where
  answered : StopResult → Stopping
  polling : (name : Text) (ref : ℕ) → Stopping
  killing : (name : Text) (ref : ℕ) → Stopping

abbrev pub is_live : ProcessStatus → Bool
is_live starting = true
is_live running = true
is_live s = false

abbrev pub is_zero : ExitCode → Bool
is_zero (code n) = n == 0
is_zero c = false

unfoldable pub put_object :
    ℕ → RunnerProcess → (ℕ → Option RunnerProcess) → ℕ → Option RunnerProcess
put_object ref p objects k = if k == ref then some p else objects k

abbrev pub tell : LifecycleEvent → RunnerState → RunnerState
tell e st = record st { lifecycle = st.lifecycle ++ (e ∷ []) }

-- `this.processes.set(name, proc)` with the object changed to `p`.
abbrev pub keep_process : Text → ℕ → RunnerProcess → RunnerState → RunnerState
keep_process name ref p st = record st {
  objects = put_object ref p st.objects;
  processes = table_set name ref st.processes;
}

abbrev pub log_line : RunnerProcess → Text → RunnerProcess
log_line p line = record p { logs = p.logs ++ (line ∷ []) }

-- At most 200 lines of output are kept.
unfoldable pub push_output : Text → List Text → List Text
push_output line logs =
    let pushed = logs ++ (line ∷ []) in if ltb 200 (length pushed) then drop 1 pushed else pushed

abbrev pub given_host : Option Text → Option Text
given_host none = none
given_host (some []) = none
given_host (some (c ∷ host)) = some (c ∷ host)

abbrev pub with_docker_host : Text → Option Text → List (Text × Text) → List (Text × Text)
with_docker_host command host env = elim (given_host host) [
  | none ↦ env
  | some h ↦ if text_eq command (codes "docker") then table_set (codes "DOCKER_HOST") h env else env
]

unfoldable pub set_all : List (Text × Text) → List (Text × Text) → List (Text × Text)
set_all [] env = env
set_all ((key, value) ∷ entries) env = set_all entries (table_set key value env)
