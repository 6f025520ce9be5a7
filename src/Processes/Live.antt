-- ===== src/Processes/Live.antt =====
-- host/src/orchestrator/runner.ts: which processes live under a name.
use ontheia.Prelude.{ℕ, ◌≡◌, Bool, Option, some, List, Text}
use ontheia.Processes.Table.{table_get}
use ontheia.Processes.Objects.{starting, ExitCode, RunnerProcess, RunnerState, Preview, new_runner}
use ontheia.Processes.{on_spawn, on_exit, on_error, on_data, start, stop, poll, end_kill}
use ontheia.Processes.Kept.{IsCurrent}

module _ (process_env : List (Text × Text)) (docker_host : Option Text)
    (show_code : ExitCode → Text) where
  -- The states of a runner whose processes report their end, and whose calls of `stop` go on, only while the
  -- table holds the process; a process reports that it was spawned before all else.
  pub data Reaches : RunnerState → Type 0 where
    new : Reaches new_runner
    starts :
        {st : RunnerState} (name : Text) (preview : Preview)
        → Reaches st
        → Reaches ((start process_env docker_host name preview st).1)
    spawns :
        {st : RunnerState} (ref now : ℕ) (p : RunnerProcess)
        → st.objects ref ≡ some p
        → p.status ≡ starting
        → Reaches st
        → Reaches (on_spawn ref now st)
    exits :
        {st : RunnerState} (ref : ℕ) (c : ExitCode) (signal : Option Text)
        → IsCurrent ref st
        → Reaches st
        → Reaches (on_exit ref c signal st)
    errors :
        {st : RunnerState} (ref : ℕ) (message : Text)
        → IsCurrent ref st
        → Reaches st
        → Reaches (on_error ref message st)
    prints :
        {st : RunnerState} (ref : ℕ) (label chunk : Text)
        → Reaches st
        → Reaches (on_data ref label chunk st)
    stops : {st : RunnerState} (name : Text) → Reaches st → Reaches ((stop name st).1)
    polls :
        {st : RunnerState} (name : Text) (ref : ℕ) (late : Bool) (c : ExitCode)
        (signal : Option Text)
        → table_get name st.processes ≡ some ref
        → Reaches st
        → Reaches ((poll show_code name ref late c signal st).1)
    kills :
        {st : RunnerState} (name : Text) (ref : ℕ) (c : ExitCode) (signal : Option Text)
        → table_get name st.processes ≡ some ref
        → Reaches st
        → Reaches ((end_kill name ref c signal st).1)
