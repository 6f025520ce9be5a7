-- ===== src/Processes.antt =====
-- host/src/orchestrator/runner.ts: the class `Runner`, which starts and stops the processes of MCP servers. A process
-- object is a number, its reference; the handlers of its events and the parts of `stop` between two waits
-- are functions on the state, so that a history of the runner is a sequence of them in any order. What a
-- process reports of itself (`exitCode`, `signalCode`) is an argument at each moment it is read; signals that are sent
-- are not part of the state. `spawn` of Node reports its failures as events.
pub mod Table
mod Single
mod Kept
pub mod Live
pub mod Late
pub mod Listing
mod Tests
pub mod Objects
use ontheia.Prelude.{
  ℕ, suc, ◌+◌, ◌==◌, ltb, Bool, true, false, not, ◌&&◌, Option, none, some, List, [], ◌∷◌, ◌++◌,
  map, if◌then◌else◌, Text, codes, text_eq, trim, length, drop,
}
use ontheia.Processes.Table.{table_get, table_set, table_delete}
use ontheia.Processes.Objects.{
  ProcessStatus, ExitCode, LifecycleEvent, Preview, RunnerProcess, RunnerState, new_runner,
  StartResult, StopResult, Stopping, is_live, is_zero, put_object, tell, keep_process, log_line,
  push_output, given_host, with_docker_host, set_all, starting, running, exited, failed, null, code,
  below_zero, running_event, stopped_event, failed_event, already_running, started, not_found,
  already_stopped, force_killed, stopped, answered, polling, killing,
}

-- The listeners of the object `ref`, as long as it has them.
abbrev pub when_heard : ℕ → (RunnerProcess → RunnerState) → RunnerState → RunnerState
when_heard ref handler st = elim (st.objects ref) [
  | none ↦ st
  | some p ↦ if p.is_heard then handler p else st
]

-- `child.on('spawn', ...)`
unfoldable pub on_spawn : ℕ → ℕ → RunnerState → RunnerState
on_spawn ref now st =
    when_heard ref
      (λ p. tell (running_event p.name now) (record st {
        objects = put_object ref (record p { status = running; started_at = some now }) st.objects;
      }))
      st

abbrev pub after_exit : RunnerProcess → ExitCode → Option Text → RunnerProcess
after_exit p c signal = record p {
  status = if is_zero c then exited else failed;
  exit_code = some c;
  signal = some signal;
}

-- `child.on('exit', ...)`
unfoldable pub on_exit : ℕ → ExitCode → Option Text → RunnerState → RunnerState
on_exit ref c signal st =
    when_heard ref
      (λ p.
        tell
          (if is_zero c
            then stopped_event p.name c signal p.logs
            else failed_event p.name c signal p.logs)
          (keep_process p.name ref (after_exit p c signal) st))
      st

abbrev pub after_error : RunnerProcess → Text → RunnerProcess
after_error p message =
    log_line
      (record p {
        status = failed;
        exit_code = some (below_zero 1);
        signal = some none;
        is_heard = false;
      })
      (codes "[error] " ++ message)

-- `child.on('error', ...)`
unfoldable pub on_error : ℕ → Text → RunnerState → RunnerState
on_error ref message st =
    when_heard ref
      (λ p.
        tell (failed_event p.name (below_zero 1) none (after_error p message).logs)
          (keep_process p.name ref (after_error p message) st))
      st

-- `child.stdout.on('data', ...)` and `child.stderr.on('data', ...)`, with the label of the line.
unfoldable pub on_data : ℕ → Text → Text → RunnerState → RunnerState
unfolding trim
on_data ref label chunk st = elim (st.objects ref) [
  | none ↦ st
  | some p ↦ record st {
    objects =
        put_object ref (record p { logs = push_output (label ++ trim chunk) p.logs }) st.objects;
  }
]

-- The process that the table holds under a name.
unfoldable pub process_of : Text → RunnerState → Option RunnerProcess
process_of name st = elim (table_get name st.processes) [ none ↦ none | some ref ↦ st.objects ref ]

module _ (process_env : List (Text × Text)) (docker_host : Option Text) where
  abbrev pub new_process : Text → Preview → RunnerProcess
  new_process name preview = record {
    name = name;
    command = preview.command;
    args = preview.args;
    env = with_docker_host preview.command docker_host (set_all preview.env process_env);
    status = starting;
    exit_code = none;
    signal = none;
    logs = [];
    started_at = none;
    is_heard = true;
  }

  -- `start` from `spawn` on.
  abbrev pub launch : Text → Preview → RunnerState → RunnerState
  launch name preview st = record (keep_process name st.next (new_process name preview) st) {
    next = suc st.next;
  }

  unfoldable pub start : Text → Preview → RunnerState → StartResult × RunnerState
  unfolding process_of
  start name preview st = elim (process_of name st) [
    | none ↦ (started, launch name preview st)
    | some p ↦ if is_live p.status then (already_running, st) else (
      started,
      launch name preview (record st { processes = table_delete name st.processes }),
    )
  ]

-- `stop` up to its loop.
unfoldable pub stop : Text → RunnerState → Stopping × RunnerState
stop name st = elim (table_get name st.processes) [
  | none ↦ (answered not_found, st)
  | some ref ↦ elim (st.objects ref) [
    | none ↦ (answered not_found, st)
    | some p ↦
        if is_live p.status
        then (polling name ref, st)
        else (answered already_stopped, record st { processes = table_delete name st.processes })
  ]
]

abbrev pub is_ended : ExitCode → Option Text → Bool
is_ended null none = false
is_ended c signal = true

module _ (show_code : ExitCode → Text) where
  abbrev pub signal_text : Option Text → Text
  signal_text none = codes "null"
  signal_text (some s) = s

  abbrev pub after_stop : RunnerProcess → ExitCode → Option Text → RunnerProcess
  after_stop p c signal =
      log_line (record p { status = exited; exit_code = some c; signal = some signal })
        (codes "[exit] code=" ++ (show_code c ++ (codes " signal=" ++ signal_text signal)))

  -- One turn of the loop of `stop`, which finds `exitCode` and `signalCode` and whether the time is up.
  unfoldable pub poll :
      Text → ℕ → Bool → ExitCode → Option Text → RunnerState → Stopping × RunnerState
  poll name ref late c signal st = elim (st.objects ref) [
    | none ↦ (polling name ref, st)
    | some p ↦
        if is_ended c signal
        then (answered stopped, keep_process name ref (after_stop p c signal) st)
        else (if late then killing name ref else polling name ref, st)
  ]

abbrev pub after_kill : RunnerProcess → ExitCode → Option Text → RunnerProcess
after_kill p c signal =
    log_line (record p { status = failed; exit_code = some c; signal = some signal })
      (codes "[signal] SIGKILL sent after timeout")

-- `stop` behind the SIGKILL and its wait.
unfoldable pub end_kill : Text → ℕ → ExitCode → Option Text → RunnerState → Stopping × RunnerState
end_kill name ref c signal st = elim (st.objects ref) [
  | none ↦ (killing name ref, st)
  | some p ↦ (answered force_killed, keep_process name ref (after_kill p c signal) st)
]
