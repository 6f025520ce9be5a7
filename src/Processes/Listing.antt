-- ===== src/Processes/Listing.antt =====
-- host/src/orchestrator/runner.ts: `stopAll`, and `list`, which reads the table.
use ontheia.Prelude.{ℕ, ◌==◌, Option, none, some, List, [], ◌∷◌, map, if◌then◌else◌, Text}
use ontheia.Processes.Objects.{ProcessStatus, ExitCode, RunnerProcess, RunnerState, Stopping}
use ontheia.Processes.{stop}

-- `stop` for each of the names in turn, up to its loop: what `stopAll` does before it waits.
unfoldable pub stop_each : List Text → RunnerState → List (Text × Stopping) × RunnerState
stop_each [] st = ([], st)
stop_each (name ∷ names) st =
    let (result, st') = stop name st in
    let (results, st'') = stop_each names st' in ((name, result) ∷ results, st'')

unfoldable pub stop_all : RunnerState → List (Text × Stopping) × RunnerState
stop_all st = stop_each (map (λ entry. entry.0) st.processes) st

pub record ListedProcess : Type 0 where
  pub name : Text
  pub command : Text
  pub args : List Text
  pub status : ProcessStatus
  pub exit_code : Option ExitCode
  pub signal : Option (Option Text)
  pub started_at : Option Text

module _ (iso_string : ℕ → Text) where
  -- `startedAt ? new Date(startedAt).toISOString() : null`
  abbrev pub iso_or_null : Option ℕ → Option Text
  iso_or_null none = none
  iso_or_null (some t) = if t == 0 then none else some (iso_string t)

  abbrev pub listed : RunnerProcess → ListedProcess
  listed p = record {
    name = p.name;
    command = p.command;
    args = p.args;
    status = p.status;
    exit_code = p.exit_code;
    signal = p.signal;
    started_at = iso_or_null p.started_at;
  }

  unfoldable pub list_entries : (ℕ → Option RunnerProcess) → List (Text × ℕ) → List ListedProcess
  list_entries objects [] = []
  list_entries objects ((name, ref) ∷ entries) = elim (objects ref) [
    | none ↦ list_entries objects entries
    | some p ↦ listed p ∷ list_entries objects entries
  ]

  unfoldable pub list : RunnerState → List ListedProcess
  list st = list_entries st.objects st.processes
