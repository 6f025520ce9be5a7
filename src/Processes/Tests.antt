-- ===== src/Processes/Tests.antt =====
-- A process that is killed, started again, and ends late.
use ontheia.Prelude.{◌≡◌, refl, true, none, some, [], ◌∷◌, Text, codes, arith}
use ontheia.Processes.Table.{table_get, table_set, table_delete}
use ontheia.Processes.Objects.{
  set_all, put_object, ExitCode, null, RunnerProcess, RunnerState, Preview, new_runner, running,
  started, killing,
}
use ontheia.Processes.{
  process_of, new_process, after_kill, on_spawn, on_exit, start, poll, end_kill,
}
use ontheia.Processes.Late.{HasTwo, start-on_exit}

abbrev show_exit_code : ExitCode → Text
show_exit_code c = codes "0"

abbrev server : Text
server = codes "files"

abbrev preview : Preview
preview = record { command = codes "docker"; args = codes "run" ∷ []; env = [] }

abbrev launched : RunnerState
launched = on_spawn 0 7 ((start [] none server preview new_runner).1)

abbrev killed_late : RunnerState
killed_late =
    (end_kill server 0 null none ((poll show_exit_code server 0 true null none launched).1)).1

abbrev again : RunnerState
again = on_spawn 1 9 ((start [] none server preview killed_late).1)

killed_test : (poll show_exit_code server 0 true null none launched).0 ≡ killing server 0
unfolding poll on_spawn start table_get put_object table_set table_delete process_of set_all
    end_kill
killed_test = refl

abbrev second : RunnerProcess
second = record (new_process [] none server preview) { status = running; started_at = some 9 }

abbrev first : RunnerProcess
first =
    after_kill
      (record (new_process [] none server preview) { status = running; started_at = some 7 }) null
      none

start-on_exit_example :
    ((start [] none server preview (on_exit 0 null (some (codes "SIGKILL")) again)).0 ≡ started)
    × HasTwo server
        ((start [] none server preview (on_exit 0 null (some (codes "SIGKILL")) again)).1)
unfolding poll on_spawn start table_get put_object table_set table_delete process_of set_all
    end_kill
start-on_exit_example =
    start-on_exit [] none again 0 1 first second null (some (codes "SIGKILL")) preview refl refl
      refl (λ e. omega (arith, e)) (omega arith) refl refl
