-- ===== src/Processes/Late.antt =====
-- host/src/orchestrator/runner.ts: the end of a process that the table holds no longer.
use ontheia.Prelude.{
  ◌≡◌, ◌<◌, refl, sym, subst, inl, inr, ap, ◌∙◌, ◌==◌, ==_iff, ℕ, true, false, Option, none, some,
  List, if◌then◌else◌, Text, Bool-cases, arith,
}
use ontheia.Processes.Table.{table_delete, get-set_same}
use ontheia.Processes.Single.{put-same}
use ontheia.Processes.Objects.{
  ExitCode, RunnerProcess, RunnerState, Preview, StartResult, started, already_running, is_live,
  tell, LifecycleEvent, stopped_event, failed_event, is_zero, put_object, keep_process,
}
use ontheia.Processes.{launch, process_of, after_exit, new_process, on_exit, start}

put-other :
    (ref : ℕ) (p : RunnerProcess) (objects : ℕ → Option RunnerProcess) (k : ℕ)
    → ¬ (k ≡ ref)
    → put_object ref p objects k ≡ objects k
unfolding put_object
put-other ref p objects k d = elim (Bool-cases (k == ref)) [
  | inl e ↦ absurd (d ((==_iff k ref).0 e))
  | inr e ↦ ap (λ b. if b then some p else objects k) e
]

-- Two processes of one name that both start or run.
abbrev pub HasTwo : Text → RunnerState → Type 0
HasTwo name st =
    (j k : ℕ) × (p q : RunnerProcess) × (¬ (j ≡ k))
    × (st.objects j ≡ some p)
    × (st.objects k ≡ some q)
    × (p.name ≡ name)
    × (q.name ≡ name)
    × (is_live p.status ≡ true)
    × (is_live q.status ≡ true)

module _ (ref : ℕ) (c : ExitCode) (signal : Option Text) where
  abbrev told : RunnerProcess → LifecycleEvent
  told p =
      if is_zero c
      then stopped_event p.name c signal p.logs
      else failed_event p.name c signal p.logs

  -- What an exit does that is heard.
  heard_exit :
      (st : RunnerState) (old : RunnerProcess)
      → st.objects ref ≡ some old
      → old.is_heard ≡ true
      → on_exit ref c signal st
        ≡ tell (told old) (keep_process old.name ref (after_exit old c signal) st)
  unfolding on_exit
  heard_exit st old found heard =
      ap
        (λ o. elim o [
          | none ↦ st
          | some p ↦
              if p.is_heard
              then tell (told p) (keep_process p.name ref (after_exit p c signal) st)
              else st
        ])
        found
      ∙ ap
          (λ b.
            if b
            then tell (told old) (keep_process old.name ref (after_exit old c signal) st)
            else st)
          heard

  held_exit :
      (st : RunnerState) (old : RunnerProcess)
      → process_of old.name
          (tell (told old) (keep_process old.name ref (after_exit old c signal) st))
        ≡ some (after_exit old c signal)
  unfolding process_of
  held_exit st old =
      ap
        (λ o. elim o [
          | none ↦ none
          | some r ↦ put_object ref (after_exit old c signal) st.objects r
        ])
        (get-set_same old.name ref st.processes)
      ∙ put-same ref (after_exit old c signal) st.objects

  ended-dead : (old : RunnerProcess) → is_live (after_exit old c signal).status ≡ false
  ended-dead old = elim (Bool-cases (is_zero c)) [ inl e ↦ ground arith | inr e ↦ ground arith ]

module _ (process_env : List (Text × Text)) (docker_host : Option Text) where
  start-dead :
      (name : Text) (preview : Preview) (st : RunnerState) (p : RunnerProcess)
      → process_of name st ≡ some p
      → is_live p.status ≡ false
      → start process_env docker_host name preview st ≡ (
        started,
        launch process_env docker_host name preview
            (record st { processes = table_delete name st.processes }),
      )
  unfolding start
  start-dead name preview st p found dead =
      let begun =
        launch process_env docker_host name preview
          (record st { processes = table_delete name st.processes }) in
      ap
        (λ o. elim o [
          | none ↦ (started, launch process_env docker_host name preview st)
          | some q ↦ if is_live q.status then (already_running, st) else (started, begun)
        ])
        found
      ∙ ap (λ b. if b then (already_running, st) else (started, begun)) dead

  -- When a process ends that is heard and was replaced under its name by another one that lives, as after a SIGKILL
  -- that came late, then `start` for that name starts one more, and two live under the name.
  pub start-on_exit :
      (st : RunnerState) (ref other : ℕ) (old new : RunnerProcess) (c : ExitCode)
      (signal : Option Text) (preview : Preview)
      → st.objects ref ≡ some old
      → old.is_heard ≡ true
      → st.objects other ≡ some new
      → ¬ (other ≡ ref)
      → other < st.next
      → new.name ≡ old.name
      → is_live new.status ≡ true
      → ((start process_env docker_host old.name preview (on_exit ref c signal st)).0 ≡ started)
        × HasTwo old.name
            ((start process_env docker_host old.name preview (on_exit ref c signal st)).1)
  start-on_exit st ref other old new c signal preview found heard at d below same live =
      let ended =
        tell (told ref c signal old) (keep_process old.name ref (after_exit old c signal) st) in
      let begun : start process_env docker_host old.name preview (on_exit ref c signal st) ≡ (
        started,
        launch process_env docker_host old.name preview
            (record ended { processes = table_delete old.name ended.processes }),
      ) =
        ap (start process_env docker_host old.name preview)
          (heard_exit ref c signal st old found heard)
        ∙ start-dead old.name preview ended (after_exit old c signal)
            (held_exit ref c signal st old) (ended-dead ref c signal old) in
      let kept : put_object st.next (new_process process_env docker_host old.name preview)
            ended.objects other
          ≡ some new =
        put-other st.next (new_process process_env docker_host old.name preview) ended.objects other
          (λ e. omega (arith, e, below))
        ∙ (put-other ref (after_exit old c signal) st.objects other d ∙ at) in
      subst (λ (x : StartResult × RunnerState). (x.0 ≡ started) × HasTwo old.name x.1) (sym begun)
        (
          refl,
          (
            other,
            st.next,
            new,
            new_process process_env docker_host old.name preview,
            (λ e. omega (arith, e, below)),
            kept,
            put-same st.next (new_process process_env docker_host old.name preview) ended.objects,
            same,
            refl,
            live,
            refl,
          ),
        )
