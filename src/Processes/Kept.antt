-- ===== src/Processes/Kept.antt =====
-- host/src/orchestrator/runner.ts: each operation keeps the invariant of the table of processes.
use ontheia.Prelude.{
  ℕ, ◌≡◌, refl, sym, ap, ◌∙◌, inl, inr, Bool, true, false, Option, none, some, List, if◌then◌else◌,
  Text, Bool-cases, arith,
}
use ontheia.Processes.Table.{table_get, table_delete}
use ontheia.Processes.Single.{
  Holds, changed-IsSingle, dead-IsSingle, deleted-IsSingle, launched-IsSingle, none_lives,
}
use ontheia.Processes.Objects.{
  starting, running, ExitCode, RunnerProcess, RunnerState, Preview, is_live, is_zero,
}
use ontheia.Processes.{
  is_ended, after_exit, after_error, after_stop, after_kill, new_process, on_spawn, on_exit,
  on_error, on_data, process_of, start, stop, poll, end_kill,
}

-- The table holds the process `ref` under its name.
abbrev pub IsCurrent : ℕ → RunnerState → Type 0
IsCurrent ref st =
    (p : RunnerProcess) × ((st.objects ref ≡ some p) × (table_get p.name st.processes ≡ some ref))

abbrev HoldsAfter : {A : Type 0} → A × RunnerState → Type 0
HoldsAfter (a, st) = Holds st

-- The branches of an optional value and of a test.
by_option :
    {A B : Type 0} (P : A → Type 0) (o : Option B) (a : A) (f : B → A)
    → (o ≡ none → P a)
    → ((b : B) → o ≡ some b → P (f b))
    → P (elim o [ none ↦ a | some b ↦ f b ])
by_option P none a f h k = h refl
by_option P (some b) a f h k = k b refl

by_if :
    {A : Type 0} (P : A → Type 0) (b : Bool) (x y : A)
    → (b ≡ true → P x)
    → (b ≡ false → P y)
    → P (if b then x else y)
by_if P true x y h k = h refl
by_if P false x y h k = k refl

named-some : {A : Type 0} {a b : A} → some a ≡ some b → a ≡ b
named-some {a} e = ap (λ o. elim o [ none ↦ a | some x ↦ x ]) e

zero-dead :
    (p : RunnerProcess) (c : ExitCode) (signal : Option Text)
    → is_live (after_exit p c signal).status ≡ false
zero-dead p c signal = elim (Bool-cases (is_zero c)) [ inl e ↦ ground arith | inr e ↦ ground arith ]

pub on_spawn-Holds :
    (ref now : ℕ) (p : RunnerProcess) (st : RunnerState)
    → st.objects ref ≡ some p
    → p.status ≡ starting
    → Holds st
    → Holds (on_spawn ref now st)
unfolding on_spawn
on_spawn-Holds ref now p st found begins s =
    by_option Holds (st.objects ref) st _ (λ e. s)
      (λ q at.
        by_if Holds q.is_heard _ st
          (λ e.
            changed-IsSingle st.processes ref q
              (record q { status = running; started_at = some now }) at refl
              (λ l. ap (λ r. is_live r.status) (named-some (sym at ∙ found)) ∙ ap is_live begins)
              (λ name. refl) s)
          (λ e. s))

pub on_exit-Holds :
    (ref : ℕ) (c : ExitCode) (signal : Option Text) (st : RunnerState)
    → IsCurrent ref st
    → Holds st
    → Holds (on_exit ref c signal st)
unfolding on_exit
on_exit-Holds ref c signal st (p, (found, current)) s =
    by_option Holds (st.objects ref) st _ (λ e. s)
      (λ q at.
        by_if Holds q.is_heard _ st
          (λ e.
            dead-IsSingle st q.name ref q (after_exit q c signal)
              (ap (λ r. table_get r.name st.processes) (named-some (sym at ∙ found)) ∙ current) at
              refl (zero-dead q c signal) s)
          (λ e. s))

pub on_error-Holds :
    (ref : ℕ) (message : Text) (st : RunnerState)
    → IsCurrent ref st
    → Holds st
    → Holds (on_error ref message st)
unfolding on_error
on_error-Holds ref message st (p, (found, current)) s =
    by_option Holds (st.objects ref) st _ (λ e. s)
      (λ q at.
        by_if Holds q.is_heard _ st
          (λ e.
            dead-IsSingle st q.name ref q (after_error q message)
              (ap (λ r. table_get r.name st.processes) (named-some (sym at ∙ found)) ∙ current) at
              refl refl s)
          (λ e. s))

pub on_data-Holds :
    (ref : ℕ) (label chunk : Text) (st : RunnerState)
    → Holds st
    → Holds (on_data ref label chunk st)
unfolding on_data
on_data-Holds ref label chunk st s =
    by_option Holds (st.objects ref) st _ (λ e. s)
      (λ q at. changed-IsSingle st.processes ref q _ at refl (λ l. l) (λ name. refl) s)

pub stop-Holds : (name : Text) (st : RunnerState) → Holds st → Holds ((stop name st).1)
unfolding stop
stop-Holds name st s =
    by_option HoldsAfter (table_get name st.processes) _ _ (λ e. s)
      (λ ref at.
        by_option HoldsAfter (st.objects ref) _ _ (λ e. s)
          (λ p found.
            by_if HoldsAfter (is_live p.status) _ _ (λ l. s)
              (λ dead.
                deleted-IsSingle st name
                  (none_lives st name (some ref) at
                    (λ k q e h.
                      let same : p ≡ q =
                        named-some (sym found ∙ (ap st.objects (named-some e) ∙ h)) in
                      ap (λ r. is_live r.status) (sym same) ∙ dead)
                    s)
                  s)))

process_of-some :
    (name : Text) (ref : ℕ) (st : RunnerState)
    → table_get name st.processes ≡ some ref
    → process_of name st ≡ st.objects ref
unfolding process_of
process_of-some name ref st e = ap (λ o. elim o [ none ↦ none | some r ↦ st.objects r ]) e

module _ (process_env : List (Text × Text)) (docker_host : Option Text)
    (show_code : ExitCode → Text) where
  pub start-Holds :
      (name : Text) (preview : Preview) (st : RunnerState)
      → Holds st
      → Holds ((start process_env docker_host name preview st).1)
  unfolding start
  start-Holds name preview st s =
      by_option HoldsAfter (process_of name st) _ _
        (λ missing.
          launched-IsSingle st name (new_process process_env docker_host name preview) refl
            (vacant (λ q e. absurd (ground arith))) s)
        (λ p found.
          by_if HoldsAfter (is_live p.status) _ _ (λ l. s)
            (λ dead.
              let empty =
                vacant (λ q e. ap (λ r. is_live r.status) (named-some (sym e ∙ found)) ∙ dead) in
              launched-IsSingle (record st { processes = table_delete name st.processes }) name
                (new_process process_env docker_host name preview) refl empty
                (deleted-IsSingle st name empty s)))
    where
      vacant :
          ((q : RunnerProcess) → process_of name st ≡ some q → is_live q.status ≡ false)
          → (k : ℕ) (p : RunnerProcess) → st.objects k ≡ some p
          → is_live p.status ≡ true
          → p.name ≡ name
          → ⊥
      vacant dead =
          none_lives st name (table_get name st.processes) refl
            (λ ref q e h. dead q (process_of-some name ref st e ∙ h)) s

  pub poll-Holds :
      (name : Text) (ref : ℕ) (late : Bool) (c : ExitCode) (signal : Option Text) (st : RunnerState)
      → table_get name st.processes ≡ some ref
      → Holds st
      → Holds ((poll show_code name ref late c signal st).1)
  unfolding poll
  poll-Holds name ref late c signal st current s =
      by_option HoldsAfter (st.objects ref) _ _ (λ e. s)
        (λ q at.
          by_if HoldsAfter (is_ended c signal) _ _
            (λ e.
              dead-IsSingle st name ref q (after_stop show_code q c signal) current at refl refl s)
            (λ e. s))

pub end_kill-Holds :
    (name : Text) (ref : ℕ) (c : ExitCode) (signal : Option Text) (st : RunnerState)
    → table_get name st.processes ≡ some ref
    → Holds st
    → Holds ((end_kill name ref c signal st).1)
unfolding end_kill
end_kill-Holds name ref c signal st current s =
    by_option HoldsAfter (st.objects ref) _ _ (λ e. s)
      (λ q at. dead-IsSingle st name ref q (after_kill q c signal) current at refl refl s)
