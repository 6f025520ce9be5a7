-- ===== src/ChainRunner/Contained.antt =====
-- host/src/runtime/chain-runner.ts: a run that nobody aborts ends with its results, whatever fails in it.
use ontheia.Prelude.{ℕ, ◌+◌, ◌≡◌, refl, Bool, true, false, []}
use ontheia.ChainRunner.Values.{no_fields}
use ontheia.ChainRunner.Engine.{
  Header, Step, leaf, transform, delay, branch, loop, retry, Steps, no_steps, step, Cases, case,
  no_default, default, State, Outcome, returned, thrown,
}
use ontheia.ChainRunner.Environment.{Runner, condition}
use ontheia.ChainRunner.{
  handle_performed, handle_transform, handle_delay, handle_retry, handle_loop, run_step, run_steps,
  run_cases, run,
}
use ontheia.ChainRunner.Calm.{
  NeverAborts, IsCalm, EndsCalm, IsContained, EndsCalm-IsContained, >>=-EndsCalm, >>=-IsContained,
  if-EndsCalm,
}
use ontheia.ChainRunner.Handlers.{
  run_with-IsContained, handle_performed-EndsCalm, handle_transform-EndsCalm, handle_delay-EndsCalm,
  handle_loop-EndsCalm, handle_retry-EndsCalm,
}

module _ {W : Type 0} (r : Runner W) (quiet : NeverAborts r) where
  mutual
    unfolding run_step run_steps run_cases

    run_step-IsContained :
        (b : Bool) (s : Step) (st : State W) → IsCalm b st → IsContained b (run_step r s st)
    run_step-IsContained b (leaf h fs) st c =
        run_with-IsContained r quiet b h
          (λ st. handle_performed r h (r.perform h fs st.steps st.world) st) st
          (handle_performed-EndsCalm r quiet b h fs) c
    run_step-IsContained b (transform h template silent) st c =
        run_with-IsContained r quiet b h (handle_transform r h template silent) st
          (handle_transform-EndsCalm r quiet b h template silent) c
    run_step-IsContained b (delay h s) st c =
        run_with-IsContained r quiet b h (handle_delay r h s) st
          (handle_delay-EndsCalm r quiet b h s) c
    run_step-IsContained b (branch h cases) st c =
        run_with-IsContained r quiet b h (λ st. run_cases r h 0 cases st) st
          (λ st c. run_cases-EndsCalm b h 0 cases st c) c
    run_step-IsContained b (loop h count steps) st c =
        run_with-IsContained r quiet b h (handle_loop r h count (λ st. run_steps r steps st)) st
          (λ st c.
            handle_loop-EndsCalm r quiet b h count (λ st. run_steps r steps st) st
              (λ st c.
                EndsCalm-IsContained b (run_steps r steps st) (run_steps-IsContained b steps st c))
              c)
          c
    run_step-IsContained b (retry h count pause success_when steps) st c =
        run_with-IsContained r quiet b h
          (handle_retry r h count pause success_when (λ st. run_steps r steps st)) st
          (λ st c.
            handle_retry-EndsCalm r quiet b h count pause success_when (λ st. run_steps r steps st)
              st (λ st c. run_steps-IsContained true steps st c) c)
          c

    run_steps-IsContained :
        (b : Bool) (steps : Steps) (st : State W)
        → IsCalm b st
        → IsContained b (run_steps r steps st)
    run_steps-IsContained b no_steps st c = c
    run_steps-IsContained b (step s steps) st c =
        >>=-IsContained b (run_step r s st) (λ st. run_steps r steps st)
          (run_step-IsContained b s st c) (λ st c. run_steps-IsContained b steps st c)

    run_cases-EndsCalm :
        (b : Bool) (h : Header) (i : ℕ) (cases : Cases) (st : State W)
        → IsCalm b st
        → EndsCalm b (run_cases r h i cases st)
    run_cases-EndsCalm b h i no_default st c = c
    run_cases-EndsCalm b h i (default steps) st c =
        >>=-EndsCalm b (run_steps r steps st) _
          (EndsCalm-IsContained b (run_steps r steps st) (run_steps-IsContained b steps st c))
          (λ st c. c)
    run_cases-EndsCalm b h i (case when steps cases) st c =
        if-EndsCalm b (condition r st when) _ (run_cases r h (i + 1) cases st)
          (>>=-EndsCalm b (run_steps r steps st) _
            (EndsCalm-IsContained b (run_steps r steps st) (run_steps-IsContained b steps st c))
            (λ st c. c))
          (run_cases-EndsCalm b h (i + 1) cases st c)

  -- Where no call of a handler and no wait signals an abort, a chain without parallel steps that starts without an
  -- abort returns its results and throws nothing, whatever else its steps are.
  pub run-Returns :
      (steps : Steps) (world : W) → (st : State W) × (run r steps false world ≡ returned st)
  unfolding run
  run-Returns steps world =
      by_outcome
        (run_steps r steps (record {
          steps = no_fields;
          inside_retry = false;
          aborted = false;
          events = [];
          world = world;
        }))
        (run_steps-IsContained false steps
          (record {
            steps = no_fields;
            inside_retry = false;
            aborted = false;
            events = [];
            world = world;
          })
          (refl, refl))
    where
      by_outcome : (o : Outcome W) → IsContained false o → (st : State W) × (o ≡ returned st)
      by_outcome (returned st) c = (st, refl)
      by_outcome (thrown message st) (e, c) = cc
