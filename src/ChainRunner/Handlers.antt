-- ===== src/ChainRunner/Handlers.antt =====
-- host/src/runtime/chain-runner.ts: no handler of a step brings an abort of its own.
use ontheia.Prelude.{
  ℕ, zero, suc, ◌==◌, refl, sym, subst, Bool, true, false, not, ◌||◌, Option, none, some, codes,
  if◌then◌else◌, Text, arith,
}
use ontheia.ChainRunner.Values.{Value, Fields, is_falsy}
use ontheia.ChainRunner.Templates.{is_blank}
use ontheia.ChainRunner.Engine.{
  Header, Setting, Parsed, rounds, at_most, State, Outcome, returned, thrown, emit, step_start,
  ◌>>=◌, abort_message, check_abort, repeat_rounds, spread_result, settle,
}
use ontheia.ChainRunner.Environment.{Runner, condition, read_setting, take_edges}
use ontheia.ChainRunner.{
  handle_performed, handle_transform, handle_delay, delayed, after_sleep, sleep, pause_after,
  check_success, attempts, restore, attempts_failed, after_attempts, handle_retry, handle_loop,
  run_with,
}
use ontheia.ChainRunner.Calm.{
  NeverAborts, IsCalm, EndsCalm, IsContained, EndsCalm-IsContained, >>=-EndsCalm,
  settle-IsContained, check_abort-returned, repeat_rounds-EndsCalm, if-EndsCalm, if-IsContained,
}

module _ {W : Type 0} (r : Runner W) (quiet : NeverAborts r) where
  pub run_with-IsContained :
      (b : Bool) (h : Header) (handler : State W → Outcome W) (st : State W)
      → ((st : State W) → IsCalm b st → EndsCalm b (handler st))
      → IsCalm b st
      → IsContained b (run_with r h handler st)
  unfolding run_with
  run_with-IsContained b h handler st keep c =
      let started =
        emit (step_start h.id) (record st { steps = take_edges r h.id r.edges st.steps }) in
      subst
        (λ o. IsContained b (
          o >>= λ st.
          if is_blank h.id || not (condition r st h.when)
          then returned st
          else settle h (
              handler (
                emit (step_start h.id)
                  (record st { steps = take_edges r h.id r.edges st.steps })))))
        (sym (check_abort-returned b st c))
        (if-IsContained b (is_blank h.id || not (condition r st h.when)) (returned st)
          (settle h (handler started)) c
          (settle-IsContained b h (handler started) (keep started c)))

  pub handle_performed-EndsCalm :
      (b : Bool) (h : Header) (fs : Fields) (st : State W)
      → IsCalm b st
      → EndsCalm b (handle_performed r h (r.perform h fs st.steps st.world) st)
  unfolding handle_performed
  handle_performed-EndsCalm b h fs st (e, k) = by_failure (r.perform h fs st.steps st.world).failure
    where
      ended : State W
      ended =
          let p = r.perform h fs st.steps st.world in
          record (spread_result h.id p.updates st) {
            aborted = st.aborted || p.now_aborted;
            world = p.world_after;
          }

      calm : IsCalm b ended
      calm = let q = quiet.0 h fs st.steps st.world in (e, ground arith)

      by_failure :
          (o : Option Text)
          → EndsCalm b (elim o [ none ↦ returned ended | some message ↦ thrown message ended ])
      by_failure none = calm
      by_failure (some message) = calm

  pub handle_transform-EndsCalm :
      (b : Bool) (h : Header) (template : Text) (silent : Bool) (st : State W)
      → IsCalm b st
      → EndsCalm b (handle_transform r h template silent st)
  unfolding handle_transform
  handle_transform-EndsCalm b h template true st c = c
  handle_transform-EndsCalm b h template false st c = c

  pub after_sleep-IsCalm :
      (b : Bool) (h : Header) (ms : Parsed) (st : State W)
      → IsCalm b st
      → IsCalm b (after_sleep r (r.wait h ms st.world) st)
  after_sleep-IsCalm b h ms st (e, k) = let q = quiet.1 h ms st.world in (e, ground arith)

  pub handle_delay-EndsCalm :
      (b : Bool) (h : Header) (s : Setting) (st : State W)
      → IsCalm b st
      → EndsCalm b (handle_delay r h s st)
  unfolding handle_delay
  handle_delay-EndsCalm b h s st c =
      let ms = read_setting r (codes "1000") 1000 s st in
      let calm = after_sleep-IsCalm b h ms st c in
      if-EndsCalm b (rounds ms == 0) (delayed r h ms st) (check_abort st >>= sleep r h ms) c (
        subst (λ o. EndsCalm b (o >>= sleep r h ms)) (sym (check_abort-returned b st c))
          (if-EndsCalm b (r.wait h ms st.world).noticed
            (thrown abort_message (after_sleep r (r.wait h ms st.world) st))
            (delayed r h ms (after_sleep r (r.wait h ms st.world) st)) calm calm))

  pub handle_loop-EndsCalm :
      (b : Bool) (h : Header) (count : Setting) (body : State W → Outcome W) (st : State W)
      → ((st : State W) → IsCalm b st → EndsCalm b (body st))
      → IsCalm b st
      → EndsCalm b (handle_loop r h count body st)
  unfolding handle_loop
  handle_loop-EndsCalm b h count body st keep c =
      >>=-EndsCalm b (repeat_rounds (rounds (at_most 50 (read_setting r _ 1 count st))) body st) _
        (repeat_rounds-EndsCalm b (rounds (at_most 50 (read_setting r _ 1 count st))) body st keep
          c)
        (λ st' c'. c')

  pub pause_after-IsCalm :
      (b : Bool) (h : Header) (ms : Parsed) (left : ℕ) (st : State W)
      → IsCalm b st
      → IsCalm b (pause_after r h ms left st)
  unfolding pause_after
  pause_after-IsCalm b h ms left st c = by_test (left == 0 || rounds ms == 0)
    where
      by_test : (t : Bool) → IsCalm b (if t then st else after_sleep r (r.wait h ms st.world) st)
      by_test true = c
      by_test false = after_sleep-IsCalm b h ms st c

  pub attempts-EndsCalm :
      (b : Bool) (h : Header) (ms : Parsed) (body : State W → Outcome W) (left : ℕ) (last : Text)
      (st : State W)
      → ((st : State W) → IsCalm b st → EndsCalm b (body st))
      → IsCalm b st
      → EndsCalm b (attempts r h ms body left last st)
  unfolding attempts
  attempts-EndsCalm b h ms body zero last st keep c = c
  attempts-EndsCalm b h ms body (suc left) last st keep c =
      subst
        (λ o. EndsCalm b (
          o >>= λ st. elim (body st) [
            | returned st' ↦ returned st'
            | thrown message st' ↦ elim (st'.aborted) [
              | true ↦ thrown message st'
              | false ↦ attempts r h ms body left message (pause_after r h ms left st')
            ]
          ]))
        (sym (check_abort-returned b st c))
        (by_outcome (body st) (keep st c) (λ message st' c'.
          attempts-EndsCalm b h ms body left message (pause_after r h ms left st') keep
            (pause_after-IsCalm b h ms left st' c')))
    where
      by_outcome :
          (o : Outcome W)
          → EndsCalm b o
          → ((message : Text) (st' : State W)
              → IsCalm b st'
              → EndsCalm b (attempts r h ms body left message (pause_after r h ms left st')))
          → EndsCalm b (elim o [
            | returned st' ↦ returned st'
            | thrown message st' ↦ elim (st'.aborted) [
              | true ↦ thrown message st'
              | false ↦ attempts r h ms body left message (pause_after r h ms left st')
            ]
          ])
      by_outcome (returned st') c' again = c'
      by_outcome (thrown message st') c' again = by_abort (st'.aborted)
        where
          by_abort :
              (a : Bool)
              → EndsCalm b (elim a [
                | true ↦ thrown message st'
                | false ↦ attempts r h ms body left message (pause_after r h ms left st')
              ])
          by_abort true = c'
          by_abort false = again message st' c'

  pub check_success-EndsCalm :
      (b : Bool) (v : Value) (st : State W) → IsCalm b st → EndsCalm b (check_success r v st)
  unfolding check_success
  check_success-EndsCalm b v st c =
      if-EndsCalm b (is_falsy v || condition r st v) (returned st) (thrown _ st) c c

  pub after_attempts-EndsCalm :
      (b : Bool) (h : Header) (n : Parsed) (o : Outcome W)
      → EndsCalm true o
      → EndsCalm b (after_attempts r h n b o)
  unfolding after_attempts
  after_attempts-EndsCalm b h n (returned st) (e, k) = (refl, k)
  after_attempts-EndsCalm b h n (thrown message st) (e, k) =
      subst (λ a. IsCalm b (if a then st else restore r b st)) (sym k) (refl, k)

  pub handle_retry-EndsCalm :
      (b : Bool) (h : Header) (count pause : Setting) (success_when : Value)
      (body : State W → Outcome W) (st : State W)
      → ((st : State W) → IsCalm true st → IsContained true (body st))
      → IsCalm b st
      → EndsCalm b (handle_retry r h count pause success_when body st)
  unfolding handle_retry
  handle_retry-EndsCalm b h count pause success_when body st keep (e, k) =
      let n = read_setting r (codes "3") 3 count st in
      let o =
        attempts r h (read_setting r (codes "1000") 1000 pause st)
          (λ st. body st >>= check_success r success_when) (rounds n) (attempts_failed r h n)
          (restore r true st) in
      subst (λ was. EndsCalm b (after_attempts r h n was o)) (sym e)
        (after_attempts-EndsCalm b h n o (
          attempts-EndsCalm true h (read_setting r (codes "1000") 1000 pause st)
            (λ st. body st >>= check_success r success_when) (rounds n) (attempts_failed r h n)
            (restore r true st)
            (λ st c.
              >>=-EndsCalm true (body st) (check_success r success_when)
                (EndsCalm-IsContained true (body st) (keep st c))
                (check_success-EndsCalm true success_when))
            (refl, k)))
