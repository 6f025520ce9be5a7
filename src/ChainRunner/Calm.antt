-- ===== src/ChainRunner/Calm.antt =====
-- host/src/runtime/chain-runner.ts: the states without an abort, and what ends in one of them.
use ontheia.Prelude.{
  ℕ, zero, suc, ◌≡◌, refl, sym, subst, Bool, true, false, ◌||◌, if◌then◌else◌, arith,
}
use ontheia.ChainRunner.Values.{Fields}
use ontheia.ChainRunner.Engine.{
  Header, Parsed, State, Outcome, returned, thrown, emit, step_complete, ◌>>=◌, check_abort,
  repeat_rounds, record_failure, settle,
}
use ontheia.ChainRunner.Environment.{Runner}

module _ {W : Type 0} where
  -- No abort is signalled, and `isInsideRetry` is `b`.
  abbrev pub IsCalm : Bool → State W → Type 0
  IsCalm b st = (st.inside_retry ≡ b) × (st.aborted ≡ false)

  abbrev pub EndsCalm : Bool → Outcome W → Type 0
  EndsCalm b (returned st) = IsCalm b st
  EndsCalm b (thrown message st) = IsCalm b st

  -- Only inside a retry an error gets out.
  abbrev pub IsContained : Bool → Outcome W → Type 0
  IsContained b (returned st) = IsCalm b st
  IsContained b (thrown message st) = (b ≡ true) × IsCalm b st

  pub EndsCalm-IsContained : (b : Bool) (o : Outcome W) → IsContained b o → EndsCalm b o
  EndsCalm-IsContained b (returned st) h = h
  EndsCalm-IsContained b (thrown message st) h = h.1

  pub >>=-EndsCalm :
      (b : Bool) (o : Outcome W) (f : State W → Outcome W)
      → EndsCalm b o
      → ((st : State W) → IsCalm b st → EndsCalm b (f st))
      → EndsCalm b (o >>= f)
  >>=-EndsCalm b (returned st) f h k = k st h
  >>=-EndsCalm b (thrown message st) f h k = h

  pub >>=-IsContained :
      (b : Bool) (o : Outcome W) (f : State W → Outcome W)
      → IsContained b o
      → ((st : State W) → IsCalm b st → IsContained b (f st))
      → IsContained b (o >>= f)
  >>=-IsContained b (returned st) f h k = k st h
  >>=-IsContained b (thrown message st) f h k = h

  pub settle-IsContained :
      (b : Bool) (h : Header) (o : Outcome W) → EndsCalm b o → IsContained b (settle h o)
  unfolding settle
  settle-IsContained b h (returned st) c = c
  settle-IsContained true h (thrown message st) (e, k) =
      let t : (st.inside_retry || st.aborted) ≡ true = ground arith in
      subst
        (λ c. IsContained true (
          if c
          then thrown message (record_failure h message st)
          else returned (emit (step_complete h.id) (record_failure h message st))))
        (sym t) (refl, (e, k))
  settle-IsContained false h (thrown message st) (e, k) =
      let t : (st.inside_retry || st.aborted) ≡ false = ground arith in
      subst
        (λ c. IsContained false (
          if c
          then thrown message (record_failure h message st)
          else returned (emit (step_complete h.id) (record_failure h message st))))
        (sym t) (e, k)

  pub check_abort-returned : (b : Bool) (st : State W) → IsCalm b st → check_abort st ≡ returned st
  unfolding check_abort
  check_abort-returned b st (e, k) = ground arith

  pub repeat_rounds-EndsCalm :
      (b : Bool) (n : ℕ) (body : State W → Outcome W) (st : State W)
      → ((st : State W) → IsCalm b st → EndsCalm b (body st))
      → IsCalm b st
      → EndsCalm b (repeat_rounds n body st)
  unfolding repeat_rounds
  repeat_rounds-EndsCalm b zero body st keep c = c
  repeat_rounds-EndsCalm b (suc n) body st keep c =
      subst (λ o. EndsCalm b (o >>= λ st'. body st' >>= repeat_rounds n body))
        (sym (check_abort-returned b st c))
        (>>=-EndsCalm b (body st) (repeat_rounds n body) (keep st c)
          (λ st' c'. repeat_rounds-EndsCalm b n body st' keep c'))

  pub if-EndsCalm :
      (b c : Bool) (x y : Outcome W) → EndsCalm b x → EndsCalm b y → EndsCalm b (if c then x else y)
  if-EndsCalm b true x y p q = p
  if-EndsCalm b false x y p q = q

  pub if-IsContained :
      (b c : Bool) (x y : Outcome W)
      → IsContained b x
      → IsContained b y
      → IsContained b (if c then x else y)
  if-IsContained b true x y p q = p
  if-IsContained b false x y p q = q

-- No abort is signalled while a step runs or the runner sleeps.
abbrev pub NeverAborts : {W : Type 0} → Runner W → Type 0
NeverAborts {W} r =
    ((h : Header) (fs steps : Fields) (w : W) → (r.perform h fs steps w).now_aborted ≡ false)
    × ((h : Header) (ms : Parsed) (w : W)
        → ((r.wait h ms w).noticed ≡ false) × ((r.wait h ms w).abort_set ≡ false))
