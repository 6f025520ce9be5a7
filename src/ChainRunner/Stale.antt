-- ===== src/ChainRunner/Stale.antt =====
-- host/src/runtime/chain-runner.ts: what a result of a step keeps of an earlier attempt.
use ontheia.Prelude.{
  ◌≡◌, refl, sym, ap, ◌∙◌, subst, Bool, true, false, not, ◌||◌, Option, none, some, List, [], ◌∷◌,
  if◌then◌else◌, Text, codes, text_eq, arith,
}
use ontheia.ChainRunner.Assigned.{own_field-put_same, own_field-put_other}
use ontheia.ChainRunner.Values.{
  Value, undefined, text, object, found_or, is_falsy, Fields, no_fields, field, Found, present,
  own_field, put_field, put_fields,
}
use ontheia.ChainRunner.Templates.{is_blank}
use ontheia.ChainRunner.Engine.{
  Header, leaf, State, Outcome, returned, thrown, emit, step_start, step_complete, ◌>>=◌,
  spread_result, fields_of, settle, record_failure, Edge,
}
use ontheia.ChainRunner.Environment.{
  Runner, condition, take_entries, with_inputs, take_edge, take_edges,
}
use ontheia.ChainRunner.{handle_performed, run_with, run_step}
use ontheia.ChainRunner.Calm.{IsCalm, check_abort-returned}

-- No field has this key.
abbrev pub Lacks : Text → Fields → Type 0
Lacks key no_fields = Unit
Lacks key (field k v fs) = (text_eq key k ≡ false) × Lacks key fs

own_field-put_fields :
    (key : Text) (updates fs : Fields)
    → Lacks key updates
    → own_field key (put_fields updates fs) ≡ own_field key fs
unfolding put_fields
own_field-put_fields key no_fields fs h = refl
own_field-put_fields key (field k v updates) fs (e, h) =
    own_field-put_fields key updates (put_field k v fs) h ∙ own_field-put_other key k v fs e

put_inputs-keeps :
    (id key : Text) (inputs : Value) (steps : Fields)
    → text_eq key (codes "inputs") ≡ false
    → own_field key (
        fields_of (
          own_field id (
            put_field id
              (object (put_field (codes "inputs") inputs (fields_of (own_field id steps))))
              steps)))
      ≡ own_field key (fields_of (own_field id steps))
put_inputs-keeps id key inputs steps d =
    ap (λ f. own_field key (fields_of f))
      (own_field-put_same id
        (object (put_field (codes "inputs") inputs (fields_of (own_field id steps)))) steps)
    ∙ own_field-put_other key (codes "inputs") inputs (fields_of (own_field id steps)) d

module _ {W : Type 0} where
  -- The field of the result of a step.
  abbrev pub result_field : Text → Text → State W → Found
  result_field id key st = own_field key (fields_of (own_field id st.steps))

  spread_result-keeps :
      (id key : Text) (updates : Fields) (st : State W)
      → Lacks key updates
      → result_field id key (spread_result id updates st) ≡ result_field id key st
  unfolding spread_result
  spread_result-keeps id key updates st h =
      ap (λ f. own_field key (fields_of f))
        (own_field-put_same id (object (put_fields updates (fields_of (own_field id st.steps))))
          st.steps)
      ∙ own_field-put_fields key updates (fields_of (own_field id st.steps)) h

  -- Edges write only the inputs of a result.
  take_entries-keeps :
      (r : Runner W) (id key : Text) (source : Value) (entries : List (Text × Text))
      (steps : Fields)
      → text_eq key (codes "inputs") ≡ false
      → own_field key (fields_of (own_field id (take_entries r id source entries steps)))
        ≡ own_field key (fields_of (own_field id steps))
  unfolding take_entries
  take_entries-keeps r id key source [] steps d = refl
  take_entries-keeps r id key source ((path, dst) ∷ entries) steps d =
      take_entries-keeps r id key source entries _ d ∙ put_inputs-keeps id key _ steps d

  with_inputs-keeps :
      (r : Runner W) (id key : Text) (steps : Fields)
      → text_eq key (codes "inputs") ≡ false
      → own_field key (fields_of (own_field id (with_inputs r id steps)))
        ≡ own_field key (fields_of (own_field id steps))
  unfolding with_inputs
  with_inputs-keeps r id key steps d =
      by_test (
        is_falsy (found_or undefined (own_field (codes "inputs") (fields_of (own_field id steps)))))
    where
      by_test :
          (b : Bool)
          → own_field key (
              fields_of (
                own_field id (
                  if b
                  then put_field id
                      (object (
                        put_field
                          (codes "inputs")
                          (object no_fields)
                          (fields_of (own_field id steps))))
                      steps
                  else steps)))
            ≡ own_field key (fields_of (own_field id steps))
      by_test true = put_inputs-keeps id key (object no_fields) steps d
      by_test false = refl

  take_edge-keeps :
      (r : Runner W) (id key : Text) (e : Edge) (steps : Fields)
      → text_eq key (codes "inputs") ≡ false
      → own_field key (fields_of (own_field id (take_edge r id e steps)))
        ≡ own_field key (fields_of (own_field id steps))
  unfolding take_edge
  take_edge-keeps r id key e steps d =
      by_test (is_falsy (found_or undefined (own_field e.from steps)))
    where
      by_test :
          (b : Bool)
          → own_field key (
              fields_of (
                own_field id (
                  if b
                  then steps
                  else take_entries r id
                      (found_or undefined (own_field e.from steps))
                      e.map_entries
                      (with_inputs r id steps))))
            ≡ own_field key (fields_of (own_field id steps))
      by_test true = refl
      by_test false =
          take_entries-keeps r id key (found_or undefined (own_field e.from steps)) e.map_entries
            (with_inputs r id steps) d
          ∙ with_inputs-keeps r id key steps d

  take_edges-keeps :
      (r : Runner W) (id key : Text) (edges : List Edge) (steps : Fields)
      → text_eq key (codes "inputs") ≡ false
      → own_field key (fields_of (own_field id (take_edges r id edges steps)))
        ≡ own_field key (fields_of (own_field id steps))
  unfolding take_edges
  take_edges-keeps r id key [] steps d = refl
  take_edges-keeps r id key (e ∷ edges) steps d =
      take_edges-keeps r id key edges (if text_eq e.to id then take_edge r id e steps else steps) d
      ∙ by_test (text_eq e.to id)
    where
      by_test :
          (b : Bool)
          → own_field key (fields_of (own_field id (if b then take_edge r id e steps else steps)))
            ≡ own_field key (fields_of (own_field id steps))
      by_test true = take_edge-keeps r id key e steps d
      by_test false = refl

  -- The state in which the handler of a step starts.
  abbrev pub begun : Runner W → Header → State W → State W
  begun r h st = emit (step_start h.id) (record st { steps = take_edges r h.id r.edges st.steps })

  skips : Runner W → Header → State W → Bool
  skips r h st = is_blank h.id || not (condition r st h.when)

  run_with-settle :
      (r : Runner W) (h : Header) (handler : State W → Outcome W) (st : State W) (b c : Bool)
      → IsCalm b st
      → skips r h st ≡ c
      → run_with r h handler st ≡ (if c then returned st else settle h (handler (begun r h st)))
  unfolding run_with skips
  run_with-settle r h handler st b c calm go =
      ap (λ o. o >>= λ st. if skips r h st then returned st else settle h (handler (begun r h st)))
        (check_abort-returned b st calm)
      ∙ ap (λ c. if c then returned st else settle h (handler (begun r h st))) go

  abbrev state_of : State W → Outcome W → State W
  state_of d (returned st) = d
  state_of d (thrown message st) = st

  abbrev thrown_message : Text → Outcome W → Text
  thrown_message d (returned st) = d
  thrown_message d (thrown message st) = message

  -- The marks of a failure.
  abbrev pub HasFailed : Text → Text → State W → Type 0
  HasFailed id message st =
      (result_field id (codes "status") st ≡ present (text (codes "failed")))
      × (result_field id (codes "error") st ≡ present (text message))

  record_failure-HasFailed :
      (h : Header) (message : Text) (st : State W)
      → HasFailed h.id message (record_failure h message st)
  unfolding record_failure spread_result put_fields text_eq
  record_failure-HasFailed h message st =
      let before = fields_of (own_field h.id st.steps) in
      let with_error = put_field (codes "error") (text message) before in
      let marked = put_field (codes "status") (text (codes "failed")) with_error in
      let at = own_field-put_same h.id (object marked) st.steps in
      (
        ap (λ f. own_field (codes "status") (fields_of f)) at
            ∙ own_field-put_same (codes "status") (text (codes "failed")) with_error,
        ap (λ f. own_field (codes "error") (fields_of f)) at
            ∙ (own_field-put_other (codes "error") (codes "status") (text (codes "failed"))
                  with_error refl
                ∙ own_field-put_same (codes "error") (text message) before),
      )

  settle-HasFailed :
      (h : Header) (o : Outcome W) (message : Text) (st : State W)
      → settle h o ≡ thrown message st
      → HasFailed h.id message st
  unfolding settle
  settle-HasFailed h (returned s) message st e = absurd (ground arith)
  settle-HasFailed h (thrown m s) message st e =
      by_test ((record_failure h m s).inside_retry || (record_failure h m s).aborted) e
    where
      by_test :
          (b : Bool)
          → (if b
              then thrown m (record_failure h m s)
              else returned (emit (step_complete h.id) (record_failure h m s)))
            ≡ thrown message st
          → HasFailed h.id message st
      by_test false e = absurd (ground arith)
      by_test true e =
          subst (λ o. HasFailed h.id (thrown_message m o) (state_of st o)) e
            (record_failure-HasFailed h m s)

  -- A step that throws without an abort at its start has its failure recorded.
  thrown-HasFailed :
      (r : Runner W) (h : Header) (fs : Fields) (st st' : State W) (message : Text) (b : Bool)
      → IsCalm b st
      → run_step r (leaf h fs) st ≡ thrown message st'
      → HasFailed h.id message st'
  unfolding run_step
  thrown-HasFailed r h fs st st' message b calm e = by_test (skips r h st) refl
    where
      handler : State W → Outcome W
      handler st = handle_performed r h (r.perform h fs st.steps st.world) st

      by_test : (c : Bool) → skips r h st ≡ c → HasFailed h.id message st'
      by_test true go =
          absurd (not_thrown (sym (run_with-settle r h handler st b true calm go) ∙ e))
        where
          not_thrown : ¬ (returned st ≡ thrown message st')
          not_thrown e = cc
      by_test false go =
          settle-HasFailed h (handler (begun r h st)) message st'
            (sym (run_with-settle r h handler st b false calm go) ∙ e)

  -- When a step fails in an attempt so that its error gets out, and in a later attempt, up to which the marks of the
  -- failure stay in its result, it has a name, its condition holds, no abort is signalled and it succeeds, and its handler
  -- writes neither `status` nor `error`, as those of `llm` and `tool` do not, then it returns with the status and the error
  -- of the failure.
  pub retried-HasFailed :
      (r : Runner W) (h : Header) (fs : Fields) (st failed later : State W) (message : Text)
      (b c : Bool)
      → IsCalm b st
      → run_step r (leaf h fs) st ≡ thrown message failed
      → result_field h.id (codes "status") later ≡ result_field h.id (codes "status") failed
      → result_field h.id (codes "error") later ≡ result_field h.id (codes "error") failed
      → IsCalm c later
      → is_blank h.id ≡ false
      → condition r later h.when ≡ true
      → (r.perform h fs (begun r h later).steps later.world).failure ≡ none
      → Lacks (codes "status") (r.perform h fs (begun r h later).steps later.world).updates
      → Lacks (codes "error") (r.perform h fs (begun r h later).steps later.world).updates
      → (st' : State W) × (run_step r (leaf h fs) later ≡ returned st') × HasFailed h.id message st'
  unfolding run_step handle_performed settle skips text_eq
  retried-HasFailed r h fs st failed later message b c calm fails same_status same_error calm_later
        named met succeeds no_status no_error =
      let start = begun r h later in
      let p = r.perform h fs start.steps later.world in
      let done = record (spread_result h.id p.updates start) {
        aborted = later.aborted || p.now_aborted;
        world = p.world_after;
      } in
      let go : skips r h later ≡ false = ground arith in
      let (status, error) = thrown-HasFailed r h fs st failed message b calm fails in
      (
        emit (step_complete h.id) done,
        run_with-settle r h (λ st. handle_performed r h (r.perform h fs st.steps st.world) st) later
              c false calm_later go
            ∙ ap
                (λ (o : Option Text).
                  settle h (elim o [ none ↦ returned done | some message ↦ thrown message done ]))
                succeeds,
        (
          spread_result-keeps h.id (codes "status") p.updates start no_status
              ∙ (take_edges-keeps r h.id (codes "status") r.edges later.steps refl
                  ∙ (same_status ∙ status)),
          spread_result-keeps h.id (codes "error") p.updates start no_error
              ∙ (take_edges-keeps r h.id (codes "error") r.edges later.steps refl
                  ∙ (same_error ∙ error)),
        ),
      )
