-- ===== src/Processes/Single.antt =====
-- host/src/orchestrator/runner.ts: the invariant of the table of processes, and the changes that keep it.
use ontheia.Prelude.{
  ℕ, suc, ◌≡◌, ◌<◌, refl, sym, ap, ◌∙◌, subst, ◌⊎◌, inl, inr, Bool, true, false, Option, none, some,
  List, if◌then◌else◌, Text, text_eq, text_eq_sound, ◌==◌, ==_iff, Bool-cases, arith,
}
use ontheia.Processes.Table.{
  table_get, table_set, table_delete, get-set_same, get-set_other, get-set_current,
  get-delete_other,
}
use ontheia.Processes.Objects.{RunnerProcess, RunnerState, is_live, put_object, keep_process}

-- The objects have numbers below the next one, and the table holds each of them that lives.
pub record IsSingle (objects : ℕ → Option RunnerProcess) (next : ℕ) (processes : List (Text × ℕ))
    : Type 0 where
  pub made : (k : ℕ) (p : RunnerProcess) → objects k ≡ some p → k < next
  pub held :
      (k : ℕ) (p : RunnerProcess)
      → objects k ≡ some p
      → is_live p.status ≡ true
      → table_get p.name processes ≡ some k

abbrev pub Holds : RunnerState → Type 0
Holds st = IsSingle st.objects st.next st.processes

some_same : {A : Type 0} {a b : A} → some a ≡ some b → a ≡ b
some_same {a} e = ap (λ o. elim o [ none ↦ a | some x ↦ x ]) e

pub put-same :
    (ref : ℕ) (p : RunnerProcess) (objects : ℕ → Option RunnerProcess)
    → put_object ref p objects ref ≡ some p
unfolding put_object
put-same ref p objects = ground arith

put_cases :
    (ref : ℕ) (q : RunnerProcess) (objects : ℕ → Option RunnerProcess) (k : ℕ) (p : RunnerProcess)
    → put_object ref q objects k ≡ some p
    → ((k ≡ ref) × (q ≡ p)) ⊎ ((¬ (k ≡ ref)) × (objects k ≡ some p))
unfolding put_object
put_cases ref q objects k p h = by_test (k == ref) refl h
  where
    by_test :
        (b : Bool)
        → (k == ref) ≡ b
        → (if b then some q else objects k) ≡ some p
        → ((k ≡ ref) × (q ≡ p)) ⊎ ((¬ (k ≡ ref)) × (objects k ≡ some p))
    by_test true e h = inl ((==_iff k ref).0 e, some_same h)
    by_test false e h = inr (λ same. ground arith, h)

-- A change of one process that does not bring it to life, with a table that answers as before.
pub changed-IsSingle :
    {objects : ℕ → Option RunnerProcess} {next : ℕ} {processes : List (Text × ℕ)}
    (processes' : List (Text × ℕ)) (ref : ℕ) (p q : RunnerProcess)
    → objects ref ≡ some p
    → q.name ≡ p.name
    → (is_live q.status ≡ true → is_live p.status ≡ true)
    → ((name : Text) → table_get name processes' ≡ table_get name processes)
    → IsSingle objects next processes
    → IsSingle (put_object ref q objects) next processes'
changed-IsSingle {objects} {next} {processes} processes' ref p q found same live answers s =
    record {
      made = λ k r h. elim (put_cases ref q objects k r h) [
        | inl (e, f) ↦ subst (λ j. j < next) (sym e) (s.made ref p found)
        | inr (d, f) ↦ s.made k r f
      ];
      held = λ k r h l. elim (put_cases ref q objects k r h) [
        | inl (e, f) ↦
            let lives : is_live p.status ≡ true = live (ap (λ r. is_live r.status) f ∙ l) in
            answers r.name
            ∙ (ap (λ r. table_get r.name processes) (sym f)
                ∙ (ap (λ n. table_get n processes) same
                    ∙ (s.held ref p found lives ∙ ap some (sym e))))
        | inr (d, f) ↦ answers r.name ∙ s.held k r f l
      ];
    }

pub dead-IsSingle :
    (st : RunnerState) (name : Text) (ref : ℕ) (p q : RunnerProcess)
    → table_get name st.processes ≡ some ref
    → st.objects ref ≡ some p
    → q.name ≡ p.name
    → is_live q.status ≡ false
    → Holds st
    → Holds (keep_process name ref q st)
dead-IsSingle st name ref p q current found same dead s =
    changed-IsSingle (table_set name ref st.processes) ref p q found same
      (λ l. absurd (ground arith)) (λ key. get-set_current key name ref st.processes current) s

-- A table without a name under which nothing lives.
pub deleted-IsSingle :
    (st : RunnerState) (name : Text)
    → ((k : ℕ) (p : RunnerProcess)
        → st.objects k ≡ some p
        → is_live p.status ≡ true
        → p.name ≡ name
        → ⊥)
    → Holds st
    → Holds (record st { processes = table_delete name st.processes })
deleted-IsSingle st name none_lives s = record {
  made = s.made;
  held = λ k p h l. elim (Bool-cases (text_eq p.name name)) [
    | inl e ↦ absurd (none_lives k p h l (text_eq_sound p.name name e))
    | inr d ↦ get-delete_other p.name name st.processes d ∙ s.held k p h l
  ];
}

pub launched-IsSingle :
    (st : RunnerState) (name : Text) (q : RunnerProcess)
    → q.name ≡ name
    → ((k : ℕ) (p : RunnerProcess)
        → st.objects k ≡ some p
        → is_live p.status ≡ true
        → p.name ≡ name
        → ⊥)
    → Holds st
    → IsSingle (put_object st.next q st.objects) (suc st.next) (table_set name st.next st.processes)
launched-IsSingle st name q same none_lives s = record {
  made = λ k p h. elim (put_cases st.next q st.objects k p h) [
    | inl (e, f) ↦ omega arith
    | inr (d, f) ↦ omega (arith, s.made k p f)
  ];
  held = λ k p h l. elim (put_cases st.next q st.objects k p h) [
    | inl (e, f) ↦
        let named : p.name ≡ name = ap (λ r. r.name) (sym f) ∙ same in
        ap (λ n. table_get n (table_set name st.next st.processes)) named
        ∙ (get-set_same name st.next st.processes ∙ ap some (sym e))
    | inr (d, f) ↦ elim (Bool-cases (text_eq p.name name)) [
      | inl e ↦ absurd (none_lives k p f l (text_eq_sound p.name name e))
      | inr d ↦ get-set_other p.name name st.next st.processes d ∙ s.held k p f l
    ]
  ];
}

-- Where the process that the table holds under a name is dead or missing, nothing lives under that name.
pub none_lives :
    (st : RunnerState) (name : Text) (o : Option ℕ)
    → table_get name st.processes ≡ o
    → ((ref : ℕ) (p : RunnerProcess)
        → o ≡ some ref
        → st.objects ref ≡ some p
        → is_live p.status ≡ false)
    → Holds st
    → (k : ℕ) (p : RunnerProcess) → st.objects k ≡ some p
    → is_live p.status ≡ true
    → p.name ≡ name
    → ⊥
none_lives st name o e dead s k p h l named =
    let at : table_get name st.processes ≡ some k =
      ap (λ n. table_get n st.processes) (sym named) ∙ s.held k p h l in
    let d = dead k p (sym e ∙ at) h in ground arith
