-- ===== src/History/Kept.antt =====
-- host/src/runtime/chain-runner.ts: what `sanitizeHistory` keeps of a history.
use ontheia.Prelude.{
  ◌≡◌, refl, sym, subst, inl, inr, Bool, true, false, not, ◌&&◌, List, [], ◌∷◌, ◌++◌, map,
  if◌then◌else◌, Text, Has, Bool-cases, arith,
}
use ontheia.History.{
  Content, Role, assistant, tool, other_role, Message, Part, is_tool, is_assistant, is_empty,
  id_set, responding_tools, open_ids, count_tools, cleaned, strip_answer, sanitize_history,
}

not_assistant : (r : Role) → is_tool r ≡ true → is_assistant r ≡ false
not_assistant assistant e = cc
not_assistant tool e = refl
not_assistant other_role e = cc

Has-behind : {A : Type 0} (a : A) (xs ys : List A) → Has a ys → Has a (xs ++ ys)
Has-behind a [] ys h = h
Has-behind a (x ∷ xs) ys h = inr (Has-behind a xs ys h)

module _ {P C : Type 0} (is_silent : Content P → Bool) (strip_text : Text → Text)
    (image : Part P) where
  -- The messages of tools behind a call are dropped, whether they are passed or met one by one.
  passed_same :
      (history : List (Message P C))
      → sanitize_history is_silent strip_text image (count_tools history) history
        ≡ sanitize_history is_silent strip_text image 0 history
  unfolding sanitize_history
  passed_same [] = refl
  passed_same (m ∷ history) = elim (Bool-cases (is_tool m.role)) [
    | inl e ↦
        let a : is_assistant m.role ≡ false = not_assistant m.role e in
        let ih = passed_same history in ground arith
    | inr e ↦ ground arith
  ]

  -- A message that is neither of a tool nor a call of tools is kept as it is.
  pub sanitize_history-keeps :
      (m : Message P C) (history : List (Message P C))
      → is_tool m.role ≡ false
      → (is_assistant m.role ≡ true → is_empty m.tool_calls ≡ true)
      → Has m history
      → Has m (sanitize_history is_silent strip_text image 0 history)
  unfolding sanitize_history
  sanitize_history-keeps m [] e plain h = absurd h
  sanitize_history-keeps m (x ∷ history) e plain (inl same) =
      subst (λ y. Has m (sanitize_history is_silent strip_text image 0 (y ∷ history))) same
        (at_front (is_assistant m.role && not (is_empty m.tool_calls)) refl)
    where
      at_front :
          (b : Bool)
          → (is_assistant m.role && not (is_empty m.tool_calls)) ≡ b
          → Has m (sanitize_history is_silent strip_text image 0 (m ∷ history))
      at_front true k =
          let a : is_assistant m.role ≡ true = ground arith in
          let b = plain a in absurd (ground arith)
      at_front false k =
          let kept : sanitize_history is_silent strip_text image 0 (m ∷ history)
              ≡ m ∷ sanitize_history is_silent strip_text image 0 history =
            ground arith in
          subst (Has m) (sym kept) (inl refl)
  sanitize_history-keeps m (x ∷ history) e plain (inr h) =
      behind (is_assistant x.role && not (is_empty x.tool_calls))
        (is_empty (open_ids (id_set x.tool_calls) history)) (is_silent x.content) (is_tool x.role)
        (sanitize_history-keeps m history e plain h)
    where
      next : List (Message P C)
      next = sanitize_history is_silent strip_text image 0 history

      answers : List (Message P C)
      answers = map (strip_answer strip_text image) (responding_tools (id_set x.tool_calls) history)

      behind :
          (call complete blank of_tool : Bool)
          → Has m next
          → Has m (
              if call
              then if complete
                then x
                  ∷ (answers
                      ++ sanitize_history is_silent strip_text image (count_tools history) history)
                else if blank
                then next
                else cleaned x ∷ next
              else if of_tool
              then next
              else x ∷ next)
      behind true true blank of_tool k =
          inr (Has-behind m answers _ (subst (Has m) (sym (passed_same history)) k))
      behind true false true of_tool k = k
      behind true false false of_tool k = inr k
      behind false complete blank true k = k
      behind false complete blank false k = inr k
