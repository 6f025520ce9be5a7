-- ===== src/History/Valid.antt =====
-- host/src/runtime/chain-runner.ts: a sanitized history pairs each call of a tool with its answers.
use ontheia.Prelude.{
  ℕ, zero, suc, ◌≡◌, refl, Bool, true, false, not, ◌&&◌, Option, none, some, List, [], ◌∷◌, ◌++◌,
  map, if◌then◌else◌, Text, has_text, arith,
}
use ontheia.History.{
  Content, Message, Part, is_tool, is_assistant, is_empty, without, id_set, answers_to,
  text_or_empty, responding_tools, open_ids, count_tools, cleaned, strip_answer, sanitize_history,
}

empty_of : {A : Type 0} (l : List A) → is_empty l ≡ true → l ≡ []
empty_of [] h = refl
empty_of (x ∷ l) h = cc

module _ {P C : Type 0} where
  -- Messages of tools that answer these identifiers one by one, until none is left.
  abbrev pub AnswersAll : List Text → List (Message P C) → Type 0
  AnswersAll ids [] = ids ≡ []
  AnswersAll ids (t ∷ tools) =
      (is_tool t.role ≡ true)
      × (id : Text) × (t.tool_call_id ≡ some id)
      × (has_text id ids ≡ true)
      × AnswersAll (without id ids) tools

  -- A history that a provider takes: a message of a tool stands only among the answers behind its call,
  -- and each call has all its answers.
  pub data IsPaired : List (Message P C) → Type 0 where
    done : IsPaired []
    plain :
        (m : Message P C) (rest : List (Message P C))
        → is_tool m.role ≡ false
        → (is_assistant m.role ≡ true → m.tool_calls ≡ [])
        → IsPaired rest
        → IsPaired (m ∷ rest)
    called :
        (m : Message P C) (answers rest following : List (Message P C))
        → is_assistant m.role ≡ true
        → AnswersAll (id_set m.tool_calls) answers
        → IsPaired rest
        → following ≡ answers ++ rest
        → IsPaired (m ∷ following)

  module _ (is_silent : Content P → Bool) (strip_text : Text → Text) (image : Part P) where
    answering :
        (m : Message P C) (ids : List Text)
        → answers_to m.tool_call_id ids ≡ true
        → (m.tool_call_id ≡ some (text_or_empty m.tool_call_id))
          × (has_text (text_or_empty m.tool_call_id) ids ≡ true)
    answering m ids h = by_id m.tool_call_id h
      where
        by_id :
            (o : Option Text)
            → answers_to o ids ≡ true
            → (o ≡ some (text_or_empty o)) × (has_text (text_or_empty o) ids ≡ true)
        by_id none h = cc
        by_id (some id) h = (refl, ground arith)

    responding-AnswersAll :
        (ids : List Text) (messages : List (Message P C))
        → open_ids ids messages ≡ []
        → AnswersAll ids (map (strip_answer strip_text image) (responding_tools ids messages))
    unfolding open_ids responding_tools
    responding-AnswersAll ids [] h = h
    responding-AnswersAll ids (m ∷ messages) h =
        by_tests (is_tool m.role) (answers_to m.tool_call_id ids) refl refl h
          (responding-AnswersAll (without (text_or_empty m.tool_call_id) ids) messages)
          (responding-AnswersAll ids messages)
      where
        by_tests :
            (a b : Bool)
            → is_tool m.role ≡ a
            → answers_to m.tool_call_id ids ≡ b
            → (if a
                then if b
                  then open_ids (without (text_or_empty m.tool_call_id) ids) messages
                  else open_ids ids messages
                else ids)
              ≡ []
            → (open_ids (without (text_or_empty m.tool_call_id) ids) messages ≡ []
                → AnswersAll (without (text_or_empty m.tool_call_id) ids) (
                    map
                      (strip_answer strip_text image)
                      (responding_tools (without (text_or_empty m.tool_call_id) ids) messages)))
            → (open_ids ids messages ≡ []
                → AnswersAll ids
                    (map (strip_answer strip_text image) (responding_tools ids messages)))
            → AnswersAll ids (
                map (strip_answer strip_text image) (
                  if a
                  then if b
                    then m ∷ responding_tools (without (text_or_empty m.tool_call_id) ids) messages
                    else responding_tools ids messages
                  else []))
        by_tests true true ea eb h taken passed_by =
            let (e, k) = answering m ids eb in (ea, text_or_empty m.tool_call_id, e, k, taken h)
        by_tests true false ea eb h taken passed_by = passed_by h
        by_tests false b ea eb h taken passed_by = h

    -- Whatever the history, what is sent to the provider is paired.
    pub sanitize_history-IsPaired :
        (skip : ℕ) (history : List (Message P C))
        → IsPaired (sanitize_history is_silent strip_text image skip history)
    unfolding sanitize_history
    sanitize_history-IsPaired zero [] = done
    sanitize_history-IsPaired (suc skip) [] = done
    sanitize_history-IsPaired (suc skip) (m ∷ history) = sanitize_history-IsPaired skip history
    sanitize_history-IsPaired zero (m ∷ history) =
        by_role (is_assistant m.role) (is_empty m.tool_calls) (is_tool m.role) refl refl refl
          (sanitize_history-IsPaired 0 history)
          (sanitize_history-IsPaired (count_tools history) history)
      where
        next : List (Message P C)
        next = sanitize_history is_silent strip_text image 0 history

        after_answers : List (Message P C)
        after_answers = sanitize_history is_silent strip_text image (count_tools history) history

        by_answers :
            (b : Bool)
            → is_assistant m.role ≡ true
            → is_empty (open_ids (id_set m.tool_calls) history) ≡ b
            → IsPaired next
            → IsPaired after_answers
            → IsPaired (
                if b
                then m
                  ∷ (map
                        (strip_answer strip_text image)
                        (responding_tools (id_set m.tool_calls) history)
                      ++ after_answers)
                else if is_silent m.content
                then next
                else cleaned m ∷ next)
        by_answers true ea e p q =
            called m
              (map (strip_answer strip_text image) (responding_tools (id_set m.tool_calls) history))
              after_answers _ ea
              (responding-AnswersAll (id_set m.tool_calls) history
                (empty_of (open_ids (id_set m.tool_calls) history) e))
              q refl
        by_answers false ea e p q = by_text (is_silent m.content)
          where
            by_text : (b : Bool) → IsPaired (if b then next else cleaned m ∷ next)
            by_text true = p
            by_text false = plain (cleaned m) next (ground arith) (λ _. refl) p

        by_role :
            (a e t : Bool)
            → is_assistant m.role ≡ a
            → is_empty m.tool_calls ≡ e
            → is_tool m.role ≡ t
            → IsPaired next
            → IsPaired after_answers
            → IsPaired (
                if a && not e
                then if is_empty (open_ids (id_set m.tool_calls) history)
                  then m
                    ∷ (map
                          (strip_answer strip_text image)
                          (responding_tools (id_set m.tool_calls) history)
                        ++ after_answers)
                  else if is_silent m.content
                  then next
                  else cleaned m ∷ next
                else if t
                then next
                else m ∷ next)
        by_role true false t ea ee et p q =
            by_answers (is_empty (open_ids (id_set m.tool_calls) history)) ea refl p q
        by_role true true true ea ee et p q = p
        by_role false true true ea ee et p q = p
        by_role true true false ea ee et p q = plain m next et (λ _. empty_of m.tool_calls ee) p
        by_role false true false ea ee et p q = plain m next et (λ _. empty_of m.tool_calls ee) p
        by_role false false true ea ee et p q = p
        by_role false false false ea ee et p q = plain m next et (λ h. cc) p
