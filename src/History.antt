-- ===== src/History.antt =====
-- host/src/runtime/chain-runner.ts: `sanitizeHistory`, with `extractText` and `stripImagesFromToolContent`, and the function
-- of the same name of host/src/runtime/provider-run.ts, which differs in what it takes for a silent content, the
-- argument `is_silent`. The argument `strip_text` is `strip_from_string` of History.Images. A call of a tool is its
-- identifier and the rest of it, `C`; a part of a content is a kind, a text and the rest, `P`.
pub mod Valid
pub mod Images
pub mod Kept
mod Tests
use ontheia.Prelude.{
  ℕ, zero, suc, ◌+◌, Bool, true, false, not, ◌&&◌, ◌||◌, Option, none, some, List, [], ◌∷◌, ◌++◌,
  map, if◌then◌else◌, Text, codes, text_eq, has_text, keep, trim,
}

abbrev pub is_blank : Text → Bool
is_blank [] = true
is_blank (_ ∷ _) = false

pub record Part (P : Type 0) : Type 0 where
  pub kind : Text
  pub part_text : Option Text
  pub more : P

pub data Content (P : Type 0) : Type 0 where
  plain_text : Text → Content P
  parts : List (Part P) → Content P
  no_content : Content P

pub data Role : Type 0 where
  assistant : Role
  tool : Role
  other_role : Role

pub record Call (C : Type 0) : Type 0 where
  pub id : Text
  pub payload : C

pub record Message (P C : Type 0) : Type 0 where
  pub role : Role
  pub content : Content P
  pub tool_calls : List (Call C)
  pub tool_call_id : Option Text

-- `lines.join('\n')`
unfoldable pub join_lines : List Text → Text
join_lines [] = []
join_lines (l ∷ []) = l
join_lines (l ∷ m ∷ lines) = l ++ 10 ∷ join_lines (m ∷ lines)

abbrev pub text_or_empty : Option Text → Text
text_or_empty none = []
text_or_empty (some t) = t

abbrev pub is_tool : Role → Bool
is_tool tool = true
is_tool _ = false

abbrev pub is_assistant : Role → Bool
is_assistant assistant = true
is_assistant _ = false

abbrev pub answers_to : Option Text → List Text → Bool
answers_to none ids = false
answers_to (some id) ids = not (is_blank id) && has_text id ids

unfoldable pub without : Text → List Text → List Text
unfolding text_eq
without id [] = []
without id (x ∷ ids) = let rest = without id ids in if text_eq id x then rest else x ∷ rest

abbrev pub is_empty {ℓ} : {A : Type ℓ} → List A → Bool
is_empty [] = true
is_empty (_ ∷ _) = false

abbrev pub strip_part_text : (Text → Text) → Option Text → Option Text
strip_part_text strip_text none = none
strip_part_text strip_text (some t) = some (strip_text t)

module _ {P : Type 0} where
  unfoldable pub extract_text : Content P → Text
  unfolding join_lines trim
  extract_text (plain_text t) = t
  extract_text (parts ps) = trim (join_lines (map (λ p. text_or_empty p.part_text) ps))
  extract_text no_content = []

  -- No text, for the chain runner.
  unfoldable pub has_no_text : Content P → Bool
  unfolding extract_text
  has_no_text content = is_blank (extract_text content)

  -- No text, for the loop of a provider: `String` makes a text of each part.
  unfoldable pub is_void : Content P → Bool
  unfolding trim
  is_void (plain_text t) = is_blank (trim t)
  is_void (parts []) = true
  is_void (parts (p ∷ ps)) = false
  is_void no_content = true

  -- `image` is the part that stands for an image, the text `[image]`.
  unfoldable pub strip_part : (Text → Text) → Part P → Part P → Part P
  unfolding text_eq
  strip_part strip_text image p =
      if text_eq p.kind (codes "image_url") || text_eq p.kind (codes "image")
      then image
      else if text_eq p.kind (codes "text")
      then record p { part_text = strip_part_text strip_text p.part_text }
      else p

  unfoldable pub strip_images_from_tool_content : (Text → Text) → Part P → Content P → Content P
  unfolding strip_part
  strip_images_from_tool_content strip_text image (plain_text t) = plain_text (strip_text t)
  strip_images_from_tool_content strip_text image (parts ps) =
      parts (map (strip_part strip_text image) ps)
  strip_images_from_tool_content strip_text image no_content = no_content

module _ {C : Type 0} where
  -- The set of the identifiers of the calls.
  unfoldable pub id_set : List (Call C) → List Text
  unfolding without
  id_set [] = []
  id_set (c ∷ calls) = c.id ∷ without c.id (id_set calls)

module _ {P C : Type 0} where
  -- The loop over the messages of tools that follow a call: those that answer it,
  unfoldable pub responding_tools : List Text → List (Message P C) → List (Message P C)
  unfolding has_text without
  responding_tools ids [] = []
  responding_tools ids (m ∷ messages) =
      let taken = m ∷ responding_tools (without (text_or_empty m.tool_call_id) ids) messages in
      let passed_by = responding_tools ids messages in
      if is_tool m.role then if answers_to m.tool_call_id ids then taken else passed_by else []

  -- the identifiers that none of them answers,
  unfoldable pub open_ids : List Text → List (Message P C) → List Text
  unfolding has_text without
  open_ids ids [] = ids
  open_ids ids (m ∷ messages) =
      let taken = open_ids (without (text_or_empty m.tool_call_id) ids) messages in
      let passed_by = open_ids ids messages in
      if is_tool m.role then if answers_to m.tool_call_id ids then taken else passed_by else ids

  -- and their number.
  unfoldable pub count_tools : List (Message P C) → ℕ
  count_tools [] = 0
  count_tools (m ∷ messages) = if is_tool m.role then suc (count_tools messages) else 0

  abbrev pub cleaned : Message P C → Message P C
  cleaned m = record m { tool_calls = [] }

  abbrev pub strip_answer : (Text → Text) → Part P → Message P C → Message P C
  strip_answer strip_text image m = record m {
    content = strip_images_from_tool_content strip_text image m.content;
  }

  -- Of a call that is not answered in full nothing is left where its content is silent.
  -- `skip` counts the messages that are passed because they were pushed with their call.
  unfoldable pub sanitize_history :
      (Content P → Bool) → (Text → Text) → Part P → ℕ → List (Message P C) → List (Message P C)
  unfolding id_set responding_tools open_ids count_tools strip_images_from_tool_content
  sanitize_history is_silent strip_text image skip [] = []
  sanitize_history is_silent strip_text image (suc skip) (m ∷ history) =
      sanitize_history is_silent strip_text image skip history
  sanitize_history is_silent strip_text image zero (m ∷ history) =
      let ids = id_set m.tool_calls in
      let next = sanitize_history is_silent strip_text image 0 history in
      let complete =
        m
        ∷ (map (strip_answer strip_text image) (responding_tools ids history)
            ++ sanitize_history is_silent strip_text image (count_tools history) history) in
      let incomplete = if is_silent m.content then next else cleaned m ∷ next in
      if is_assistant m.role && not (is_empty m.tool_calls)
      then if is_empty (open_ids ids history) then complete else incomplete
      else if is_tool m.role
      then next
      else m ∷ next
