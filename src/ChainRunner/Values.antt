-- ===== src/ChainRunner/Values.antt =====
-- The values of JavaScript that host/src/runtime/chain-runner.ts passes between steps, and `getDeep`.
-- A number is the text that `String` gives for it. An object has its own fields in their order; what a
-- property access finds beyond them (the length of a text, an element of an array, a prototype) is the
-- parameter `builtin`.
use ontheia.Prelude.{
  Bool, true, false, not, ◌||◌, List, [], ◌∷◌, if◌then◌else◌, Text, codes, text_eq, split,
}

mutual
  pub data Value : Type 0 where
    undefined : Value
    null : Value
    bool : Bool → Value
    number : Text → Value
    text : Text → Value
    array : Values → Value
    object : Fields → Value

  pub data Values : Type 0 where
    no_values : Values
    value : Value → Values → Values

  pub data Fields : Type 0 where
    no_fields : Fields
    field : Text → Value → Fields → Fields

-- The value of a field of its own, if there is one.
pub data Found : Type 0 where
  absent : Found
  present : Value → Found

unfoldable pub own_field : Text → Fields → Found
unfolding text_eq
own_field key no_fields = absent
own_field key (field k v fields) = if text_eq key k then present v else own_field key fields

-- `object[key] = value`
unfoldable pub put_field : Text → Value → Fields → Fields
unfolding text_eq
put_field key v no_fields = field key v no_fields
put_field key v (field k w fields) =
    let rest = put_field key v fields in if text_eq key k then field k v fields else field k w rest

-- `{ ...object, ...updates }`
unfoldable pub put_fields : Fields → Fields → Fields
unfolding put_field
put_fields no_fields fields = fields
put_fields (field k v updates) fields = put_fields updates (put_field k v fields)

abbrev pub found_or : Value → Found → Value
found_or v absent = v
found_or v (present w) = w

unfoldable pub is_falsy : Value → Bool
unfolding text_eq
is_falsy undefined = true
is_falsy null = true
is_falsy (bool b) = not b
is_falsy (number t) = text_eq t (codes "0") || text_eq t (codes "NaN")
is_falsy (text []) = true
is_falsy (text (_ ∷ _)) = false
is_falsy (array _) = false
is_falsy (object _) = false

module _ (builtin : Value → Text → Value) where
  unfoldable pub property : Value → Text → Value
  unfolding own_field
  property (object fs) key = found_or (builtin (object fs) key) (own_field key fs)
  property v key = builtin v key

  -- The loop of `getDeep` over the parts of the path.
  unfoldable pub walk_path : Value → List Text → Value
  unfolding property
  walk_path v [] = v
  walk_path undefined (part ∷ path) = undefined
  walk_path null (part ∷ path) = undefined
  walk_path v (part ∷ path) = walk_path (property v part) path

  unfoldable pub get_deep : Value → Text → Value
  unfolding walk_path split is_falsy
  get_deep v [] = undefined
  get_deep v (c ∷ path) = if is_falsy v then undefined else walk_path v (split b'.' (c ∷ path))
