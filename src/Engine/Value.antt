-- ===== src/Engine/Value.antt =====
-- engine.c: `get_value`, which walks from the global object along the parts of a namespace.
pub mod Walk
use planck.Text.{tokens}
use planck.Munge.{munge}
use planck.Prelude.{Bool, true, false, Option, none, some, List, [], ◌∷◌, Bytes, if◌then◌else◌}

-- Values of JavaScript and its objects. `to_object` is `JSValueToObject`, which has none for
-- undefined and null; `property` gives undefined for a name that an object does not have.
pub record Objects (V : Type 0) (O : Type 0) : Type 0 where
  pub global : O
  pub is_undefined : V → Bool
  pub to_object : V → Option O
  pub property : O → Bytes → V

module _ {V O : Type 0} (js : Objects V O) where
  -- `none` is a property of a null pointer.
  abbrev pub on_object : Option O → Bytes → Option V
  on_object none name = none
  on_object (some o) name = some (js.property o name)

  abbrev pub if_there : Option V → (V → Option V) → Option V
  if_there none go_on = none
  if_there (some w) go_on = go_on w

  abbrev pub next_part : Bool → V → Bytes → (V → Option V) → Option V
  next_part true v part go_on = some v
  next_part false v part go_on = if_there (on_object (js.to_object v) (munge part)) go_on

  -- The loop from the second part on, and the property behind it. A value that is undefined is
  -- returned at once, if a part follows.
  unfoldable pub walk : List Bytes → Bytes → V → Option V
  unfolding munge
  walk [] name v = on_object (js.to_object v) (munge name)
  walk (part ∷ parts) name v = next_part (js.is_undefined v) v part (walk parts name)

  abbrev from_global : List Bytes → Bytes → Option V
  from_global [] name = none
  from_global (part ∷ parts) name = walk parts name (js.property js.global (munge part))

  -- A namespace without a part leaves a null pointer as the value that has the name.
  unfoldable pub get_value : Bytes → Bytes → Option V
  unfolding walk tokens
  get_value namespace name = from_global (tokens b'.' namespace) name
