-- ===== src/Value.antt =====
-- Go's `interface{}` as far as the code looks into it: nil, strings, maps from strings, structs,
-- pointers, and everything else, which it only passes on.
use gochoreo.Common.{ℕ, [], ◌∷◌, Bool, Map}
use gochoreo.Text.{Text}

mutual
  pub data Value : Type 0 where
    nil : Value
    str : Text → Value
    -- a map[string]interface{}
    map_of : Fields → Value
    -- a map of another type
    other_map : ℕ → Value
    struct_of : Members → Value
    pointer_to : Value → Value
    opaque : ℕ → Value

  pub data Fields : Type 0 where
    end : Fields
    field : Text → Value → Fields → Fields

  -- A member of a struct: its name, its json tag (empty if it has none), whether it is exported.
  pub data Members : Type 0 where
    last : Members
    member : Text → Text → Bool → Value → Members → Members

unfoldable pub entries : Fields → Map Text Value
entries end = []
entries (field k v fs) = (k, v) ∷ entries fs

unfoldable pub fields_of : Map Text Value → Fields
fields_of [] = end
fields_of ((k, v) ∷ m) = field k v (fields_of m)
