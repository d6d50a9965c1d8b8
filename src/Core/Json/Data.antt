-- ===== src/Core/Json/Data.antt =====
-- `JsonValue` of src/core/types.ts. A number is the text that `JSON.stringify` gives for it, which
-- tells two finite numbers apart. An object lists its members in the engine's order, each key once.
use rolekit.Common.{Bool, Option, none, some, List, [], ◌∷◌, if◌then◌else◌}
use rolekit.Common.Text.{Text, text_eq}

mutual
  pub data Json : Type 0 where
    null : Json
    bool : Bool → Json
    num : Text → Json
    str : Text → Json
    arr : Items → Json
    obj : Fields → Json

  pub data Items : Type 0 where
    nil : Items
    cons : Json → Items → Items

  pub data Fields : Type 0 where
    end : Fields
    field : Text → Json → Fields → Fields

-- `object[key]`, none for undefined
unfoldable pub member : Text → Fields → Option Json
unfolding text_eq
member key end = none
member key (field k v fs) = if text_eq k key then some v else member key fs

-- `object[key] = value`: a key that is there keeps its place.
unfoldable pub assign : Text → Json → Fields → Fields
unfolding text_eq
assign key value end = field key value end
assign key value (field k v fs) =
    if text_eq k key then field k value fs else field k v (assign key value fs)

-- `Object.keys(object)`
unfoldable pub keys : Fields → List Text
keys end = []
keys (field k v fs) = k ∷ keys fs

-- An array of texts.
unfoldable pub texts : List Text → Items
texts [] = nil
texts (t ∷ ts) = cons (str t) (texts ts)
