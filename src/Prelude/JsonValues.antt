-- ===== src/Prelude/JsonValues.antt =====
-- The values that `json.loads` returns, and `dict.get` on an object.
use Prim.Native.Nat.{ℕ}
use Prim.Native.String.{String}
use mathlib.Core.Bool.{Bool}
use mathlib.Core.Path.{◌≡◌, refl}
use mathlib.Core.Option
use mathlib.Core.Option.{Option, none, some}
use mathlib.Core.List.{List, [], ◌∷◌}
use ai_ent.Prelude.Tests.{str_eq, if◌then◌else◌}

mutual
  pub data Json : Type 0 where
    null : Json
    bool : Bool → Json
    num : ℕ → Json
    str : String → Json
    arr : Items → Json
    obj : Fields → Json

  pub data Items : Type 0 where
    nil : Items
    cons : Json → Items → Items

  pub data Fields : Type 0 where
    end : Fields
    field : String → Json → Fields → Fields

-- `d.get(key)`: the writer of these objects never repeats a key.
unfoldable pub get_field : String → Fields → Option Json
get_field key end = none
get_field key (field name value rest) = if str_eq name key then some value else get_field key rest

-- `value if isinstance(value, str) else None`
abbrev pub as_text : Option Json → Option String
as_text (some (Json.str text)) = some text
as_text _ = none

abbrev pub texts : Items → List String
texts nil = []
texts (cons (Json.str text) rest) = text ∷ texts rest
texts (cons _ rest) = texts rest

-- A list of texts as a JSON array.
abbrev pub text_items : List String → Items
text_items [] = nil
text_items (text ∷ rest) = cons (str text) (text_items rest)

-- `value if isinstance(value, dict) else None`
abbrev pub as_object : Option Json → Option Fields
as_object (some (Json.obj fields)) = some fields
as_object _ = none

-- `d[key] = value`
unfoldable pub set_field : String → Json → Fields → Fields
set_field key value end = field key value end
set_field key value (field name old rest) =
    if str_eq name key then field name value rest else field name old (set_field key value rest)

-- The texts of a list that holds nothing else.
unfoldable pub all_texts : Items → Option (List String)
all_texts nil = some []
all_texts (cons (Json.str text) rest) = Option.map (λ ts. text ∷ ts) (all_texts rest)
all_texts (cons _ rest) = none

pub all_texts-text_items : (ts : List String) → all_texts (text_items ts) ≡ some ts
unfolding all_texts
all_texts-text_items [] = refl
all_texts-text_items (t ∷ ts) = rw (all_texts-text_items ts)
