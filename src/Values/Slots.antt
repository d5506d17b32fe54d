-- ===== src/Values/Slots.antt =====
-- `toObject(message)` of internal/ipc/gen/ipc_generated.js, without options: an object with the
-- properties that are set, in the order of the fields.
use tilbo.Prelude.{String, Option, none, some, List, [], ◌∷◌, str_eq, if◌then◌else◌}
use tilbo.Codec.{Entries}
use tilbo.Values.{Value, string, array, object, Items, no_items, item, Props, no_props, prop}

abbrev pub Slots : Type 0
Slots = List (String × Option Value)

-- `if (message.f != null && message.hasOwnProperty("f")) object.f = …;`, field by field.
unfoldable pub props_of : Slots → Props
props_of [] = no_props
props_of ((f, none) ∷ slots) = props_of slots
props_of ((f, some v) ∷ slots) = prop f v (props_of slots)

unfoldable pub items_of : {A : Type 0} → (A → Value) → List A → Items
items_of g [] = no_items
items_of g (a ∷ as') = item (g a) (items_of g as')

-- `if (message.f && message.f.length) { object.f = []; for … object.f[j] = …; }`
unfoldable pub list_slot : {A : Type 0} → (A → Value) → List A → Option Value
unfolding items_of
list_slot g [] = none
list_slot g (a ∷ as') = some (array (items_of g (a ∷ as')))

-- `object[key] = text`, with the setter of `__proto__`, which ignores a text.
unfoldable pub assign : String → String → Props → Props
assign k s no_props = prop k (string s) no_props
assign k s (prop j v ps) = if str_eq j k then prop j (string s) ps else prop j v (assign k s ps)

unfoldable pub assign_all : Entries → Props → Props
unfolding assign
assign_all [] ps = ps
assign_all ((k, s) ∷ es) ps = assign_all es (if str_eq k "__proto__" then ps else assign k s ps)

-- `if (message.f && (keys = Object.keys(message.f)).length) { object.f = {}; for … }`
unfoldable pub map_slot : Entries → Option Value
unfolding assign_all
map_slot [] = none
map_slot (e ∷ es) = some (object (assign_all (e ∷ es) no_props))
