-- ===== src/Verify/SavedSearch.antt =====
-- `verify` of `SavedSearch` and its `toObject` without options, from internal/ipc/gen/ipc_generated.js.
use mathlib.Core.Option
use tilbo.Prelude.{String, ◌≡◌, refl, Option, none, [], ◌∷◌}
use tilbo.Values.{
  Value, string, object, Util, Documented, check, ◌orelse◌, verify_record, expects_string,
  expects_strings,
}
use tilbo.Values.Slots.{props_of, list_slot}
use tilbo.Values.Accepts.{record-accepts, check-accepts, ◌⨾◌}
use tilbo.Values.Fields.{accepts-string, accepts-strings}
use tilbo.Ipc.SavedSearch.{SavedSearch}

module _ (u : Util) where
  -- `toObject(message)`
  unfoldable pub to_object : SavedSearch → Value
  to_object m = object (
      props_of (
        ("name", Option.map string m.name)
        ∷ ("chips", list_slot string m.chips)
        ∷ ("iconName", Option.map string m.icon_name)
        ∷ ("id", Option.map string m.id)
        ∷ []))

  unfoldable pub verify : Value → Option String
  verify m =
      verify_record
        (check "name" (expects_string u) m
          orelse check "chips" (expects_strings u) m
          orelse check "iconName" (expects_string u) m
          orelse check "id" (expects_string u) m
          orelse none)
        m

module _ (u : Util) (laws : Documented u) where
  -- `verify` accepts what `toObject` makes of a message.
  pub verify-accepts : (m : SavedSearch) → verify u (to_object u m) ≡ none
  unfolding verify to_object
  verify-accepts m = record-accepts _ (
      check-accepts _ refl "name" _ (accepts-string u laws "name" m.name)
      ⨾ check-accepts _ refl "chips" _ (accepts-strings u laws "chips" m.chips)
      ⨾ check-accepts _ refl "iconName" _ (accepts-string u laws "iconName" m.icon_name)
      ⨾ check-accepts _ refl "id" _ (accepts-string u laws "id" m.id)
      ⨾ refl)
