-- ===== src/Verify/PinPlaceRequest.antt =====
-- `verify` of `PinPlaceRequest` and its `toObject` without options, from internal/ipc/gen/ipc_generated.js.
use mathlib.Core.Option
use tilbo.Prelude.{String, ◌≡◌, refl, Option, none, [], ◌∷◌}
use tilbo.Values.{
  Value, string, object, Util, Documented, check, ◌orelse◌, verify_record, expects_string,
}
use tilbo.Values.Slots.{props_of}
use tilbo.Values.Accepts.{record-accepts, check-accepts, ◌⨾◌}
use tilbo.Values.Fields.{accepts-string}
use tilbo.Ipc.PinPlaceRequest.{PinPlaceRequest}

module _ (u : Util) where
  -- `toObject(message)`
  unfoldable pub to_object : PinPlaceRequest → Value
  to_object m = object (
      props_of (
        ("name", Option.map string m.name)
        ∷ ("path", Option.map string m.path)
        ∷ ("iconName", Option.map string m.icon_name)
        ∷ []))

  unfoldable pub verify : Value → Option String
  verify m =
      verify_record
        (check "name" (expects_string u) m
          orelse check "path" (expects_string u) m
          orelse check "iconName" (expects_string u) m
          orelse none)
        m

module _ (u : Util) (laws : Documented u) where
  -- `verify` accepts what `toObject` makes of a message.
  pub verify-accepts : (m : PinPlaceRequest) → verify u (to_object u m) ≡ none
  unfolding verify to_object
  verify-accepts m = record-accepts _ (
      check-accepts _ refl "name" _ (accepts-string u laws "name" m.name)
      ⨾ check-accepts _ refl "path" _ (accepts-string u laws "path" m.path)
      ⨾ check-accepts _ refl "iconName" _ (accepts-string u laws "iconName" m.icon_name)
      ⨾ refl)
