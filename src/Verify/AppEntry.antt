-- ===== src/Verify/AppEntry.antt =====
-- `verify` of `AppEntry` and its `toObject` without options, from internal/ipc/gen/ipc_generated.js.
use mathlib.Core.Option
use tilbo.Prelude.{String, ◌≡◌, refl, Option, none, [], ◌∷◌}
use tilbo.Values.{
  Value, string, object, Util, Documented, check, ◌orelse◌, verify_record, expects_string,
}
use tilbo.Values.Slots.{props_of}
use tilbo.Values.Accepts.{record-accepts, check-accepts, ◌⨾◌}
use tilbo.Values.Fields.{accepts-string}
use tilbo.Ipc.AppEntry.{AppEntry}

module _ (u : Util) where
  -- `toObject(message)`
  unfoldable pub to_object : AppEntry → Value
  to_object m = object (
      props_of (
        ("id", Option.map string m.id)
        ∷ ("name", Option.map string m.name)
        ∷ ("iconName", Option.map string m.icon_name)
        ∷ []))

  unfoldable pub verify : Value → Option String
  verify m =
      verify_record
        (check "id" (expects_string u) m
          orelse check "name" (expects_string u) m
          orelse check "iconName" (expects_string u) m
          orelse none)
        m

module _ (u : Util) (laws : Documented u) where
  -- `verify` accepts what `toObject` makes of a message.
  pub verify-accepts : (m : AppEntry) → verify u (to_object u m) ≡ none
  unfolding verify to_object
  verify-accepts m = record-accepts _ (
      check-accepts _ refl "id" _ (accepts-string u laws "id" m.id)
      ⨾ check-accepts _ refl "name" _ (accepts-string u laws "name" m.name)
      ⨾ check-accepts _ refl "iconName" _ (accepts-string u laws "iconName" m.icon_name)
      ⨾ refl)
