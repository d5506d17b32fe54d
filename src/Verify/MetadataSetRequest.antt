-- ===== src/Verify/MetadataSetRequest.antt =====
-- `verify` of `MetadataSetRequest` and its `toObject` without options, from internal/ipc/gen/ipc_generated.js.
use mathlib.Core.Option
use tilbo.Prelude.{String, ◌≡◌, refl, Option, none, [], ◌∷◌}
use tilbo.Values.{
  Value, string, object, Util, Documented, check, ◌orelse◌, verify_record, expects_string,
}
use tilbo.Values.Slots.{props_of}
use tilbo.Values.Accepts.{record-accepts, check-accepts, ◌⨾◌}
use tilbo.Values.Fields.{accepts-string}
use tilbo.Ipc.MetadataSetRequest.{MetadataSetRequest}

module _ (u : Util) where
  -- `toObject(message)`
  unfoldable pub to_object : MetadataSetRequest → Value
  to_object m = object (
      props_of (
        ("path", Option.map string m.path)
        ∷ ("key", Option.map string m.key)
        ∷ ("value", Option.map string m.value)
        ∷ []))

  unfoldable pub verify : Value → Option String
  verify m =
      verify_record
        (check "path" (expects_string u) m
          orelse check "key" (expects_string u) m
          orelse check "value" (expects_string u) m
          orelse none)
        m

module _ (u : Util) (laws : Documented u) where
  -- `verify` accepts what `toObject` makes of a message.
  pub verify-accepts : (m : MetadataSetRequest) → verify u (to_object u m) ≡ none
  unfolding verify to_object
  verify-accepts m = record-accepts _ (
      check-accepts _ refl "path" _ (accepts-string u laws "path" m.path)
      ⨾ check-accepts _ refl "key" _ (accepts-string u laws "key" m.key)
      ⨾ check-accepts _ refl "value" _ (accepts-string u laws "value" m.value)
      ⨾ refl)
