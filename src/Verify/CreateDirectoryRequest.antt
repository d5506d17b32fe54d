-- ===== src/Verify/CreateDirectoryRequest.antt =====
-- `verify` of `CreateDirectoryRequest` and its `toObject` without options, from internal/ipc/gen/ipc_generated.js.
use mathlib.Core.Option
use tilbo.Prelude.{String, ◌≡◌, refl, Option, none, [], ◌∷◌}
use tilbo.Values.{
  Value, string, object, Util, Documented, check, ◌orelse◌, verify_record, expects_string,
}
use tilbo.Values.Slots.{props_of}
use tilbo.Values.Accepts.{record-accepts, check-accepts, ◌⨾◌}
use tilbo.Values.Fields.{accepts-string}
use tilbo.Ipc.CreateDirectoryRequest.{CreateDirectoryRequest}

module _ (u : Util) where
  -- `toObject(message)`
  unfoldable pub to_object : CreateDirectoryRequest → Value
  to_object m = object (
      props_of (
        ("destinationDir", Option.map string m.destination_dir)
        ∷ ("name", Option.map string m.name)
        ∷ []))

  unfoldable pub verify : Value → Option String
  verify m =
      verify_record
        (check "destinationDir" (expects_string u) m
          orelse check "name" (expects_string u) m
          orelse none)
        m

module _ (u : Util) (laws : Documented u) where
  -- `verify` accepts what `toObject` makes of a message.
  pub verify-accepts : (m : CreateDirectoryRequest) → verify u (to_object u m) ≡ none
  unfolding verify to_object
  verify-accepts m = record-accepts _ (
      check-accepts _ refl "destinationDir" _
        (accepts-string u laws "destinationDir" m.destination_dir)
      ⨾ check-accepts _ refl "name" _ (accepts-string u laws "name" m.name)
      ⨾ refl)
