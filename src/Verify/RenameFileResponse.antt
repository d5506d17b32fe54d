-- ===== src/Verify/RenameFileResponse.antt =====
-- `verify` of `RenameFileResponse` and its `toObject` without options, from internal/ipc/gen/ipc_generated.js.
use mathlib.Core.Option
use tilbo.Prelude.{String, ◌≡◌, refl, Option, none, [], ◌∷◌}
use tilbo.Values.{
  Value, string, object, Util, Documented, check, ◌orelse◌, verify_record, expects_string,
}
use tilbo.Values.Slots.{props_of}
use tilbo.Values.Accepts.{record-accepts, check-accepts, ◌⨾◌}
use tilbo.Values.Fields.{accepts-string}
use tilbo.Ipc.RenameFileResponse.{RenameFileResponse}

module _ (u : Util) where
  -- `toObject(message)`
  unfoldable pub to_object : RenameFileResponse → Value
  to_object m = object (props_of (("newPath", Option.map string m.new_path) ∷ []))

  unfoldable pub verify : Value → Option String
  verify m = verify_record (check "newPath" (expects_string u) m orelse none) m

module _ (u : Util) (laws : Documented u) where
  -- `verify` accepts what `toObject` makes of a message.
  pub verify-accepts : (m : RenameFileResponse) → verify u (to_object u m) ≡ none
  unfolding verify to_object
  verify-accepts m =
      record-accepts _
        (check-accepts _ refl "newPath" _ (accepts-string u laws "newPath" m.new_path) ⨾ refl)
