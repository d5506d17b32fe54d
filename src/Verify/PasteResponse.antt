-- ===== src/Verify/PasteResponse.antt =====
-- `verify` of `PasteResponse` and its `toObject` without options, from internal/ipc/gen/ipc_generated.js.
use tilbo.Prelude.{String, ◌≡◌, refl, Option, none, [], ◌∷◌}
use tilbo.Values.{
  Value, string, object, Util, Documented, check, ◌orelse◌, verify_record, expects_strings,
}
use tilbo.Values.Slots.{props_of, list_slot}
use tilbo.Values.Accepts.{record-accepts, check-accepts, ◌⨾◌}
use tilbo.Values.Fields.{accepts-strings}
use tilbo.Ipc.PasteResponse.{PasteResponse}

module _ (u : Util) where
  -- `toObject(message)`
  unfoldable pub to_object : PasteResponse → Value
  to_object m = object (props_of (("newPaths", list_slot string m.new_paths) ∷ []))

  unfoldable pub verify : Value → Option String
  verify m = verify_record (check "newPaths" (expects_strings u) m orelse none) m

module _ (u : Util) (laws : Documented u) where
  -- `verify` accepts what `toObject` makes of a message.
  pub verify-accepts : (m : PasteResponse) → verify u (to_object u m) ≡ none
  unfolding verify to_object
  verify-accepts m =
      record-accepts _
        (check-accepts _ refl "newPaths" _ (accepts-strings u laws "newPaths" m.new_paths) ⨾ refl)
