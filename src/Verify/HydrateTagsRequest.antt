-- ===== src/Verify/HydrateTagsRequest.antt =====
-- `verify` of `HydrateTagsRequest` and its `toObject` without options, from internal/ipc/gen/ipc_generated.js.
use tilbo.Prelude.{String, ◌≡◌, refl, Option, none, [], ◌∷◌}
use tilbo.Values.{
  Value, string, object, Util, Documented, check, ◌orelse◌, verify_record, expects_strings,
}
use tilbo.Values.Slots.{props_of, list_slot}
use tilbo.Values.Accepts.{record-accepts, check-accepts, ◌⨾◌}
use tilbo.Values.Fields.{accepts-strings}
use tilbo.Ipc.HydrateTagsRequest.{HydrateTagsRequest}

module _ (u : Util) where
  -- `toObject(message)`
  unfoldable pub to_object : HydrateTagsRequest → Value
  to_object m = object (props_of (("paths", list_slot string m.paths) ∷ []))

  unfoldable pub verify : Value → Option String
  verify m = verify_record (check "paths" (expects_strings u) m orelse none) m

module _ (u : Util) (laws : Documented u) where
  -- `verify` accepts what `toObject` makes of a message.
  pub verify-accepts : (m : HydrateTagsRequest) → verify u (to_object u m) ≡ none
  unfolding verify to_object
  verify-accepts m =
      record-accepts _
        (check-accepts _ refl "paths" _ (accepts-strings u laws "paths" m.paths) ⨾ refl)
