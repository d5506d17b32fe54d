-- ===== src/Verify/TagResponse.antt =====
-- `verify` of `TagResponse` and its `toObject` without options, from internal/ipc/gen/ipc_generated.js.
use tilbo.Prelude.{String, ◌≡◌, refl, Option, none, [], ◌∷◌}
use tilbo.Values.{
  Value, string, object, Util, Documented, check, ◌orelse◌, verify_record, expects_strings,
  expects_map,
}
use tilbo.Values.Slots.{props_of, list_slot, map_slot}
use tilbo.Values.Accepts.{record-accepts, check-accepts, ◌⨾◌}
use tilbo.Values.Fields.{accepts-strings, accepts-map}
use tilbo.Ipc.TagResponse.{TagResponse}

module _ (u : Util) where
  -- `toObject(message)`
  unfoldable pub to_object : TagResponse → Value
  to_object m = object (
      props_of (
        ("pathsOk", list_slot string m.paths_ok)
        ∷ ("pathsError", list_slot string m.paths_error)
        ∷ ("errors", map_slot m.errors)
        ∷ []))

  unfoldable pub verify : Value → Option String
  verify m =
      verify_record
        (check "pathsOk" (expects_strings u) m
          orelse check "pathsError" (expects_strings u) m
          orelse check "errors" (expects_map u) m
          orelse none)
        m

module _ (u : Util) (laws : Documented u) where
  -- `verify` accepts what `toObject` makes of a message.
  pub verify-accepts : (m : TagResponse) → verify u (to_object u m) ≡ none
  unfolding verify to_object
  verify-accepts m = record-accepts _ (
      check-accepts _ refl "pathsOk" _ (accepts-strings u laws "pathsOk" m.paths_ok)
      ⨾ check-accepts _ refl "pathsError" _ (accepts-strings u laws "pathsError" m.paths_error)
      ⨾ check-accepts _ refl "errors" _ (accepts-map u laws "errors" m.errors)
      ⨾ refl)
