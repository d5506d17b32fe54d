-- ===== src/Verify/MetadataResponse.antt =====
-- `verify` of `MetadataResponse` and its `toObject` without options, from internal/ipc/gen/ipc_generated.js.
use mathlib.Core.Option
use tilbo.Prelude.{String, ◌≡◌, refl, Option, none, [], ◌∷◌}
use tilbo.Values.{
  Value, string, object, Util, Documented, check, ◌orelse◌, verify_record, expects_string,
  expects_map,
}
use tilbo.Values.Slots.{props_of, map_slot}
use tilbo.Values.Accepts.{record-accepts, check-accepts, ◌⨾◌}
use tilbo.Values.Fields.{accepts-string, accepts-map}
use tilbo.Ipc.MetadataResponse.{MetadataResponse}

module _ (u : Util) where
  -- `toObject(message)`
  unfoldable pub to_object : MetadataResponse → Value
  to_object m = object (
      props_of (
        ("path", Option.map string m.path)
        ∷ ("metadata", map_slot m.metadata)
        ∷ ("sources", map_slot m.sources)
        ∷ []))

  unfoldable pub verify : Value → Option String
  verify m =
      verify_record
        (check "path" (expects_string u) m
          orelse check "metadata" (expects_map u) m
          orelse check "sources" (expects_map u) m
          orelse none)
        m

module _ (u : Util) (laws : Documented u) where
  -- `verify` accepts what `toObject` makes of a message.
  pub verify-accepts : (m : MetadataResponse) → verify u (to_object u m) ≡ none
  unfolding verify to_object
  verify-accepts m = record-accepts _ (
      check-accepts _ refl "path" _ (accepts-string u laws "path" m.path)
      ⨾ check-accepts _ refl "metadata" _ (accepts-map u laws "metadata" m.metadata)
      ⨾ check-accepts _ refl "sources" _ (accepts-map u laws "sources" m.sources)
      ⨾ refl)
