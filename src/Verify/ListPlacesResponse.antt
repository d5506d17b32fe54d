-- ===== src/Verify/ListPlacesResponse.antt =====
-- `verify` of `ListPlacesResponse` and its `toObject` without options, from internal/ipc/gen/ipc_generated.js.
use tilbo.Prelude.{String, ◌≡◌, refl, Option, none, [], ◌∷◌}
use tilbo.Values.{Value, object, Util, Documented, check, ◌orelse◌, verify_record, expects_messages}
use tilbo.Values.Slots.{props_of, list_slot}
use tilbo.Values.Accepts.{record-accepts, check-accepts, ◌⨾◌}
use tilbo.Values.Fields.{All-always, accepts-messages}
use tilbo.Ipc.ListPlacesResponse.{ListPlacesResponse}
use tilbo.Verify.PlaceEntry

module _ (u : Util) where
  -- `toObject(message)`
  unfoldable pub to_object : ListPlacesResponse → Value
  to_object m = object (props_of (("places", list_slot (PlaceEntry.to_object u) m.places) ∷ []))

  unfoldable pub verify : Value → Option String
  verify m = verify_record (check "places" (expects_messages (PlaceEntry.verify u)) m orelse none) m

module _ (u : Util) (laws : Documented u) where
  -- `verify` accepts what `toObject` makes of a message.
  pub verify-accepts : (m : ListPlacesResponse) → verify u (to_object u m) ≡ none
  unfolding verify to_object
  verify-accepts m = record-accepts _ (
      check-accepts _ refl "places" _ (
        accepts-messages (PlaceEntry.to_object u) (PlaceEntry.verify u) "places" m.places
          (All-always (PlaceEntry.verify-accepts u laws) m.places))
      ⨾ refl)
