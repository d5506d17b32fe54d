-- ===== src/Verify/ListSavedSearchesResponse.antt =====
-- `verify` of `ListSavedSearchesResponse` and its `toObject` without options, from internal/ipc/gen/ipc_generated.js.
use tilbo.Prelude.{String, ◌≡◌, refl, Option, none, [], ◌∷◌}
use tilbo.Values.{Value, object, Util, Documented, check, ◌orelse◌, verify_record, expects_messages}
use tilbo.Values.Slots.{props_of, list_slot}
use tilbo.Values.Accepts.{record-accepts, check-accepts, ◌⨾◌}
use tilbo.Values.Fields.{All-always, accepts-messages}
use tilbo.Ipc.ListSavedSearchesResponse.{ListSavedSearchesResponse}
use tilbo.Verify.SavedSearch

module _ (u : Util) where
  -- `toObject(message)`
  unfoldable pub to_object : ListSavedSearchesResponse → Value
  to_object m =
      object (props_of (("searches", list_slot (SavedSearch.to_object u) m.searches) ∷ []))

  unfoldable pub verify : Value → Option String
  verify m =
      verify_record (check "searches" (expects_messages (SavedSearch.verify u)) m orelse none) m

module _ (u : Util) (laws : Documented u) where
  -- `verify` accepts what `toObject` makes of a message.
  pub verify-accepts : (m : ListSavedSearchesResponse) → verify u (to_object u m) ≡ none
  unfolding verify to_object
  verify-accepts m = record-accepts _ (
      check-accepts _ refl "searches" _ (
        accepts-messages (SavedSearch.to_object u) (SavedSearch.verify u) "searches" m.searches
          (All-always (SavedSearch.verify-accepts u laws) m.searches))
      ⨾ refl)
