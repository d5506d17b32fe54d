-- ===== src/Verify/PinSearchResponse.antt =====
-- `verify` of `PinSearchResponse` and its `toObject` without options, from internal/ipc/gen/ipc_generated.js.
use mathlib.Core.Option
use tilbo.Prelude.{String, ◌≡◌, refl, Option, none, [], ◌∷◌}
use tilbo.Values.{Value, object, Util, Documented, check, ◌orelse◌, verify_record, expects_message}
use tilbo.Values.Slots.{props_of}
use tilbo.Values.Accepts.{record-accepts, check-accepts, ◌⨾◌}
use tilbo.Values.Fields.{Given-always, accepts-message}
use tilbo.Ipc.PinSearchResponse.{PinSearchResponse}
use tilbo.Verify.SavedSearch

module _ (u : Util) where
  -- `toObject(message)`
  unfoldable pub to_object : PinSearchResponse → Value
  to_object m = object (props_of (("search", Option.map (SavedSearch.to_object u) m.search) ∷ []))

  unfoldable pub verify : Value → Option String
  verify m = verify_record (check "search" (expects_message (SavedSearch.verify u)) m orelse none) m

module _ (u : Util) (laws : Documented u) where
  -- `verify` accepts what `toObject` makes of a message.
  pub verify-accepts : (m : PinSearchResponse) → verify u (to_object u m) ≡ none
  unfolding verify to_object
  verify-accepts m = record-accepts _ (
      check-accepts _ refl "search" _ (
        accepts-message (SavedSearch.to_object u) (SavedSearch.verify u) "search" m.search
          (Given-always (SavedSearch.verify-accepts u laws) m.search))
      ⨾ refl)
