-- ===== src/Verify/ListAppsForFileResponse.antt =====
-- `verify` of `ListAppsForFileResponse` and its `toObject` without options, from internal/ipc/gen/ipc_generated.js.
use tilbo.Prelude.{String, ◌≡◌, refl, Option, none, [], ◌∷◌}
use tilbo.Values.{Value, object, Util, Documented, check, ◌orelse◌, verify_record, expects_messages}
use tilbo.Values.Slots.{props_of, list_slot}
use tilbo.Values.Accepts.{record-accepts, check-accepts, ◌⨾◌}
use tilbo.Values.Fields.{All-always, accepts-messages}
use tilbo.Ipc.ListAppsForFileResponse.{ListAppsForFileResponse}
use tilbo.Verify.AppEntry

module _ (u : Util) where
  -- `toObject(message)`
  unfoldable pub to_object : ListAppsForFileResponse → Value
  to_object m = object (props_of (("apps", list_slot (AppEntry.to_object u) m.apps) ∷ []))

  unfoldable pub verify : Value → Option String
  verify m = verify_record (check "apps" (expects_messages (AppEntry.verify u)) m orelse none) m

module _ (u : Util) (laws : Documented u) where
  -- `verify` accepts what `toObject` makes of a message.
  pub verify-accepts : (m : ListAppsForFileResponse) → verify u (to_object u m) ≡ none
  unfolding verify to_object
  verify-accepts m = record-accepts _ (
      check-accepts _ refl "apps" _ (
        accepts-messages (AppEntry.to_object u) (AppEntry.verify u) "apps" m.apps
          (All-always (AppEntry.verify-accepts u laws) m.apps))
      ⨾ refl)
