-- ===== src/Verify/GetFileActionsResponse.antt =====
-- `verify` of `GetFileActionsResponse` and its `toObject` without options, from internal/ipc/gen/ipc_generated.js.
use tilbo.Prelude.{String, ◌≡◌, refl, Option, none, [], ◌∷◌}
use tilbo.Values.{Value, object, Util, Documented, check, ◌orelse◌, verify_record, expects_messages}
use tilbo.Values.Slots.{props_of, list_slot}
use tilbo.Values.Accepts.{record-accepts, check-accepts, ◌⨾◌}
use tilbo.Values.Fields.{All-always, accepts-messages}
use tilbo.Ipc.GetFileActionsResponse.{GetFileActionsResponse}
use tilbo.Verify.FileAction

module _ (u : Util) where
  -- `toObject(message)`
  unfoldable pub to_object : GetFileActionsResponse → Value
  to_object m = object (props_of (("actions", list_slot (FileAction.to_object u) m.actions) ∷ []))

  unfoldable pub verify : Value → Option String
  verify m =
      verify_record (check "actions" (expects_messages (FileAction.verify u)) m orelse none) m

module _ (u : Util) (laws : Documented u) where
  -- `verify` accepts what `toObject` makes of a message.
  pub verify-accepts : (m : GetFileActionsResponse) → verify u (to_object u m) ≡ none
  unfolding verify to_object
  verify-accepts m = record-accepts _ (
      check-accepts _ refl "actions" _ (
        accepts-messages (FileAction.to_object u) (FileAction.verify u) "actions" m.actions
          (All-always (FileAction.verify-accepts u laws) m.actions))
      ⨾ refl)
