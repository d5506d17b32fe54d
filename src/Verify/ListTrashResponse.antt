-- ===== src/Verify/ListTrashResponse.antt =====
-- `verify` of `ListTrashResponse` and its `toObject` without options, from internal/ipc/gen/ipc_generated.js.
use tilbo.Prelude.{String, ◌≡◌, refl, Option, none, [], ◌∷◌}
use tilbo.Values.{Value, object, Util, Documented, check, ◌orelse◌, verify_record, expects_messages}
use tilbo.Values.Slots.{props_of, list_slot}
use tilbo.Values.Accepts.{record-accepts, check-accepts, ◌⨾◌}
use tilbo.Values.Fields.{All-always, accepts-messages}
use tilbo.Ipc.ListTrashResponse.{ListTrashResponse}
use tilbo.Verify.TrashEntry

module _ (u : Util) where
  -- `toObject(message)`
  unfoldable pub to_object : ListTrashResponse → Value
  to_object m = object (props_of (("entries", list_slot (TrashEntry.to_object u) m.entries) ∷ []))

  unfoldable pub verify : Value → Option String
  verify m =
      verify_record (check "entries" (expects_messages (TrashEntry.verify u)) m orelse none) m

module _ (u : Util) (laws : Documented u) where
  -- `verify` accepts what `toObject` makes of a message.
  pub verify-accepts : (m : ListTrashResponse) → verify u (to_object u m) ≡ none
  unfolding verify to_object
  verify-accepts m = record-accepts _ (
      check-accepts _ refl "entries" _ (
        accepts-messages (TrashEntry.to_object u) (TrashEntry.verify u) "entries" m.entries
          (All-always (TrashEntry.verify-accepts u laws) m.entries))
      ⨾ refl)
