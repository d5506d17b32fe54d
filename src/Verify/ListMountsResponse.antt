-- ===== src/Verify/ListMountsResponse.antt =====
-- `verify` of `ListMountsResponse` and its `toObject` without options, from internal/ipc/gen/ipc_generated.js.
use tilbo.Prelude.{String, ◌≡◌, refl, Option, none, [], ◌∷◌}
use tilbo.Values.{Value, object, Util, Documented, check, ◌orelse◌, verify_record, expects_messages}
use tilbo.Values.Slots.{props_of, list_slot}
use tilbo.Values.Accepts.{record-accepts, check-accepts, ◌⨾◌}
use tilbo.Values.Fields.{All-always, accepts-messages}
use tilbo.Ipc.ListMountsResponse.{ListMountsResponse}
use tilbo.Verify.MountEntry

module _ (u : Util) where
  -- `toObject(message)`
  unfoldable pub to_object : ListMountsResponse → Value
  to_object m = object (props_of (("mounts", list_slot (MountEntry.to_object u) m.mounts) ∷ []))

  unfoldable pub verify : Value → Option String
  verify m = verify_record (check "mounts" (expects_messages (MountEntry.verify u)) m orelse none) m

module _ (u : Util) (laws : Documented u) where
  -- `verify` accepts what `toObject` makes of a message.
  pub verify-accepts : (m : ListMountsResponse) → verify u (to_object u m) ≡ none
  unfolding verify to_object
  verify-accepts m = record-accepts _ (
      check-accepts _ refl "mounts" _ (
        accepts-messages (MountEntry.to_object u) (MountEntry.verify u) "mounts" m.mounts
          (All-always (MountEntry.verify-accepts u laws) m.mounts))
      ⨾ refl)
