-- ===== src/Verify/ListDirectoryResponse.antt =====
-- `verify` of `ListDirectoryResponse` and its `toObject` without options, from internal/ipc/gen/ipc_generated.js.
use tilbo.Prelude.{String, ◌≡◌, refl, Option, none, [], ◌∷◌}
use tilbo.Values.{Value, object, Util, Documented, check, ◌orelse◌, verify_record, expects_messages}
use tilbo.Values.Slots.{props_of, list_slot}
use tilbo.Values.Accepts.{record-accepts, check-accepts, ◌⨾◌}
use tilbo.Values.Fields.{All-always, accepts-messages}
use tilbo.Ipc.ListDirectoryResponse.{ListDirectoryResponse}
use tilbo.Verify.DirEntry

module _ (u : Util) where
  -- `toObject(message)`
  unfoldable pub to_object : ListDirectoryResponse → Value
  to_object m = object (props_of (("entries", list_slot (DirEntry.to_object u) m.entries) ∷ []))

  unfoldable pub verify : Value → Option String
  verify m = verify_record (check "entries" (expects_messages (DirEntry.verify u)) m orelse none) m

module _ (u : Util) (laws : Documented u) where
  -- `verify` accepts what `toObject` makes of a message.
  pub verify-accepts : (m : ListDirectoryResponse) → verify u (to_object u m) ≡ none
  unfolding verify to_object
  verify-accepts m = record-accepts _ (
      check-accepts _ refl "entries" _ (
        accepts-messages (DirEntry.to_object u) (DirEntry.verify u) "entries" m.entries
          (All-always (DirEntry.verify-accepts u laws) m.entries))
      ⨾ refl)
