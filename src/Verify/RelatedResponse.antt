-- ===== src/Verify/RelatedResponse.antt =====
-- `verify` of `RelatedResponse` and its `toObject` without options, from internal/ipc/gen/ipc_generated.js.
use tilbo.Prelude.{String, ◌≡◌, refl, Option, none, [], ◌∷◌}
use tilbo.Values.{Value, object, Util, Documented, check, ◌orelse◌, verify_record, expects_messages}
use tilbo.Values.Slots.{props_of, list_slot}
use tilbo.Values.Accepts.{record-accepts, check-accepts, ◌⨾◌}
use tilbo.Values.Fields.{All-always, accepts-messages}
use tilbo.Ipc.RelatedResponse.{RelatedResponse}
use tilbo.Verify.ScoredFile

module _ (u : Util) where
  -- `toObject(message)`
  unfoldable pub to_object : RelatedResponse → Value
  to_object m = object (props_of (("files", list_slot (ScoredFile.to_object u) m.files) ∷ []))

  unfoldable pub verify : Value → Option String
  verify m = verify_record (check "files" (expects_messages (ScoredFile.verify u)) m orelse none) m

module _ (u : Util) (laws : Documented u) where
  -- `verify` accepts what `toObject` makes of a message.
  pub verify-accepts : (m : RelatedResponse) → verify u (to_object u m) ≡ none
  unfolding verify to_object
  verify-accepts m = record-accepts _ (
      check-accepts _ refl "files" _ (
        accepts-messages (ScoredFile.to_object u) (ScoredFile.verify u) "files" m.files
          (All-always (ScoredFile.verify-accepts u laws) m.files))
      ⨾ refl)
