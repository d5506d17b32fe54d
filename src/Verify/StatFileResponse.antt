-- ===== src/Verify/StatFileResponse.antt =====
-- `verify` of `StatFileResponse` and its `toObject` without options, from internal/ipc/gen/ipc_generated.js.
use mathlib.Core.Option
use tilbo.Prelude.{String, ◌≡◌, refl, Option, none, [], ◌∷◌}
use tilbo.Values.{Value, object, Util, Documented, check, ◌orelse◌, verify_record, expects_message}
use tilbo.Values.Slots.{props_of}
use tilbo.Values.Accepts.{record-accepts, check-accepts, ◌⨾◌}
use tilbo.Values.Fields.{Given-always, accepts-message}
use tilbo.Ipc.StatFileResponse.{StatFileResponse}
use tilbo.Verify.FileStat

module _ (u : Util) where
  -- `toObject(message)`
  unfoldable pub to_object : StatFileResponse → Value
  to_object m = object (props_of (("stat", Option.map (FileStat.to_object u) m.stat) ∷ []))

  unfoldable pub verify : Value → Option String
  verify m = verify_record (check "stat" (expects_message (FileStat.verify u)) m orelse none) m

module _ (u : Util) (laws : Documented u) where
  -- `verify` accepts what `toObject` makes of a message.
  pub verify-accepts : (m : StatFileResponse) → verify u (to_object u m) ≡ none
  unfolding verify to_object
  verify-accepts m = record-accepts _ (
      check-accepts _ refl "stat" _ (
        accepts-message (FileStat.to_object u) (FileStat.verify u) "stat" m.stat
          (Given-always (FileStat.verify-accepts u laws) m.stat))
      ⨾ refl)
