-- ===== src/Verify/Bare.antt =====
-- `verify` and `toObject` without options of the messages with no field, from
-- internal/ipc/gen/ipc_generated.js: the classes differ only in name.
use tilbo.Prelude.{String, ◌≡◌, refl, Option, none, []}
use tilbo.Values.{Value, object, Util, Documented, verify_record}
use tilbo.Values.Slots.{props_of}
use tilbo.Values.Accepts.{record-accepts}
use tilbo.Ipc.Bare.{Bare}

module _ (u : Util) where
  -- `toObject(message)`
  unfoldable pub to_object : Bare → Value
  to_object m = object (props_of [])

  unfoldable pub verify : Value → Option String
  verify m = verify_record none m

module _ (u : Util) (laws : Documented u) where
  -- `verify` accepts what `toObject` makes of a message.
  pub verify-accepts : (m : Bare) → verify u (to_object u m) ≡ none
  unfolding verify to_object
  verify-accepts m = record-accepts _ (refl)
