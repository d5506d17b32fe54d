-- ===== src/Verify/GetThumbnailRequest.antt =====
-- `verify` of `GetThumbnailRequest` and its `toObject` without options, from internal/ipc/gen/ipc_generated.js.
use mathlib.Core.Option
use tilbo.Prelude.{String, ◌≡◌, refl, Option, none, [], ◌∷◌, Given}
use tilbo.Values.{
  Value, integer, string, object, Util, Documented, check, ◌orelse◌, verify_record, expects_enum,
  expects_string,
}
use tilbo.Values.Slots.{props_of}
use tilbo.Values.Accepts.{record-accepts, check-accepts, ◌⨾◌}
use tilbo.Values.Fields.{IsEnum, accepts-enum, accepts-string}
use tilbo.Ipc.GetThumbnailRequest.{GetThumbnailRequest}

module _ (u : Util) where
  -- `toObject(message)`
  unfoldable pub to_object : GetThumbnailRequest → Value
  to_object m =
      object
        (props_of (("path", Option.map string m.path) ∷ ("size", Option.map integer m.size) ∷ []))

  unfoldable pub verify : Value → Option String
  verify m =
      verify_record
        (check "path" (expects_string u) m orelse check "size" (expects_enum 2) m orelse none) m

-- An enum has one of its numbers.
pub record IsRegular (m : GetThumbnailRequest) : Type 0 where
  pub size : Given (IsEnum 2) m.size

module _ (u : Util) (laws : Documented u) where
  -- `verify` accepts what `toObject` makes of a regular message.
  pub verify-accepts : (m : GetThumbnailRequest) → IsRegular m → verify u (to_object u m) ≡ none
  unfolding verify to_object
  verify-accepts m r = record-accepts _ (
      check-accepts _ refl "path" _ (accepts-string u laws "path" m.path)
      ⨾ check-accepts _ refl "size" _ (accepts-enum 2 "size" m.size r.size)
      ⨾ refl)
