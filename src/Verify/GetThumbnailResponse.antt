-- ===== src/Verify/GetThumbnailResponse.antt =====
-- `verify` of `GetThumbnailResponse` and its `toObject` without options, from internal/ipc/gen/ipc_generated.js.
use mathlib.Core.Option
use tilbo.Prelude.{String, ◌≡◌, refl, Option, none, [], ◌∷◌}
use tilbo.Prelude.Int.{pos}
use tilbo.Values.{
  Value, integer, string, object, Util, Documented, check, ◌orelse◌, verify_record, expects_string,
  expects_integer,
}
use tilbo.Values.Slots.{props_of}
use tilbo.Values.Accepts.{record-accepts, check-accepts, ◌⨾◌}
use tilbo.Values.Fields.{accepts-string, accepts-natural}
use tilbo.Ipc.GetThumbnailResponse.{GetThumbnailResponse}

module _ (u : Util) where
  -- `toObject(message)`
  unfoldable pub to_object : GetThumbnailResponse → Value
  to_object m = object (
      props_of (
        ("thumbnailPath", Option.map string m.thumbnail_path)
        ∷ ("width", Option.map (λ n. integer (pos n)) m.width)
        ∷ ("height", Option.map (λ n. integer (pos n)) m.height)
        ∷ []))

  unfoldable pub verify : Value → Option String
  verify m =
      verify_record
        (check "thumbnailPath" (expects_string u) m
          orelse check "width" (expects_integer u) m
          orelse check "height" (expects_integer u) m
          orelse none)
        m

module _ (u : Util) (laws : Documented u) where
  -- `verify` accepts what `toObject` makes of a message.
  pub verify-accepts : (m : GetThumbnailResponse) → verify u (to_object u m) ≡ none
  unfolding verify to_object
  verify-accepts m = record-accepts _ (
      check-accepts _ refl "thumbnailPath" _
        (accepts-string u laws "thumbnailPath" m.thumbnail_path)
      ⨾ check-accepts _ refl "width" _ (accepts-natural u laws "width" m.width)
      ⨾ check-accepts _ refl "height" _ (accepts-natural u laws "height" m.height)
      ⨾ refl)
