-- ===== src/Verify/SearchResponse.antt =====
-- `verify` of `SearchResponse` and its `toObject` without options, from internal/ipc/gen/ipc_generated.js.
use mathlib.Core.Option
use tilbo.Prelude.{String, ◌≡◌, refl, Option, none, [], ◌∷◌}
use tilbo.Prelude.Int.{pos}
use tilbo.Values.{
  Value, integer, object, Util, Documented, check, ◌orelse◌, verify_record, expects_messages,
  expects_integer,
}
use tilbo.Values.Slots.{props_of, list_slot}
use tilbo.Values.Accepts.{record-accepts, check-accepts, ◌⨾◌}
use tilbo.Values.Fields.{All-always, accepts-messages, accepts-natural}
use tilbo.Ipc.SearchResponse.{SearchResponse}
use tilbo.Verify.FileResult

module _ (u : Util) where
  -- `toObject(message)`
  unfoldable pub to_object : SearchResponse → Value
  to_object m = object (
      props_of (
        ("files", list_slot (FileResult.to_object u) m.files)
        ∷ ("total", Option.map (λ n. integer (pos n)) m.total)
        ∷ []))

  unfoldable pub verify : Value → Option String
  verify m =
      verify_record
        (check "files" (expects_messages (FileResult.verify u)) m
          orelse check "total" (expects_integer u) m
          orelse none)
        m

module _ (u : Util) (laws : Documented u) where
  -- `verify` accepts what `toObject` makes of a message.
  pub verify-accepts : (m : SearchResponse) → verify u (to_object u m) ≡ none
  unfolding verify to_object
  verify-accepts m = record-accepts _ (
      check-accepts _ refl "files" _ (
        accepts-messages (FileResult.to_object u) (FileResult.verify u) "files" m.files
          (All-always (FileResult.verify-accepts u laws) m.files))
      ⨾ check-accepts _ refl "total" _ (accepts-natural u laws "total" m.total)
      ⨾ refl)
