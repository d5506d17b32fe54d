-- ===== src/Verify/ScoredFile.antt =====
-- `verify` of `ScoredFile` and its `toObject` without options, from internal/ipc/gen/ipc_generated.js.
use mathlib.Core.Option
use tilbo.Prelude.{String, ◌≡◌, refl, Option, none, [], ◌∷◌}
use tilbo.Prelude.Int.{pos}
use tilbo.Values.{
  Value, integer, number, object, Util, Documented, check, ◌orelse◌, verify_record, expects_number,
  expects_message, expects_integer,
}
use tilbo.Values.Slots.{props_of}
use tilbo.Values.Accepts.{record-accepts, check-accepts, ◌⨾◌}
use tilbo.Values.Fields.{Given-always, accepts-number, accepts-message, accepts-natural}
use tilbo.Ipc.ScoredFile.{ScoredFile}
use tilbo.Verify.FileResult

module _ (u : Util) where
  -- `toObject(message)`
  unfoldable pub to_object : ScoredFile → Value
  to_object m = object (
      props_of (
        ("file", Option.map (FileResult.to_object u) m.file)
        ∷ ("score", Option.map number m.score)
        ∷ ("hopDistance", Option.map (λ n. integer (pos n)) m.hop_distance)
        ∷ ("cosineSim", Option.map number m.cosine_sim)
        ∷ []))

  unfoldable pub verify : Value → Option String
  verify m =
      verify_record
        (check "file" (expects_message (FileResult.verify u)) m
          orelse check "score" expects_number m
          orelse check "hopDistance" (expects_integer u) m
          orelse check "cosineSim" expects_number m
          orelse none)
        m

module _ (u : Util) (laws : Documented u) where
  -- `verify` accepts what `toObject` makes of a message.
  pub verify-accepts : (m : ScoredFile) → verify u (to_object u m) ≡ none
  unfolding verify to_object
  verify-accepts m = record-accepts _ (
      check-accepts _ refl "file" _ (
        accepts-message (FileResult.to_object u) (FileResult.verify u) "file" m.file
          (Given-always (FileResult.verify-accepts u laws) m.file))
      ⨾ check-accepts _ refl "score" _ (accepts-number "score" m.score)
      ⨾ check-accepts _ refl "hopDistance" _ (accepts-natural u laws "hopDistance" m.hop_distance)
      ⨾ check-accepts _ refl "cosineSim" _ (accepts-number "cosineSim" m.cosine_sim)
      ⨾ refl)
