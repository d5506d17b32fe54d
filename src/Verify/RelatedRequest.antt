-- ===== src/Verify/RelatedRequest.antt =====
-- `verify` of `RelatedRequest` and its `toObject` without options, from internal/ipc/gen/ipc_generated.js.
use mathlib.Core.Option
use tilbo.Prelude.{String, ◌≡◌, refl, Option, none, [], ◌∷◌}
use tilbo.Prelude.Int.{pos}
use tilbo.Values.{
  Value, integer, number, string, object, Util, Documented, check, ◌orelse◌, verify_record,
  expects_number, expects_string, expects_integer,
}
use tilbo.Values.Slots.{props_of}
use tilbo.Values.Accepts.{record-accepts, check-accepts, ◌⨾◌}
use tilbo.Values.Fields.{accepts-number, accepts-string, accepts-natural}
use tilbo.Ipc.RelatedRequest.{RelatedRequest}

module _ (u : Util) where
  -- `toObject(message)`
  unfoldable pub to_object : RelatedRequest → Value
  to_object m = object (
      props_of (
        ("seedPath", Option.map string m.seed_path)
        ∷ ("limit", Option.map (λ n. integer (pos n)) m.limit)
        ∷ ("maxHops", Option.map (λ n. integer (pos n)) m.max_hops)
        ∷ ("hopWeight", Option.map number m.hop_weight)
        ∷ ("vecWeight", Option.map number m.vec_weight)
        ∷ []))

  unfoldable pub verify : Value → Option String
  verify m =
      verify_record
        (check "seedPath" (expects_string u) m
          orelse check "limit" (expects_integer u) m
          orelse check "maxHops" (expects_integer u) m
          orelse check "hopWeight" expects_number m
          orelse check "vecWeight" expects_number m
          orelse none)
        m

module _ (u : Util) (laws : Documented u) where
  -- `verify` accepts what `toObject` makes of a message.
  pub verify-accepts : (m : RelatedRequest) → verify u (to_object u m) ≡ none
  unfolding verify to_object
  verify-accepts m = record-accepts _ (
      check-accepts _ refl "seedPath" _ (accepts-string u laws "seedPath" m.seed_path)
      ⨾ check-accepts _ refl "limit" _ (accepts-natural u laws "limit" m.limit)
      ⨾ check-accepts _ refl "maxHops" _ (accepts-natural u laws "maxHops" m.max_hops)
      ⨾ check-accepts _ refl "hopWeight" _ (accepts-number "hopWeight" m.hop_weight)
      ⨾ check-accepts _ refl "vecWeight" _ (accepts-number "vecWeight" m.vec_weight)
      ⨾ refl)
