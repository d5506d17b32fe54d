-- ===== src/Verify/Envelope.antt =====
-- `verify` of `Envelope` and its `toObject` without options, from internal/ipc/gen/ipc_generated.js.
use mathlib.Core.Option
use tilbo.Prelude.{ℕ, String, ◌≡◌, ◌≤◌, refl, false, Option, none, [], ◌∷◌, arith, Given}
use tilbo.Prelude.Int.{pos}
use tilbo.Values.{
  Value, object, Util, Documented, check, ◌orelse◌, verify_record, verify_oneof, expects_wide,
}
use tilbo.Values.Slots.{props_of}
use tilbo.Values.Accepts.{
  given, sum, ◌⊕◌, ◌&◌, given-map, nothing, record-accepts, check-accepts, ◌⨾◌,
}
use tilbo.Values.Oneof.{Members, oneof-accepts_slots}
use tilbo.Values.Fields.{accepts-message, accepts-wide_natural}
use tilbo.Ipc.Envelope.{Envelope}
use tilbo.Codec.Scalars.{Given-map}
use tilbo.Verify.Event
use tilbo.Verify.Request
use tilbo.Verify.Response

module _ (u : Util) where
  -- `toObject(message)`
  unfoldable pub to_object : Envelope → Value
  to_object m = object (
      props_of (
        ("requestId", Option.map (λ n. u.wide (pos n)) m.request_id)
        ∷ ("request", Option.map (Request.to_object u) m.request)
        ∷ ("response", Option.map (Response.to_object u) m.response)
        ∷ ("event", Option.map (Event.to_object u) m.event)
        ∷ []))

  -- The members of `payload`, in the order of `verify`.
  abbrev pub members : Members
  members =
      ("request", Request.verify u)
      ∷ ("response", Response.verify u)
      ∷ ("event", Event.verify u)
      ∷ []

  unfoldable pub verify : Value → Option String
  verify m =
      verify_record
        (check "requestId" (expects_wide u) m orelse verify_oneof "payload" members false m) m

abbrev pub count_payloads : Envelope → ℕ
count_payloads m = sum (given m.request ∷ given m.response ∷ given m.event ∷ [])

-- One member of the oneof is set at most, and the nested messages are as regular.
pub record IsRegular (m : Envelope) : Type 0 where
  pub one : count_payloads m ≤ 1
  pub request : Given Request.Accepts.IsRegular m.request
  pub response : Given Response.Accepts.IsRegular m.response
  pub event : Given Event.IsRegular m.event

module _ (u : Util) (laws : Documented u) where
  -- `verify` accepts what `toObject` makes of a regular message.
  pub verify-accepts : (m : Envelope) → IsRegular m → verify u (to_object u m) ≡ none
  unfolding verify to_object
  verify-accepts m r = record-accepts _ (
      check-accepts _ refl "requestId" _ (accepts-wide_natural u laws "requestId" m.request_id)
      ⨾ oneof-accepts_slots _ refl "payload" (members u)
          (accepts-message (Request.to_object u) (Request.verify u) "request" m.request
              (Given-map (Request.Accepts.verify-accepts u laws) m.request r.request)
            & accepts-message (Response.to_object u) (Response.verify u) "response" m.response
                (Given-map (Response.Accepts.verify-accepts u laws) m.response r.response)
            & accepts-message (Event.to_object u) (Event.verify u) "event" m.event
                (Given-map (Event.verify-accepts u laws) m.event r.event)
            & tt)
          (omega (
            arith,
            r.one,
            given-map (Request.to_object u) m.request
                ⊕ given-map (Response.to_object u) m.response
                ⊕ given-map (Event.to_object u) m.event
                ⊕ nothing,
          )))
