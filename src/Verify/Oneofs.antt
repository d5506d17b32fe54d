-- ===== src/Verify/Oneofs.antt =====
-- `Envelope.verify`, `Request.verify` and `Response.verify` of internal/ipc/gen/ipc_generated.js as a whole: which
-- values they accept.
use mathlib.Core.Logic.{◌⊎◌, inl, inr, ◌↔◌}
use mathlib.Core.Option
use tilbo.Prelude.{
  ◌+◌, ◌≤◌, ◌≡◌, refl, ap, Bool, true, false, Option, none, some, arith, Given, String,
  if◌then◌else◌, ◌∙◌,
}
use tilbo.Values.{
  Value, Util, Documented, is_record, is_long, own_value, check, when_given, expect, expects_wide,
  verify_record,
}
use tilbo.Values.Accepts.{given, ◌⨾◌, orelse-none, orelse-first}
use tilbo.Values.Fields.{expect-true}
use tilbo.Values.Oneof.{count_given, oneof-accepts, oneof-holds}
use tilbo.Ipc.Envelope.{Envelope}
use tilbo.Verify.Envelope
use tilbo.Verify.Event
use tilbo.Verify.Request
use tilbo.Verify.Response

expect-holds : (b : Bool) (f what : String) → expect b f what ≡ none → b ≡ true
unfolding expect
expect-holds true f what e = refl
expect-holds false f what e = absurd (Option.some-ne-none _ e)

record-holds :
    (error : Option String) (v : Value)
    → verify_record error v ≡ none
    → (is_record v ≡ true) × (error ≡ none)
unfolding verify_record
record-holds error v =
    elim (is_record v)
      as (λ b. (if b then error else some "object expected") ≡ none → (b ≡ true) × (error ≡ none)) [
        | true ↦ λ e. (refl, e)
        | false ↦ λ e. absurd (Option.some-ne-none _ e)
      ]

record-accepts :
    (error : Option String) (v : Value)
    → is_record v ≡ true
    → error ≡ none
    → verify_record error v ≡ none
unfolding verify_record
record-accepts error v h e = ap (λ b. if b then error else some "object expected") h ∙ e

module _ (u : Util) where
  -- A value that protobuf.js takes for a 64-bit integer.
  abbrev pub IsWide : Value → Type 0
  IsWide x = (u.is_integer x ≡ true) ⊎ (is_long u x ≡ true)

  either-holds : (a b : Bool) → (if a then true else b) ≡ true → (a ≡ true) ⊎ (b ≡ true)
  either-holds true b h = inl refl
  either-holds false b h = inr h

  either-accepts : (a b : Bool) → (a ≡ true) ⊎ (b ≡ true) → (if a then true else b) ≡ true
  either-accepts true b h = refl
  either-accepts false b (inl h) = cc
  either-accepts false b (inr h) = h

  IsWide-holds :
      (f : String) (o : Option Value) → when_given o (expects_wide u f) ≡ none → Given IsWide o
  unfolding when_given expects_wide
  IsWide-holds f none e = tt
  IsWide-holds f (some x) e = either-holds _ _ (expect-holds _ f "integer|Long" e)

  IsWide-accepts :
      (f : String) (o : Option Value) → Given IsWide o → when_given o (expects_wide u f) ≡ none
  unfolding when_given expects_wide
  IsWide-accepts f none h = refl
  IsWide-accepts f (some x) h = expect-true _ f "integer|Long" (either-accepts _ _ h)

  -- An object whose id is an integer, with one payload at most, which its own class accepts.
  pub record IsWellFormed (v : Value) : Type 0 where
    pub is_object : is_record v ≡ true
    pub request_id : Given IsWide (own_value "requestId" v)
    pub one :
        given (own_value "request" v) + given (own_value "response" v) + given (own_value "event" v)
        ≤ 1
    pub request : Given (λ x. Request.verify u x ≡ none) (own_value "request" v)
    pub response : Given (λ x. Response.verify u x ≡ none) (own_value "response" v)
    pub event : Given (λ x. Event.verify u x ≡ none) (own_value "event" v)

  -- `Envelope.verify` accepts a value exactly if the value is an object whose own `requestId`, if it
  -- is given, is an integer or a Long, which has one of `request`, `response` and `event` at most,
  -- and if the `verify` of its class accepts that one. The value may be any value of the model.
  pub envelope_verify_iff : (v : Value) → (Envelope.verify u v ≡ none) ↔ IsWellFormed v
  unfolding Envelope.verify check
  envelope_verify_iff v = (
    λ e.
        let (is_object, fields) = record-holds _ v e in
        let (one, (request, (response, (event, _)))) =
          oneof-holds "payload" (Envelope.members u) false v (orelse-none _ fields) in
        record {
          is_object = is_object;
          request_id = IsWide-holds "requestId" _ (orelse-first _ _ fields);
          one = omega (arith, one);
          request = request;
          response = response;
          event = event;
        },
    λ h. record-accepts _ v h.is_object (
        IsWide-accepts "requestId" _ h.request_id
        ⨾ oneof-accepts "payload" (Envelope.members u) false v
            (h.request, (h.response, (h.event, tt))) (omega (arith, h.one))),
  )

  -- `Request.verify` accepts a value exactly if the value is an object that has one of the 40 kinds
  -- of request at most as a property of its own, and if the `verify` of that kind's class accepts it.
  -- The names of the kinds and their classes are those of Request.Kinds.
  pub request_verify_iff :
      (v : Value)
      → (Request.verify u v ≡ none) ↔ (
          (is_record v ≡ true)
          × (count_given Request.Kinds.names v ≤ 1)
          × Request.Kinds.AreAccepted u v)
  unfolding Request.verify
  request_verify_iff v = (
    λ e.
        let (is_object, fields) = record-holds _ v e in
        let (one, accepted) = oneof-holds "kind" (Request.members u) false v fields in
        (is_object, omega (arith, one), accepted),
    λ h.
        record-accepts _ v h.0
          (oneof-accepts "kind" (Request.members u) false v h.2 (omega (arith, h.1))),
  )

  -- `Response.verify` accepts a value exactly if the value is an object that has one of the 40 kinds
  -- of response at most as a property of its own, and if the `verify` of that kind's class accepts it.
  -- The names of the kinds and their classes are those of Response.Kinds.
  pub response_verify_iff :
      (v : Value)
      → (Response.verify u v ≡ none) ↔ (
          (is_record v ≡ true)
          × (count_given Response.Kinds.names v ≤ 1)
          × Response.Kinds.AreAccepted u v)
  unfolding Response.verify
  response_verify_iff v = (
    λ e.
        let (is_object, fields) = record-holds _ v e in
        let (one, accepted) = oneof-holds "kind" (Response.members u) false v fields in
        (is_object, omega (arith, one), accepted),
    λ h.
        record-accepts _ v h.0
          (oneof-accepts "kind" (Response.members u) false v h.2 (omega (arith, h.1))),
  )

-- `Envelope.verify` accepts what `Envelope.toObject` makes, without options, of an envelope in which
-- every oneof, its own and those of the messages in it, has one member set at most, and every enum
-- has one of its numbers.
pub envelope_verify_accepts :
    (u : Util)
    → Documented u
    → (m : Envelope) → Envelope.IsRegular m
    → Envelope.verify u (Envelope.to_object u m) ≡ none
envelope_verify_accepts u laws m r = Envelope.verify-accepts u laws m r
