-- ===== src/Wire/Merge.antt =====
-- `Envelope.encode` with the writer of an earlier `Envelope.encode`, and one `decode` of both, from
-- internal/ipc/gen/ipc_generated.js.
use tilbo.Prelude.{◌^◌, ◌<◌, ◌≡◌, refl, Option, none, some, [], length, arith}
use tilbo.Runtime.{done, Runtime, buffer}
use tilbo.Runtime.Laws.{Laws}
use tilbo.Codec.{or_create}
use tilbo.Codec.Carries.{Carries}
use tilbo.Codec.Parts.{◌⨟◌}
use tilbo.Codec.Messages.{decode-encode}
use tilbo.Codec.Scalars.{Given-map, uint64-Carries, message-Carries}
use tilbo.Ipc.Envelope
use tilbo.Ipc.Envelope.{Envelope}
use tilbo.Ipc.Event
use tilbo.Ipc.Request
use tilbo.Ipc.Response

-- The later of two values, if there is one.
abbrev pub later : {A : Type 0} → Option A → Option A → Option A
later none o = o
later (some a) o = some a

-- Property by property, what the second envelope has, and what the first has where it has nothing.
abbrev pub merged : Envelope → Envelope → Envelope
merged a b = record {
  request_id = later b.request_id a.request_id;
  request = later b.request a.request;
  response = later b.response a.response;
  event = later b.event a.event;
}

module _ (rt : Runtime) (laws : Laws rt) where
  open rt use {finish, Reader}
  open laws use {rest}

  merged-Carries :
      (a b : Envelope)
      → Envelope.IsValid laws b
      → Carries rt laws
          (λ w. Envelope.encode rt b (some w))
          (Envelope.decode_field rt)
          a
          (merged a b)
  unfolding Envelope.encode Envelope.decode_field or_create
  merged-Carries a b v =
      let m1 : Envelope = record a { request_id = later b.request_id a.request_id } in
      let m2 : Envelope = record m1 { request = later b.request a.request } in
      let m3 : Envelope = record m2 { response = later b.response a.response } in
      uint64-Carries 8 (omega arith) (λ x. record a { request_id = later x a.request_id })
        b.request_id refl v.request_id
      ⨟ message-Carries 18 (omega arith) _ _ (Request.encode rt)
          (λ x. record m1 { request = later x a.request }) b.request refl
          (Given-map (Request.RoundTrip.encode-Carries rt laws) b.request v.request)
      ⨟ message-Carries 26 (omega arith) _ _ (Response.encode rt)
          (λ x. record m2 { response = later x a.response }) b.response refl
          (Given-map (Response.RoundTrip.encode-Carries rt laws) b.response v.response)
      ⨟ message-Carries 34 (omega arith) _ _ (Event.encode rt)
          (λ x. record m3 { event = later x a.event }) b.event refl
          (Given-map (Event.encode-Carries rt laws) b.event v.event)

  -- Two envelopes that were written into one writer, one after the other, `decode` reads as a single
  -- envelope: for each of its properties it has what the second had, and what the first had where the
  -- second had nothing. A payload is replaced as a whole, and not merged. The envelopes meet the
  -- conditions of the plain round trip, and their bytes together are fewer than 2 ^ 32.
  pub envelope_later_wins :
      (a b : Envelope)
      → Envelope.IsValid laws a
      → Envelope.IsValid laws b
      → length (finish (Envelope.encode rt b (some (Envelope.encode rt a none)))) < 2 ^ 32
      → (r : Reader) × (Envelope.decode rt
            (buffer (finish (Envelope.encode rt b (some (Envelope.encode rt a none)))))
            none
            none
          ≡ done (merged a b, r))
        × (rest r ≡ [])
  unfolding Envelope.encode or_create
  envelope_later_wins a b va vb =
      decode-encode rt laws (Envelope.decode_field rt) Envelope.empty (merged a b)
        (λ _ w. Envelope.encode rt b (some (Envelope.encode rt a w)))
        (Envelope.encode-Carries rt laws a va ⨟ merged-Carries a b vb)
