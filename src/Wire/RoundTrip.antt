-- ===== src/Wire/RoundTrip.antt =====
-- `decode` after `encode`, for Envelope, Request, Response and Event of
-- internal/ipc/gen/ipc_generated.js.
use tilbo.Prelude.{◌^◌, ◌<◌, ◌≡◌, none, some, List, [], ◌++◌, length}
use tilbo.Runtime.{done, Runtime, reader, buffer}
use tilbo.Runtime.Laws.{Laws, Advanced}
use tilbo.Codec.{or_create}
use tilbo.Codec.Messages.{decode-encode, decode_reader-encode}
use tilbo.Ipc.Envelope
use tilbo.Ipc.Envelope.{Envelope}
use tilbo.Ipc.Request
use tilbo.Ipc.Request.{Request}
use tilbo.Ipc.Response
use tilbo.Ipc.Response.{Response}
use tilbo.Ipc.Event
use tilbo.Ipc.Event.{Event}

module _ (rt : Runtime) (laws : Laws rt) where
  open rt use {finish, Reader, pos}
  open laws use {rest}

  -- The bytes that `encode` of an envelope leaves in a new writer, fewer than 2 ^ 32, `decode` reads
  -- back to the same envelope, and no byte is left. The numbers in it have to fit their fields, and
  -- the keys of its maps have to be distinct and none of them `__proto__`. Several payloads may be set.
  pub envelope_round_trip :
      (m : Envelope)
      → Envelope.IsValid laws m
      → length (finish (Envelope.encode rt m none)) < 2 ^ 32
      → (r : Reader) × (Envelope.decode rt (buffer (finish (Envelope.encode rt m none))) none none
          ≡ done (m, r))
        × (rest r ≡ [])
  unfolding Envelope.encode or_create
  envelope_round_trip m v =
      decode-encode rt laws (Envelope.decode_field rt) Envelope.empty m (Envelope.encode rt)
        (Envelope.encode-Carries rt laws m v)

  -- A reader in front of the bytes of an envelope with anything behind them: `decode` with the number
  -- of those bytes as `length` returns the envelope and leaves the reader right behind it. The
  -- envelope meets the conditions of the plain round trip.
  pub envelope_in_stream :
      (m : Envelope)
      → Envelope.IsValid laws m
      → length (finish (Envelope.encode rt m none)) < 2 ^ 32
      → (r : Reader) (t : List rt.Byte) → rest r ≡ finish (Envelope.encode rt m none) ++ t
      → (r' : Reader) × (Envelope.decode rt
            (reader r)
            (some (length (finish (Envelope.encode rt m none))))
            none
          ≡ done (m, r'))
        × Advanced rt rest (finish (Envelope.encode rt m none)) t r r'
  unfolding Envelope.encode or_create
  envelope_in_stream m v =
      decode_reader-encode rt laws (Envelope.decode_field rt) Envelope.empty m (Envelope.encode rt)
        (Envelope.encode-Carries rt laws m v)

  -- The same round trip for a request by itself, whichever of its 40 kinds are set.
  pub request_round_trip :
      (m : Request)
      → Request.RoundTrip.IsValid laws m
      → length (finish (Request.encode rt m none)) < 2 ^ 32
      → (r : Reader) × (Request.decode rt (buffer (finish (Request.encode rt m none))) none none
          ≡ done (m, r))
        × (rest r ≡ [])
  unfolding Request.encode or_create
  request_round_trip m v =
      decode-encode rt laws (Request.decode_field rt) Request.empty m (Request.encode rt)
        (Request.RoundTrip.encode-Carries rt laws m v)

  -- The same round trip for a response by itself, whichever of its 40 kinds are set.
  pub response_round_trip :
      (m : Response)
      → Response.RoundTrip.IsValid laws m
      → length (finish (Response.encode rt m none)) < 2 ^ 32
      → (r : Reader) × (Response.decode rt (buffer (finish (Response.encode rt m none))) none none
          ≡ done (m, r))
        × (rest r ≡ [])
  unfolding Response.encode or_create
  response_round_trip m v =
      decode-encode rt laws (Response.decode_field rt) Response.empty m (Response.encode rt)
        (Response.RoundTrip.encode-Carries rt laws m v)

  -- The same round trip for an event by itself, whichever of its four kinds are set.
  pub event_round_trip :
      (m : Event)
      → Event.IsValid m
      → length (finish (Event.encode rt m none)) < 2 ^ 32
      → (r : Reader) × (Event.decode rt (buffer (finish (Event.encode rt m none))) none none
          ≡ done (m, r))
        × (rest r ≡ [])
  unfolding Event.encode or_create
  event_round_trip m v =
      decode-encode rt laws (Event.decode_field rt) Event.empty m (Event.encode rt)
        (Event.encode-Carries rt laws m v)
