-- ===== src/Ipc/Envelope.antt =====
-- `Envelope` of internal/ipc/gen/ipc_generated.js (bundled in internal/quickshell/services/qml_ipc.mjs): the
-- message, `encode` and `decode` and their length-delimited forms, and the lemmas from which its
-- round trip is put together.
use tilbo.Prelude.{ℕ, ◌/◌, refl, Option, none, some, arith, ◌==◌, if◌then◌else◌, ◌▸◌, Given}
use tilbo.Runtime.{Outcome, Parser, ◌>>=◌, pure, Runtime, Source}
use tilbo.Runtime.Laws.{Laws, Progress, Moves, IsSafe}
use tilbo.Codec.{own, or_create, skip_field, decode_with, sub_message, wrap_source}
use tilbo.Codec.Carries.{Carries}
use tilbo.Codec.Parts.{◌⨟◌}
use tilbo.Codec.Scalars.{Given-map, uint64-Carries, message-Carries}
use tilbo.Codec.Ends.{◌⟨◌⟩◌, Moves-put, Moves-skip_field}
use tilbo.Ipc.Event
use tilbo.Ipc.Event.{Event}
use tilbo.Ipc.Request
use tilbo.Ipc.Request.{Request}
use tilbo.Ipc.Response
use tilbo.Ipc.Response.{Response}

pub record Envelope : Type 0 where
  pub request_id : Option ℕ
  pub request : Option Request
  pub response : Option Response
  pub event : Option Event

-- `new Envelope()`: every property has the default of the prototype.
abbrev pub empty : Envelope
empty = record { request_id = none; request = none; response = none; event = none }

module _ (rt : Runtime) where
  open rt use {Byte, Writer, Reader, uint32}

  unfoldable pub encode : Envelope → Option Writer → Writer
  encode m writer =
      or_create rt writer
      ▸ own (λ v w. w ▸ uint32 8 ▸ rt.uint64 v) m.request_id
      ▸ own (λ v w. Request.encode rt v (some (w ▸ uint32 18 ▸ rt.fork)) ▸ rt.ldelim) m.request
      ▸ own (λ v w. Response.encode rt v (some (w ▸ uint32 26 ▸ rt.fork)) ▸ rt.ldelim) m.response
      ▸ own (λ v w. Event.encode rt v (some (w ▸ uint32 34 ▸ rt.fork)) ▸ rt.ldelim) m.event

  unfoldable pub encode_delimited : Envelope → Option Writer → Writer
  encode_delimited m writer = encode m writer ▸ rt.ldelim

  -- the switch of `decode`
  unfoldable pub decode_field : ℕ → Envelope → Parser Reader Envelope
  decode_field tag m =
      if tag / 8 == 1
      then (do v ← rt.read_uint64; pure (record m { request_id = some v }))
      else if tag / 8 == 2
      then (do v ← sub_message rt (Request.decode rt); pure (record m { request = some v }))
      else if tag / 8 == 3
      then (do v ← sub_message rt (Response.decode rt); pure (record m { response = some v }))
      else if tag / 8 == 4
      then (do v ← sub_message rt (Event.decode rt); pure (record m { event = some v }))
      else skip_field rt tag m

  abbrev pub decode : Source Reader Byte → Option ℕ → Option ℕ → Outcome (Envelope × Reader)
  decode = decode_with rt decode_field empty

  unfoldable pub decode_delimited : Source Reader Byte → Outcome (Envelope × Reader)
  decode_delimited source = sub_message rt decode (wrap_source rt source)

-- The numbers fit their fields and the nested messages are valid.
pub record IsValid {rt : Runtime} (laws : Laws rt) (m : Envelope) : Type 0 where
  pub request_id : Given IsSafe m.request_id
  pub request : Given (λ x. Request.RoundTrip.IsValid laws x) m.request
  pub response : Given (λ x. Response.RoundTrip.IsValid laws x) m.response
  pub event : Given (λ x. Event.IsValid x) m.event

module _ (rt : Runtime) (laws : Laws rt) where
  -- What `encode` writes, `decode` reads back from a new message.
  pub encode-Carries :
      (m : Envelope)
      → IsValid laws m
      → Carries rt laws (λ w. encode rt m (some w)) (decode_field rt) empty m
  unfolding encode decode_field or_create
  encode-Carries m v =
      let m1 : Envelope = record empty { request_id = m.request_id } in
      let m2 : Envelope = record m1 { request = m.request } in
      let m3 : Envelope = record m2 { response = m.response } in
      uint64-Carries 8 (omega arith) (λ x. record empty { request_id = x }) m.request_id refl
        v.request_id
      ⨟ message-Carries 18 (omega arith) _ _ (Request.encode rt) (λ x. record m1 { request = x })
          m.request refl (Given-map (Request.RoundTrip.encode-Carries rt laws) m.request v.request)
      ⨟ message-Carries 26 (omega arith) _ _ (Response.encode rt) (λ x. record m2 { response = x })
          m.response refl
          (Given-map (Response.RoundTrip.encode-Carries rt laws) m.response v.response)
      ⨟ message-Carries 34 (omega arith) _ _ (Event.encode rt) (λ x. record m3 { event = x })
          m.event refl (Given-map (Event.encode-Carries rt laws) m.event v.event)

module _ (rt : Runtime) (progress : Progress rt) where
  pub decode_field-Moves : (tag : ℕ) (m : Envelope) → Moves rt 0 (decode_field rt tag m)
  unfolding decode_field
  decode_field-Moves tag m =
      Moves-put _ progress.moves-uint64
      ⟨ tag / 8 == 1 ⟩ Moves-put _ (Request.Ends.decode-Moves rt progress)
      ⟨ tag / 8 == 2 ⟩ Moves-put _ (Response.Ends.decode-Moves rt progress)
      ⟨ tag / 8 == 3 ⟩ Moves-put _ (Event.decode-Moves rt progress)
      ⟨ tag / 8 == 4 ⟩ Moves-skip_field rt progress tag m
