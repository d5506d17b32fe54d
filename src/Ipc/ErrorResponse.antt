-- ===== src/Ipc/ErrorResponse.antt =====
-- `ErrorResponse` of internal/ipc/gen/ipc_generated.js (bundled in internal/quickshell/services/qml_ipc.mjs): the
-- message, `encode` and `decode`, and the lemmas from which its
-- round trip is put together.
use tilbo.Prelude.{ℕ, ◌/◌, String, refl, Option, none, some, arith, ◌==◌, if◌then◌else◌, ◌▸◌, Given}
use tilbo.Runtime.{Outcome, Parser, ◌>>=◌, pure, Runtime, Source}
use tilbo.Runtime.Laws.{Laws, Progress, Moves, IsU32}
use tilbo.Codec.{own, or_create, skip_field, decode_with, sub_message}
use tilbo.Codec.Carries.{Carries}
use tilbo.Codec.Parts.{◌⨟◌}
use tilbo.Codec.Scalars.{string-Carries, uint32-Carries}
use tilbo.Codec.Ends.{◌⟨◌⟩◌, Moves-put, Moves-uint32, Moves-skip_field, Moves-sub_message}

pub record ErrorResponse : Type 0 where
  pub code : Option ℕ
  pub message : Option String

-- `new ErrorResponse()`: every property has the default of the prototype.
abbrev pub empty : ErrorResponse
empty = record { code = none; message = none }

module _ (rt : Runtime) where
  open rt use {Byte, Writer, Reader, uint32}

  unfoldable pub encode : ErrorResponse → Option Writer → Writer
  encode m writer =
      or_create rt writer
      ▸ own (λ v w. w ▸ uint32 8 ▸ rt.uint32 v) m.code
      ▸ own (λ v w. w ▸ uint32 18 ▸ rt.string v) m.message

  -- the switch of `decode`
  unfoldable pub decode_field : ℕ → ErrorResponse → Parser Reader ErrorResponse
  decode_field tag m =
      if tag / 8 == 1
      then (do v ← rt.read_uint32; pure (record m { code = some v }))
      else if tag / 8 == 2
      then (do v ← rt.read_string; pure (record m { message = some v }))
      else skip_field rt tag m

  abbrev pub decode : Source Reader Byte → Option ℕ → Option ℕ → Outcome (ErrorResponse × Reader)
  decode = decode_with rt decode_field empty

-- The numbers fit their fields.
pub record IsValid (m : ErrorResponse) : Type 0 where
  pub code : Given IsU32 m.code

module _ (rt : Runtime) (laws : Laws rt) where
  -- What `encode` writes, `decode` reads back from a new message.
  pub encode-Carries :
      (m : ErrorResponse)
      → IsValid m
      → Carries rt laws (λ w. encode rt m (some w)) (decode_field rt) empty m
  unfolding encode decode_field or_create
  encode-Carries m v =
      let m1 : ErrorResponse = record empty { code = m.code } in
      uint32-Carries 8 (omega arith) (λ x. record empty { code = x }) m.code refl v.code
      ⨟ string-Carries 18 (omega arith) (λ x. record m1 { message = x }) m.message refl

module _ (rt : Runtime) (progress : Progress rt) where
  pub decode_field-Moves : (tag : ℕ) (m : ErrorResponse) → Moves rt 0 (decode_field rt tag m)
  unfolding decode_field
  decode_field-Moves tag m =
      Moves-put _ (Moves-uint32 rt progress)
      ⟨ tag / 8 == 1 ⟩ Moves-put _ progress.moves-string
      ⟨ tag / 8 == 2 ⟩ Moves-skip_field rt progress tag m

  pub decode-Moves : Moves rt 0 (sub_message rt (decode rt))
  decode-Moves = Moves-sub_message rt progress (decode_field rt) decode_field-Moves empty
