-- ===== src/Ipc/StatFileResponse.antt =====
-- `StatFileResponse` of internal/ipc/gen/ipc_generated.js (bundled in internal/quickshell/services/qml_ipc.mjs): the
-- message, `encode` and `decode`, and the lemmas from which its
-- round trip is put together.
use tilbo.Prelude.{ℕ, ◌/◌, refl, Option, none, some, arith, ◌==◌, if◌then◌else◌, ◌▸◌, Given}
use tilbo.Runtime.{Outcome, Parser, ◌>>=◌, pure, Runtime, Source}
use tilbo.Runtime.Laws.{Laws, Progress, Moves}
use tilbo.Codec.{own, or_create, skip_field, decode_with, sub_message}
use tilbo.Codec.Carries.{Carries}
use tilbo.Codec.Scalars.{Given-map, message-Carries}
use tilbo.Codec.Ends.{◌⟨◌⟩◌, Moves-put, Moves-skip_field, Moves-sub_message}
use tilbo.Ipc.FileStat
use tilbo.Ipc.FileStat.{FileStat}

pub record StatFileResponse : Type 0 where
  pub stat : Option FileStat

-- `new StatFileResponse()`: every property has the default of the prototype.
abbrev pub empty : StatFileResponse
empty = record { stat = none }

module _ (rt : Runtime) where
  open rt use {Byte, Writer, Reader, uint32}

  unfoldable pub encode : StatFileResponse → Option Writer → Writer
  encode m writer =
      or_create rt writer
      ▸ own (λ v w. FileStat.encode rt v (some (w ▸ uint32 10 ▸ rt.fork)) ▸ rt.ldelim) m.stat

  -- the switch of `decode`
  unfoldable pub decode_field : ℕ → StatFileResponse → Parser Reader StatFileResponse
  decode_field tag m =
      if tag / 8 == 1
      then (do v ← sub_message rt (FileStat.decode rt); pure (record m { stat = some v }))
      else skip_field rt tag m

  abbrev pub decode : Source Reader Byte → Option ℕ → Option ℕ → Outcome (StatFileResponse × Reader)
  decode = decode_with rt decode_field empty

-- The nested messages are valid.
pub record IsValid (m : StatFileResponse) : Type 0 where
  pub stat : Given (λ x. FileStat.IsValid x) m.stat

module _ (rt : Runtime) (laws : Laws rt) where
  -- What `encode` writes, `decode` reads back from a new message.
  pub encode-Carries :
      (m : StatFileResponse)
      → IsValid m
      → Carries rt laws (λ w. encode rt m (some w)) (decode_field rt) empty m
  unfolding encode decode_field or_create
  encode-Carries m v =
      message-Carries 10 (omega arith) _ _ (FileStat.encode rt) (λ x. record empty { stat = x })
        m.stat refl (Given-map (FileStat.encode-Carries rt laws) m.stat v.stat)

module _ (rt : Runtime) (progress : Progress rt) where
  pub decode_field-Moves : (tag : ℕ) (m : StatFileResponse) → Moves rt 0 (decode_field rt tag m)
  unfolding decode_field
  decode_field-Moves tag m =
      Moves-put _ (FileStat.decode-Moves rt progress)
      ⟨ tag / 8 == 1 ⟩ Moves-skip_field rt progress tag m

  pub decode-Moves : Moves rt 0 (sub_message rt (decode rt))
  decode-Moves = Moves-sub_message rt progress (decode_field rt) decode_field-Moves empty
