-- ===== src/Ipc/ChmodFileRequest.antt =====
-- `ChmodFileRequest` of internal/ipc/gen/ipc_generated.js (bundled in internal/quickshell/services/qml_ipc.mjs): the
-- message, `encode` and `decode`, and the lemmas from which its
-- round trip is put together.
use tilbo.Prelude.{ℕ, ◌/◌, String, refl, Option, none, some, arith, ◌==◌, if◌then◌else◌, ◌▸◌, Given}
use tilbo.Runtime.{Outcome, Parser, ◌>>=◌, pure, Runtime, Source}
use tilbo.Runtime.Laws.{Laws, Progress, Moves, IsU32}
use tilbo.Codec.{own, or_create, skip_field, decode_with, sub_message}
use tilbo.Codec.Carries.{Carries}
use tilbo.Codec.Parts.{◌⨟◌}
use tilbo.Codec.Scalars.{string-Carries, uint32-Carries}
use tilbo.Codec.Ends.{◌⟨◌⟩◌, Moves-put, Moves-uint32, Moves-skip_field, Moves-sub_message}

pub record ChmodFileRequest : Type 0 where
  pub path : Option String
  pub mode : Option ℕ

-- `new ChmodFileRequest()`: every property has the default of the prototype.
abbrev pub empty : ChmodFileRequest
empty = record { path = none; mode = none }

module _ (rt : Runtime) where
  open rt use {Byte, Writer, Reader, uint32}

  unfoldable pub encode : ChmodFileRequest → Option Writer → Writer
  encode m writer =
      or_create rt writer
      ▸ own (λ v w. w ▸ uint32 10 ▸ rt.string v) m.path
      ▸ own (λ v w. w ▸ uint32 16 ▸ rt.uint32 v) m.mode

  -- the switch of `decode`
  unfoldable pub decode_field : ℕ → ChmodFileRequest → Parser Reader ChmodFileRequest
  decode_field tag m =
      if tag / 8 == 1
      then (do v ← rt.read_string; pure (record m { path = some v }))
      else if tag / 8 == 2
      then (do v ← rt.read_uint32; pure (record m { mode = some v }))
      else skip_field rt tag m

  abbrev pub decode : Source Reader Byte → Option ℕ → Option ℕ → Outcome (ChmodFileRequest × Reader)
  decode = decode_with rt decode_field empty

-- The numbers fit their fields.
pub record IsValid (m : ChmodFileRequest) : Type 0 where
  pub mode : Given IsU32 m.mode

module _ (rt : Runtime) (laws : Laws rt) where
  -- What `encode` writes, `decode` reads back from a new message.
  pub encode-Carries :
      (m : ChmodFileRequest)
      → IsValid m
      → Carries rt laws (λ w. encode rt m (some w)) (decode_field rt) empty m
  unfolding encode decode_field or_create
  encode-Carries m v =
      let m1 : ChmodFileRequest = record empty { path = m.path } in
      string-Carries 10 (omega arith) (λ x. record empty { path = x }) m.path refl
      ⨟ uint32-Carries 16 (omega arith) (λ x. record m1 { mode = x }) m.mode refl v.mode

module _ (rt : Runtime) (progress : Progress rt) where
  pub decode_field-Moves : (tag : ℕ) (m : ChmodFileRequest) → Moves rt 0 (decode_field rt tag m)
  unfolding decode_field
  decode_field-Moves tag m =
      Moves-put _ progress.moves-string
      ⟨ tag / 8 == 1 ⟩ Moves-put _ (Moves-uint32 rt progress)
      ⟨ tag / 8 == 2 ⟩ Moves-skip_field rt progress tag m

  pub decode-Moves : Moves rt 0 (sub_message rt (decode rt))
  decode-Moves = Moves-sub_message rt progress (decode_field rt) decode_field-Moves empty
