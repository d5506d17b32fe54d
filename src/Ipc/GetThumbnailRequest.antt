-- ===== src/Ipc/GetThumbnailRequest.antt =====
-- `GetThumbnailRequest` of internal/ipc/gen/ipc_generated.js (bundled in internal/quickshell/services/qml_ipc.mjs): the
-- message, `encode` and `decode`, and the lemmas from which its
-- round trip is put together.
use tilbo.Prelude.{ℕ, ◌/◌, String, refl, Option, none, some, arith, ◌==◌, if◌then◌else◌, ◌▸◌, Given}
use tilbo.Prelude.Int.{ℤ}
use tilbo.Runtime.{Outcome, Parser, ◌>>=◌, pure, Runtime, Source}
use tilbo.Runtime.Laws.{Laws, Progress, Moves, IsInt32}
use tilbo.Codec.{own, or_create, skip_field, decode_with, sub_message}
use tilbo.Codec.Carries.{Carries}
use tilbo.Codec.Parts.{◌⨟◌}
use tilbo.Codec.Scalars.{string-Carries, int32-Carries}
use tilbo.Codec.Ends.{◌⟨◌⟩◌, Moves-put, Moves-skip_field, Moves-sub_message}

pub record GetThumbnailRequest : Type 0 where
  pub path : Option String
  pub size : Option ℤ

-- `new GetThumbnailRequest()`: every property has the default of the prototype.
abbrev pub empty : GetThumbnailRequest
empty = record { path = none; size = none }

module _ (rt : Runtime) where
  open rt use {Byte, Writer, Reader, uint32}

  unfoldable pub encode : GetThumbnailRequest → Option Writer → Writer
  encode m writer =
      or_create rt writer
      ▸ own (λ v w. w ▸ uint32 10 ▸ rt.string v) m.path
      ▸ own (λ v w. w ▸ uint32 16 ▸ rt.int32 v) m.size

  -- the switch of `decode`
  unfoldable pub decode_field : ℕ → GetThumbnailRequest → Parser Reader GetThumbnailRequest
  decode_field tag m =
      if tag / 8 == 1
      then (do v ← rt.read_string; pure (record m { path = some v }))
      else if tag / 8 == 2
      then (do v ← rt.read_int32; pure (record m { size = some v }))
      else skip_field rt tag m

  abbrev pub decode :
      Source Reader Byte → Option ℕ → Option ℕ → Outcome (GetThumbnailRequest × Reader)
  decode = decode_with rt decode_field empty

-- The numbers fit their fields.
pub record IsValid (m : GetThumbnailRequest) : Type 0 where
  pub size : Given IsInt32 m.size

module _ (rt : Runtime) (laws : Laws rt) where
  -- What `encode` writes, `decode` reads back from a new message.
  pub encode-Carries :
      (m : GetThumbnailRequest)
      → IsValid m
      → Carries rt laws (λ w. encode rt m (some w)) (decode_field rt) empty m
  unfolding encode decode_field or_create
  encode-Carries m v =
      let m1 : GetThumbnailRequest = record empty { path = m.path } in
      string-Carries 10 (omega arith) (λ x. record empty { path = x }) m.path refl
      ⨟ int32-Carries 16 (omega arith) (λ x. record m1 { size = x }) m.size refl v.size

module _ (rt : Runtime) (progress : Progress rt) where
  pub decode_field-Moves : (tag : ℕ) (m : GetThumbnailRequest) → Moves rt 0 (decode_field rt tag m)
  unfolding decode_field
  decode_field-Moves tag m =
      Moves-put _ progress.moves-string
      ⟨ tag / 8 == 1 ⟩ Moves-put _ progress.moves-int32
      ⟨ tag / 8 == 2 ⟩ Moves-skip_field rt progress tag m

  pub decode-Moves : Moves rt 0 (sub_message rt (decode rt))
  decode-Moves = Moves-sub_message rt progress (decode_field rt) decode_field-Moves empty
