-- ===== src/Ipc/GetThumbnailResponse.antt =====
-- `GetThumbnailResponse` of internal/ipc/gen/ipc_generated.js (bundled in internal/quickshell/services/qml_ipc.mjs): the
-- message, `encode` and `decode`, and the lemmas from which its
-- round trip is put together.
use tilbo.Prelude.{ℕ, ◌/◌, String, refl, Option, none, some, arith, ◌==◌, if◌then◌else◌, ◌▸◌, Given}
use tilbo.Runtime.{Outcome, Parser, ◌>>=◌, pure, Runtime, Source}
use tilbo.Runtime.Laws.{Laws, Progress, Moves, IsU32}
use tilbo.Codec.{own, or_create, skip_field, decode_with, sub_message}
use tilbo.Codec.Carries.{Carries}
use tilbo.Codec.Parts.{◌⨟◌}
use tilbo.Codec.Scalars.{string-Carries, uint32-Carries}
use tilbo.Codec.Ends.{◌⟨◌⟩◌, Moves-put, Moves-uint32, Moves-skip_field, Moves-sub_message}

pub record GetThumbnailResponse : Type 0 where
  pub thumbnail_path : Option String
  pub width : Option ℕ
  pub height : Option ℕ

-- `new GetThumbnailResponse()`: every property has the default of the prototype.
abbrev pub empty : GetThumbnailResponse
empty = record { thumbnail_path = none; width = none; height = none }

module _ (rt : Runtime) where
  open rt use {Byte, Writer, Reader, uint32}

  unfoldable pub encode : GetThumbnailResponse → Option Writer → Writer
  encode m writer =
      or_create rt writer
      ▸ own (λ v w. w ▸ uint32 10 ▸ rt.string v) m.thumbnail_path
      ▸ own (λ v w. w ▸ uint32 16 ▸ rt.uint32 v) m.width
      ▸ own (λ v w. w ▸ uint32 24 ▸ rt.uint32 v) m.height

  -- the switch of `decode`
  unfoldable pub decode_field : ℕ → GetThumbnailResponse → Parser Reader GetThumbnailResponse
  decode_field tag m =
      if tag / 8 == 1
      then (do v ← rt.read_string; pure (record m { thumbnail_path = some v }))
      else if tag / 8 == 2
      then (do v ← rt.read_uint32; pure (record m { width = some v }))
      else if tag / 8 == 3
      then (do v ← rt.read_uint32; pure (record m { height = some v }))
      else skip_field rt tag m

  abbrev pub decode :
      Source Reader Byte → Option ℕ → Option ℕ → Outcome (GetThumbnailResponse × Reader)
  decode = decode_with rt decode_field empty

-- The numbers fit their fields.
pub record IsValid (m : GetThumbnailResponse) : Type 0 where
  pub width : Given IsU32 m.width
  pub height : Given IsU32 m.height

module _ (rt : Runtime) (laws : Laws rt) where
  -- What `encode` writes, `decode` reads back from a new message.
  pub encode-Carries :
      (m : GetThumbnailResponse)
      → IsValid m
      → Carries rt laws (λ w. encode rt m (some w)) (decode_field rt) empty m
  unfolding encode decode_field or_create
  encode-Carries m v =
      let m1 : GetThumbnailResponse = record empty { thumbnail_path = m.thumbnail_path } in
      let m2 : GetThumbnailResponse = record m1 { width = m.width } in
      string-Carries 10 (omega arith) (λ x. record empty { thumbnail_path = x }) m.thumbnail_path
        refl
      ⨟ uint32-Carries 16 (omega arith) (λ x. record m1 { width = x }) m.width refl v.width
      ⨟ uint32-Carries 24 (omega arith) (λ x. record m2 { height = x }) m.height refl v.height

module _ (rt : Runtime) (progress : Progress rt) where
  pub decode_field-Moves : (tag : ℕ) (m : GetThumbnailResponse) → Moves rt 0 (decode_field rt tag m)
  unfolding decode_field
  decode_field-Moves tag m =
      Moves-put _ progress.moves-string
      ⟨ tag / 8 == 1 ⟩ Moves-put _ (Moves-uint32 rt progress)
      ⟨ tag / 8 == 2 ⟩ Moves-put _ (Moves-uint32 rt progress)
      ⟨ tag / 8 == 3 ⟩ Moves-skip_field rt progress tag m

  pub decode-Moves : Moves rt 0 (sub_message rt (decode rt))
  decode-Moves = Moves-sub_message rt progress (decode_field rt) decode_field-Moves empty
