-- ===== src/Ipc/IndexUpdatedEvent.antt =====
-- `IndexUpdatedEvent` of internal/ipc/gen/ipc_generated.js (bundled in internal/quickshell/services/qml_ipc.mjs): the
-- message, `encode` and `decode`, and the lemmas from which its
-- round trip is put together.
use tilbo.Prelude.{ℕ, ◌/◌, refl, Option, none, some, arith, ◌==◌, if◌then◌else◌, ◌▸◌, Given}
use tilbo.Runtime.{Outcome, Parser, ◌>>=◌, pure, Runtime, Source}
use tilbo.Runtime.Laws.{Laws, Progress, Moves, IsSafe}
use tilbo.Codec.{own, or_create, skip_field, decode_with, sub_message}
use tilbo.Codec.Carries.{Carries}
use tilbo.Codec.Parts.{◌⨟◌}
use tilbo.Codec.Scalars.{uint64-Carries}
use tilbo.Codec.Ends.{◌⟨◌⟩◌, Moves-put, Moves-skip_field, Moves-sub_message}

pub record IndexUpdatedEvent : Type 0 where
  pub files_total : Option ℕ
  pub tags_total : Option ℕ

-- `new IndexUpdatedEvent()`: every property has the default of the prototype.
abbrev pub empty : IndexUpdatedEvent
empty = record { files_total = none; tags_total = none }

module _ (rt : Runtime) where
  open rt use {Byte, Writer, Reader, uint32}

  unfoldable pub encode : IndexUpdatedEvent → Option Writer → Writer
  encode m writer =
      or_create rt writer
      ▸ own (λ v w. w ▸ uint32 8 ▸ rt.uint64 v) m.files_total
      ▸ own (λ v w. w ▸ uint32 16 ▸ rt.uint64 v) m.tags_total

  -- the switch of `decode`
  unfoldable pub decode_field : ℕ → IndexUpdatedEvent → Parser Reader IndexUpdatedEvent
  decode_field tag m =
      if tag / 8 == 1
      then (do v ← rt.read_uint64; pure (record m { files_total = some v }))
      else if tag / 8 == 2
      then (do v ← rt.read_uint64; pure (record m { tags_total = some v }))
      else skip_field rt tag m

  abbrev pub decode :
      Source Reader Byte → Option ℕ → Option ℕ → Outcome (IndexUpdatedEvent × Reader)
  decode = decode_with rt decode_field empty

-- The numbers fit their fields.
pub record IsValid (m : IndexUpdatedEvent) : Type 0 where
  pub files_total : Given IsSafe m.files_total
  pub tags_total : Given IsSafe m.tags_total

module _ (rt : Runtime) (laws : Laws rt) where
  -- What `encode` writes, `decode` reads back from a new message.
  pub encode-Carries :
      (m : IndexUpdatedEvent)
      → IsValid m
      → Carries rt laws (λ w. encode rt m (some w)) (decode_field rt) empty m
  unfolding encode decode_field or_create
  encode-Carries m v =
      let m1 : IndexUpdatedEvent = record empty { files_total = m.files_total } in
      uint64-Carries 8 (omega arith) (λ x. record empty { files_total = x }) m.files_total refl
        v.files_total
      ⨟ uint64-Carries 16 (omega arith) (λ x. record m1 { tags_total = x }) m.tags_total refl
          v.tags_total

module _ (rt : Runtime) (progress : Progress rt) where
  pub decode_field-Moves : (tag : ℕ) (m : IndexUpdatedEvent) → Moves rt 0 (decode_field rt tag m)
  unfolding decode_field
  decode_field-Moves tag m =
      Moves-put _ progress.moves-uint64
      ⟨ tag / 8 == 1 ⟩ Moves-put _ progress.moves-uint64
      ⟨ tag / 8 == 2 ⟩ Moves-skip_field rt progress tag m

  pub decode-Moves : Moves rt 0 (sub_message rt (decode rt))
  decode-Moves = Moves-sub_message rt progress (decode_field rt) decode_field-Moves empty
