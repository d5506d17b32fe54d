-- ===== src/Ipc/MetadataResponse.antt =====
-- `MetadataResponse` of internal/ipc/gen/ipc_generated.js (bundled in internal/quickshell/services/qml_ipc.mjs): the
-- message, `encode` and `decode`, and the lemmas from which its
-- round trip is put together.
use tilbo.Prelude.{ℕ, ◌/◌, String, refl, Option, none, some, [], arith, ◌==◌, if◌then◌else◌, ◌▸◌}
use tilbo.Runtime.{Outcome, Parser, ◌>>=◌, pure, Runtime, Source}
use tilbo.Runtime.Laws.{Laws, Progress, Moves}
use tilbo.Codec.{
  Entries, put_key, own, each, or_create, skip_field, read_entry, write_entry, decode_with,
  sub_message,
}
use tilbo.Codec.Carries.{Distinct, Carries}
use tilbo.Codec.Parts.{◌⨟◌, Carries-entries}
use tilbo.Codec.Scalars.{string-Carries}
use tilbo.Codec.Ends.{◌⟨◌⟩◌, Moves-put, Moves-skip_field, Moves-sub_message, Moves-read_entry}

pub record MetadataResponse : Type 0 where
  pub path : Option String
  pub metadata : Entries
  pub sources : Entries

-- `new MetadataResponse()`: every property has the default of the prototype.
abbrev pub empty : MetadataResponse
empty = record { path = none; metadata = []; sources = [] }

module _ (rt : Runtime) where
  open rt use {Byte, Writer, Reader, uint32}

  unfoldable pub encode : MetadataResponse → Option Writer → Writer
  encode m writer =
      or_create rt writer
      ▸ own (λ v w. w ▸ uint32 10 ▸ rt.string v) m.path
      ▸ each (λ e w. w ▸ uint32 18 ▸ write_entry rt e) m.metadata
      ▸ each (λ e w. w ▸ uint32 26 ▸ write_entry rt e) m.sources

  -- the switch of `decode`
  unfoldable pub decode_field : ℕ → MetadataResponse → Parser Reader MetadataResponse
  decode_field tag m =
      if tag / 8 == 1
      then (do v ← rt.read_string; pure (record m { path = some v }))
      else if tag / 8 == 2
      then (do e ← read_entry rt; pure (record m { metadata = put_key e.0 e.1 m.metadata }))
      else if tag / 8 == 3
      then (do e ← read_entry rt; pure (record m { sources = put_key e.0 e.1 m.sources }))
      else skip_field rt tag m

  abbrev pub decode : Source Reader Byte → Option ℕ → Option ℕ → Outcome (MetadataResponse × Reader)
  decode = decode_with rt decode_field empty

-- The keys of a map are distinct.
pub record IsValid (m : MetadataResponse) : Type 0 where
  pub metadata : Distinct m.metadata
  pub sources : Distinct m.sources

module _ (rt : Runtime) (laws : Laws rt) where
  -- What `encode` writes, `decode` reads back from a new message.
  pub encode-Carries :
      (m : MetadataResponse)
      → IsValid m
      → Carries rt laws (λ w. encode rt m (some w)) (decode_field rt) empty m
  unfolding encode decode_field or_create
  encode-Carries m v =
      let m1 : MetadataResponse = record empty { path = m.path } in
      let m2 : MetadataResponse = record m1 { metadata = m.metadata } in
      string-Carries 10 (omega arith) (λ x. record empty { path = x }) m.path refl
      ⨟ Carries-entries rt laws (decode_field rt) 18 (omega arith) (λ x. record m1 { metadata = x })
          m.metadata (λ _. refl) v.metadata
      ⨟ Carries-entries rt laws (decode_field rt) 26 (omega arith) (λ x. record m2 { sources = x })
          m.sources (λ _. refl) v.sources

module _ (rt : Runtime) (progress : Progress rt) where
  pub decode_field-Moves : (tag : ℕ) (m : MetadataResponse) → Moves rt 0 (decode_field rt tag m)
  unfolding decode_field
  decode_field-Moves tag m =
      Moves-put _ progress.moves-string
      ⟨ tag / 8 == 1 ⟩ Moves-put _ (Moves-read_entry rt progress)
      ⟨ tag / 8 == 2 ⟩ Moves-put _ (Moves-read_entry rt progress)
      ⟨ tag / 8 == 3 ⟩ Moves-skip_field rt progress tag m

  pub decode-Moves : Moves rt 0 (sub_message rt (decode rt))
  decode-Moves = Moves-sub_message rt progress (decode_field rt) decode_field-Moves empty
