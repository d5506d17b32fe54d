-- ===== src/Ipc/HydrateTagsResponse.antt =====
-- `HydrateTagsResponse` of internal/ipc/gen/ipc_generated.js (bundled in internal/quickshell/services/qml_ipc.mjs): the
-- message, `encode` and `decode`, and the lemmas from which its
-- round trip is put together.
use mathlib.Core.List.{◌++◌}
use tilbo.Prelude.{ℕ, ◌/◌, refl, Option, some, List, [], ◌∷◌, arith, ◌==◌, if◌then◌else◌, ◌▸◌}
use tilbo.Runtime.{Outcome, Parser, ◌>>=◌, pure, Runtime, Source}
use tilbo.Runtime.Laws.{Laws, Progress, Moves}
use tilbo.Codec.{each, or_create, skip_field, decode_with, sub_message}
use tilbo.Codec.Carries.{Carries}
use tilbo.Codec.Scalars.{All-intro, messages-Carries}
use tilbo.Codec.Ends.{◌⟨◌⟩◌, Moves-put, Moves-skip_field, Moves-sub_message}
use tilbo.Ipc.HydratedPathTags
use tilbo.Ipc.HydratedPathTags.{HydratedPathTags}

pub record HydrateTagsResponse : Type 0 where
  pub entries : List HydratedPathTags

-- `new HydrateTagsResponse()`: every property has the default of the prototype.
abbrev pub empty : HydrateTagsResponse
empty = record { entries = [] }

module _ (rt : Runtime) where
  open rt use {Byte, Writer, Reader, uint32}

  unfoldable pub encode : HydrateTagsResponse → Option Writer → Writer
  encode m writer =
      or_create rt writer
      ▸ each (λ v w. HydratedPathTags.encode rt v (some (w ▸ uint32 10 ▸ rt.fork)) ▸ rt.ldelim)
          m.entries

  -- the switch of `decode`
  unfoldable pub decode_field : ℕ → HydrateTagsResponse → Parser Reader HydrateTagsResponse
  decode_field tag m =
      if tag / 8 == 1
      then (do
        v ← sub_message rt (HydratedPathTags.decode rt)
        pure (record m { entries = m.entries ++ v ∷ [] }))
      else skip_field rt tag m

  abbrev pub decode :
      Source Reader Byte → Option ℕ → Option ℕ → Outcome (HydrateTagsResponse × Reader)
  decode = decode_with rt decode_field empty

module _ (rt : Runtime) (laws : Laws rt) where
  -- What `encode` writes, `decode` reads back from a new message.
  pub encode-Carries :
      (m : HydrateTagsResponse)
      → Carries rt laws (λ w. encode rt m (some w)) (decode_field rt) empty m
  unfolding encode decode_field or_create
  encode-Carries m =
      messages-Carries 10 (omega arith) _ _ (HydratedPathTags.encode rt)
        (λ x. record empty { entries = x }) m.entries (λ _. refl)
        (All-intro (HydratedPathTags.encode-Carries rt laws) m.entries)

module _ (rt : Runtime) (progress : Progress rt) where
  pub decode_field-Moves : (tag : ℕ) (m : HydrateTagsResponse) → Moves rt 0 (decode_field rt tag m)
  unfolding decode_field
  decode_field-Moves tag m =
      Moves-put _ (HydratedPathTags.decode-Moves rt progress)
      ⟨ tag / 8 == 1 ⟩ Moves-skip_field rt progress tag m

  pub decode-Moves : Moves rt 0 (sub_message rt (decode rt))
  decode-Moves = Moves-sub_message rt progress (decode_field rt) decode_field-Moves empty
