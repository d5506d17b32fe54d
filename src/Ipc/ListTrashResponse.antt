-- ===== src/Ipc/ListTrashResponse.antt =====
-- `ListTrashResponse` of internal/ipc/gen/ipc_generated.js (bundled in internal/quickshell/services/qml_ipc.mjs): the
-- message, `encode` and `decode`, and the lemmas from which its
-- round trip is put together.
use mathlib.Core.List.{◌++◌}
use tilbo.Prelude.{ℕ, ◌/◌, refl, Option, some, List, [], ◌∷◌, arith, ◌==◌, if◌then◌else◌, ◌▸◌, All}
use tilbo.Runtime.{Outcome, Parser, ◌>>=◌, pure, Runtime, Source}
use tilbo.Runtime.Laws.{Laws, Progress, Moves}
use tilbo.Codec.{each, or_create, skip_field, decode_with, sub_message}
use tilbo.Codec.Carries.{Carries}
use tilbo.Codec.Scalars.{All-map, messages-Carries}
use tilbo.Codec.Ends.{◌⟨◌⟩◌, Moves-put, Moves-skip_field, Moves-sub_message}
use tilbo.Ipc.TrashEntry
use tilbo.Ipc.TrashEntry.{TrashEntry}

pub record ListTrashResponse : Type 0 where
  pub entries : List TrashEntry

-- `new ListTrashResponse()`: every property has the default of the prototype.
abbrev pub empty : ListTrashResponse
empty = record { entries = [] }

module _ (rt : Runtime) where
  open rt use {Byte, Writer, Reader, uint32}

  unfoldable pub encode : ListTrashResponse → Option Writer → Writer
  encode m writer =
      or_create rt writer
      ▸ each (λ v w. TrashEntry.encode rt v (some (w ▸ uint32 10 ▸ rt.fork)) ▸ rt.ldelim) m.entries

  -- the switch of `decode`
  unfoldable pub decode_field : ℕ → ListTrashResponse → Parser Reader ListTrashResponse
  decode_field tag m =
      if tag / 8 == 1
      then (do
        v ← sub_message rt (TrashEntry.decode rt)
        pure (record m { entries = m.entries ++ v ∷ [] }))
      else skip_field rt tag m

  abbrev pub decode :
      Source Reader Byte → Option ℕ → Option ℕ → Outcome (ListTrashResponse × Reader)
  decode = decode_with rt decode_field empty

-- The nested messages are valid.
pub record IsValid (m : ListTrashResponse) : Type 0 where
  pub entries : All (λ x. TrashEntry.IsValid x) m.entries

module _ (rt : Runtime) (laws : Laws rt) where
  -- What `encode` writes, `decode` reads back from a new message.
  pub encode-Carries :
      (m : ListTrashResponse)
      → IsValid m
      → Carries rt laws (λ w. encode rt m (some w)) (decode_field rt) empty m
  unfolding encode decode_field or_create
  encode-Carries m v =
      messages-Carries 10 (omega arith) _ _ (TrashEntry.encode rt)
        (λ x. record empty { entries = x }) m.entries (λ _. refl)
        (All-map (TrashEntry.encode-Carries rt laws) m.entries v.entries)

module _ (rt : Runtime) (progress : Progress rt) where
  pub decode_field-Moves : (tag : ℕ) (m : ListTrashResponse) → Moves rt 0 (decode_field rt tag m)
  unfolding decode_field
  decode_field-Moves tag m =
      Moves-put _ (TrashEntry.decode-Moves rt progress)
      ⟨ tag / 8 == 1 ⟩ Moves-skip_field rt progress tag m

  pub decode-Moves : Moves rt 0 (sub_message rt (decode rt))
  decode-Moves = Moves-sub_message rt progress (decode_field rt) decode_field-Moves empty
