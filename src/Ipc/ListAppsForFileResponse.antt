-- ===== src/Ipc/ListAppsForFileResponse.antt =====
-- `ListAppsForFileResponse` of internal/ipc/gen/ipc_generated.js (bundled in internal/quickshell/services/qml_ipc.mjs): the
-- message, `encode` and `decode`, and the lemmas from which its
-- round trip is put together.
use mathlib.Core.List.{◌++◌}
use tilbo.Prelude.{ℕ, ◌/◌, refl, Option, some, List, [], ◌∷◌, arith, ◌==◌, if◌then◌else◌, ◌▸◌}
use tilbo.Runtime.{Outcome, Parser, ◌>>=◌, pure, Runtime, Source}
use tilbo.Runtime.Laws.{Laws, Progress, Moves}
use tilbo.Codec.{each, or_create, skip_field, decode_with, sub_message}
use tilbo.Codec.Carries.{Carries}
use tilbo.Codec.Scalars.{All-intro, messages-Carries}
use tilbo.Codec.Ends.{◌⟨◌⟩◌, Moves-put, Moves-skip_field, Moves-sub_message}
use tilbo.Ipc.AppEntry
use tilbo.Ipc.AppEntry.{AppEntry}

pub record ListAppsForFileResponse : Type 0 where
  pub apps : List AppEntry

-- `new ListAppsForFileResponse()`: every property has the default of the prototype.
abbrev pub empty : ListAppsForFileResponse
empty = record { apps = [] }

module _ (rt : Runtime) where
  open rt use {Byte, Writer, Reader, uint32}

  unfoldable pub encode : ListAppsForFileResponse → Option Writer → Writer
  encode m writer =
      or_create rt writer
      ▸ each (λ v w. AppEntry.encode rt v (some (w ▸ uint32 10 ▸ rt.fork)) ▸ rt.ldelim) m.apps

  -- the switch of `decode`
  unfoldable pub decode_field : ℕ → ListAppsForFileResponse → Parser Reader ListAppsForFileResponse
  decode_field tag m =
      if tag / 8 == 1
      then (do v ← sub_message rt (AppEntry.decode rt); pure (record m { apps = m.apps ++ v ∷ [] }))
      else skip_field rt tag m

  abbrev pub decode :
      Source Reader Byte → Option ℕ → Option ℕ → Outcome (ListAppsForFileResponse × Reader)
  decode = decode_with rt decode_field empty

module _ (rt : Runtime) (laws : Laws rt) where
  -- What `encode` writes, `decode` reads back from a new message.
  pub encode-Carries :
      (m : ListAppsForFileResponse)
      → Carries rt laws (λ w. encode rt m (some w)) (decode_field rt) empty m
  unfolding encode decode_field or_create
  encode-Carries m =
      messages-Carries 10 (omega arith) _ _ (AppEntry.encode rt) (λ x. record empty { apps = x })
        m.apps (λ _. refl) (All-intro (AppEntry.encode-Carries rt laws) m.apps)

module _ (rt : Runtime) (progress : Progress rt) where
  pub decode_field-Moves :
      (tag : ℕ) (m : ListAppsForFileResponse) → Moves rt 0 (decode_field rt tag m)
  unfolding decode_field
  decode_field-Moves tag m =
      Moves-put _ (AppEntry.decode-Moves rt progress)
      ⟨ tag / 8 == 1 ⟩ Moves-skip_field rt progress tag m

  pub decode-Moves : Moves rt 0 (sub_message rt (decode rt))
  decode-Moves = Moves-sub_message rt progress (decode_field rt) decode_field-Moves empty
