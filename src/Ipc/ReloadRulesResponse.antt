-- ===== src/Ipc/ReloadRulesResponse.antt =====
-- `ReloadRulesResponse` of internal/ipc/gen/ipc_generated.js (bundled in internal/quickshell/services/qml_ipc.mjs): the
-- message, `encode` and `decode`, and the lemmas from which its
-- round trip is put together.
use mathlib.Core.List.{◌++◌}
use tilbo.Prelude.{
  ℕ, ◌/◌, String, refl, Option, none, some, List, [], ◌∷◌, arith, ◌==◌, if◌then◌else◌, ◌▸◌, Given,
}
use tilbo.Runtime.{Outcome, Parser, ◌>>=◌, pure, Runtime, Source}
use tilbo.Runtime.Laws.{Laws, Progress, Moves, IsU32}
use tilbo.Codec.{own, each, or_create, skip_field, decode_with, sub_message}
use tilbo.Codec.Carries.{Carries}
use tilbo.Codec.Parts.{◌⨟◌}
use tilbo.Codec.Scalars.{uint32-Carries, strings-Carries}
use tilbo.Codec.Ends.{◌⟨◌⟩◌, Moves-put, Moves-uint32, Moves-skip_field, Moves-sub_message}

pub record ReloadRulesResponse : Type 0 where
  pub rules_loaded : Option ℕ
  pub errors : List String

-- `new ReloadRulesResponse()`: every property has the default of the prototype.
abbrev pub empty : ReloadRulesResponse
empty = record { rules_loaded = none; errors = [] }

module _ (rt : Runtime) where
  open rt use {Byte, Writer, Reader, uint32}

  unfoldable pub encode : ReloadRulesResponse → Option Writer → Writer
  encode m writer =
      or_create rt writer
      ▸ own (λ v w. w ▸ uint32 8 ▸ rt.uint32 v) m.rules_loaded
      ▸ each (λ v w. w ▸ uint32 18 ▸ rt.string v) m.errors

  -- the switch of `decode`
  unfoldable pub decode_field : ℕ → ReloadRulesResponse → Parser Reader ReloadRulesResponse
  decode_field tag m =
      if tag / 8 == 1
      then (do v ← rt.read_uint32; pure (record m { rules_loaded = some v }))
      else if tag / 8 == 2
      then (do v ← rt.read_string; pure (record m { errors = m.errors ++ v ∷ [] }))
      else skip_field rt tag m

  abbrev pub decode :
      Source Reader Byte → Option ℕ → Option ℕ → Outcome (ReloadRulesResponse × Reader)
  decode = decode_with rt decode_field empty

-- The numbers fit their fields.
pub record IsValid (m : ReloadRulesResponse) : Type 0 where
  pub rules_loaded : Given IsU32 m.rules_loaded

module _ (rt : Runtime) (laws : Laws rt) where
  -- What `encode` writes, `decode` reads back from a new message.
  pub encode-Carries :
      (m : ReloadRulesResponse)
      → IsValid m
      → Carries rt laws (λ w. encode rt m (some w)) (decode_field rt) empty m
  unfolding encode decode_field or_create
  encode-Carries m v =
      let m1 : ReloadRulesResponse = record empty { rules_loaded = m.rules_loaded } in
      uint32-Carries 8 (omega arith) (λ x. record empty { rules_loaded = x }) m.rules_loaded refl
        v.rules_loaded
      ⨟ strings-Carries 18 (omega arith) (λ x. record m1 { errors = x }) m.errors (λ _. refl)

module _ (rt : Runtime) (progress : Progress rt) where
  pub decode_field-Moves : (tag : ℕ) (m : ReloadRulesResponse) → Moves rt 0 (decode_field rt tag m)
  unfolding decode_field
  decode_field-Moves tag m =
      Moves-put _ (Moves-uint32 rt progress)
      ⟨ tag / 8 == 1 ⟩ Moves-put _ progress.moves-string
      ⟨ tag / 8 == 2 ⟩ Moves-skip_field rt progress tag m

  pub decode-Moves : Moves rt 0 (sub_message rt (decode rt))
  decode-Moves = Moves-sub_message rt progress (decode_field rt) decode_field-Moves empty
