-- ===== src/Ipc/ScoredFile.antt =====
-- `ScoredFile` of internal/ipc/gen/ipc_generated.js (bundled in internal/quickshell/services/qml_ipc.mjs): the
-- message, `encode` and `decode`, and the lemmas from which its
-- round trip is put together.
use tilbo.Prelude.{ℕ, ◌/◌, refl, Option, none, some, arith, ◌==◌, if◌then◌else◌, ◌▸◌, Given}
use tilbo.Runtime.{Outcome, Parser, ◌>>=◌, pure, Double, Runtime, Source}
use tilbo.Runtime.Laws.{Laws, Progress, Moves, IsU32}
use tilbo.Codec.{own, or_create, skip_field, decode_with, sub_message}
use tilbo.Codec.Carries.{Carries}
use tilbo.Codec.Parts.{◌⨟◌}
use tilbo.Codec.Scalars.{Given-map, uint32-Carries, double-Carries, message-Carries}
use tilbo.Codec.Ends.{◌⟨◌⟩◌, Moves-put, Moves-uint32, Moves-skip_field, Moves-sub_message}
use tilbo.Ipc.FileResult
use tilbo.Ipc.FileResult.{FileResult}

pub record ScoredFile : Type 0 where
  pub file : Option FileResult
  pub score : Option Double
  pub hop_distance : Option ℕ
  pub cosine_sim : Option Double

-- `new ScoredFile()`: every property has the default of the prototype.
abbrev pub empty : ScoredFile
empty = record { file = none; score = none; hop_distance = none; cosine_sim = none }

module _ (rt : Runtime) where
  open rt use {Byte, Writer, Reader, uint32}

  unfoldable pub encode : ScoredFile → Option Writer → Writer
  encode m writer =
      or_create rt writer
      ▸ own (λ v w. FileResult.encode rt v (some (w ▸ uint32 10 ▸ rt.fork)) ▸ rt.ldelim) m.file
      ▸ own (λ v w. w ▸ uint32 17 ▸ rt.double v) m.score
      ▸ own (λ v w. w ▸ uint32 24 ▸ rt.uint32 v) m.hop_distance
      ▸ own (λ v w. w ▸ uint32 33 ▸ rt.double v) m.cosine_sim

  -- the switch of `decode`
  unfoldable pub decode_field : ℕ → ScoredFile → Parser Reader ScoredFile
  decode_field tag m =
      if tag / 8 == 1
      then (do v ← sub_message rt (FileResult.decode rt); pure (record m { file = some v }))
      else if tag / 8 == 2
      then (do v ← rt.read_double; pure (record m { score = some v }))
      else if tag / 8 == 3
      then (do v ← rt.read_uint32; pure (record m { hop_distance = some v }))
      else if tag / 8 == 4
      then (do v ← rt.read_double; pure (record m { cosine_sim = some v }))
      else skip_field rt tag m

  abbrev pub decode : Source Reader Byte → Option ℕ → Option ℕ → Outcome (ScoredFile × Reader)
  decode = decode_with rt decode_field empty

-- The numbers fit their fields and the nested messages are valid.
pub record IsValid {rt : Runtime} (laws : Laws rt) (m : ScoredFile) : Type 0 where
  pub file : Given (λ x. FileResult.IsValid laws x) m.file
  pub score : Given laws.IsDouble m.score
  pub hop_distance : Given IsU32 m.hop_distance
  pub cosine_sim : Given laws.IsDouble m.cosine_sim

module _ (rt : Runtime) (laws : Laws rt) where
  -- What `encode` writes, `decode` reads back from a new message.
  pub encode-Carries :
      (m : ScoredFile)
      → IsValid laws m
      → Carries rt laws (λ w. encode rt m (some w)) (decode_field rt) empty m
  unfolding encode decode_field or_create
  encode-Carries m v =
      let m1 : ScoredFile = record empty { file = m.file } in
      let m2 : ScoredFile = record m1 { score = m.score } in
      let m3 : ScoredFile = record m2 { hop_distance = m.hop_distance } in
      message-Carries 10 (omega arith) _ _ (FileResult.encode rt) (λ x. record empty { file = x })
        m.file refl (Given-map (FileResult.encode-Carries rt laws) m.file v.file)
      ⨟ double-Carries 17 (omega arith) (λ x. record m1 { score = x }) m.score refl v.score
      ⨟ uint32-Carries 24 (omega arith) (λ x. record m2 { hop_distance = x }) m.hop_distance refl
          v.hop_distance
      ⨟ double-Carries 33 (omega arith) (λ x. record m3 { cosine_sim = x }) m.cosine_sim refl
          v.cosine_sim

module _ (rt : Runtime) (progress : Progress rt) where
  pub decode_field-Moves : (tag : ℕ) (m : ScoredFile) → Moves rt 0 (decode_field rt tag m)
  unfolding decode_field
  decode_field-Moves tag m =
      Moves-put _ (FileResult.decode-Moves rt progress)
      ⟨ tag / 8 == 1 ⟩ Moves-put _ progress.moves-double
      ⟨ tag / 8 == 2 ⟩ Moves-put _ (Moves-uint32 rt progress)
      ⟨ tag / 8 == 3 ⟩ Moves-put _ progress.moves-double
      ⟨ tag / 8 == 4 ⟩ Moves-skip_field rt progress tag m

  pub decode-Moves : Moves rt 0 (sub_message rt (decode rt))
  decode-Moves = Moves-sub_message rt progress (decode_field rt) decode_field-Moves empty
