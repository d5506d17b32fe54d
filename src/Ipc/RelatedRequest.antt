-- ===== src/Ipc/RelatedRequest.antt =====
-- `RelatedRequest` of internal/ipc/gen/ipc_generated.js (bundled in internal/quickshell/services/qml_ipc.mjs): the
-- message, `encode` and `decode`, and the lemmas from which its
-- round trip is put together.
use tilbo.Prelude.{ℕ, ◌/◌, String, refl, Option, none, some, arith, ◌==◌, if◌then◌else◌, ◌▸◌, Given}
use tilbo.Runtime.{Outcome, Parser, ◌>>=◌, pure, Double, Runtime, Source}
use tilbo.Runtime.Laws.{Laws, Progress, Moves, IsU32}
use tilbo.Codec.{own, or_create, skip_field, decode_with, sub_message}
use tilbo.Codec.Carries.{Carries}
use tilbo.Codec.Parts.{◌⨟◌}
use tilbo.Codec.Scalars.{string-Carries, uint32-Carries, float-Carries}
use tilbo.Codec.Ends.{◌⟨◌⟩◌, Moves-put, Moves-uint32, Moves-skip_field, Moves-sub_message}

pub record RelatedRequest : Type 0 where
  pub seed_path : Option String
  pub limit : Option ℕ
  pub max_hops : Option ℕ
  pub hop_weight : Option Double
  pub vec_weight : Option Double

-- `new RelatedRequest()`: every property has the default of the prototype.
abbrev pub empty : RelatedRequest
empty = record {
  seed_path = none;
  limit = none;
  max_hops = none;
  hop_weight = none;
  vec_weight = none;
}

module _ (rt : Runtime) where
  open rt use {Byte, Writer, Reader, uint32}

  unfoldable pub encode : RelatedRequest → Option Writer → Writer
  encode m writer =
      or_create rt writer
      ▸ own (λ v w. w ▸ uint32 10 ▸ rt.string v) m.seed_path
      ▸ own (λ v w. w ▸ uint32 16 ▸ rt.uint32 v) m.limit
      ▸ own (λ v w. w ▸ uint32 24 ▸ rt.uint32 v) m.max_hops
      ▸ own (λ v w. w ▸ uint32 37 ▸ rt.float v) m.hop_weight
      ▸ own (λ v w. w ▸ uint32 45 ▸ rt.float v) m.vec_weight

  -- the switch of `decode`
  unfoldable pub decode_field : ℕ → RelatedRequest → Parser Reader RelatedRequest
  decode_field tag m =
      if tag / 8 == 1
      then (do v ← rt.read_string; pure (record m { seed_path = some v }))
      else if tag / 8 == 2
      then (do v ← rt.read_uint32; pure (record m { limit = some v }))
      else if tag / 8 == 3
      then (do v ← rt.read_uint32; pure (record m { max_hops = some v }))
      else if tag / 8 == 4
      then (do v ← rt.read_float; pure (record m { hop_weight = some v }))
      else if tag / 8 == 5
      then (do v ← rt.read_float; pure (record m { vec_weight = some v }))
      else skip_field rt tag m

  abbrev pub decode : Source Reader Byte → Option ℕ → Option ℕ → Outcome (RelatedRequest × Reader)
  decode = decode_with rt decode_field empty

-- The numbers fit their fields.
pub record IsValid {rt : Runtime} (laws : Laws rt) (m : RelatedRequest) : Type 0 where
  pub limit : Given IsU32 m.limit
  pub max_hops : Given IsU32 m.max_hops
  pub hop_weight : Given laws.IsFloat m.hop_weight
  pub vec_weight : Given laws.IsFloat m.vec_weight

module _ (rt : Runtime) (laws : Laws rt) where
  -- What `encode` writes, `decode` reads back from a new message.
  pub encode-Carries :
      (m : RelatedRequest)
      → IsValid laws m
      → Carries rt laws (λ w. encode rt m (some w)) (decode_field rt) empty m
  unfolding encode decode_field or_create
  encode-Carries m v =
      let m1 : RelatedRequest = record empty { seed_path = m.seed_path } in
      let m2 : RelatedRequest = record m1 { limit = m.limit } in
      let m3 : RelatedRequest = record m2 { max_hops = m.max_hops } in
      let m4 : RelatedRequest = record m3 { hop_weight = m.hop_weight } in
      string-Carries 10 (omega arith) (λ x. record empty { seed_path = x }) m.seed_path refl
      ⨟ uint32-Carries 16 (omega arith) (λ x. record m1 { limit = x }) m.limit refl v.limit
      ⨟ uint32-Carries 24 (omega arith) (λ x. record m2 { max_hops = x }) m.max_hops refl v.max_hops
      ⨟ float-Carries 37 (omega arith) (λ x. record m3 { hop_weight = x }) m.hop_weight refl
          v.hop_weight
      ⨟ float-Carries 45 (omega arith) (λ x. record m4 { vec_weight = x }) m.vec_weight refl
          v.vec_weight

module _ (rt : Runtime) (progress : Progress rt) where
  pub decode_field-Moves : (tag : ℕ) (m : RelatedRequest) → Moves rt 0 (decode_field rt tag m)
  unfolding decode_field
  decode_field-Moves tag m =
      Moves-put _ progress.moves-string
      ⟨ tag / 8 == 1 ⟩ Moves-put _ (Moves-uint32 rt progress)
      ⟨ tag / 8 == 2 ⟩ Moves-put _ (Moves-uint32 rt progress)
      ⟨ tag / 8 == 3 ⟩ Moves-put _ progress.moves-float
      ⟨ tag / 8 == 4 ⟩ Moves-put _ progress.moves-float
      ⟨ tag / 8 == 5 ⟩ Moves-skip_field rt progress tag m

  pub decode-Moves : Moves rt 0 (sub_message rt (decode rt))
  decode-Moves = Moves-sub_message rt progress (decode_field rt) decode_field-Moves empty
