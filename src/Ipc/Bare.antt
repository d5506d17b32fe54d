-- ===== src/Ipc/Bare.antt =====
-- The messages with no field, from internal/ipc/gen/ipc_generated.js. Their classes differ only in
-- name, and one type stands for all of them: StatusRequest, ReloadRulesRequest, ListPlacesRequest,
-- ListTrashRequest, EmptyTrashRequest, GetBrowserConfigRequest, ListMountsRequest,
-- ListSavedSearchesRequest and ShutdownRequest, and the responses to requests that return nothing.
use tilbo.Prelude.{ℕ, Option, some}
use tilbo.Runtime.{Outcome, Parser, Runtime, Source}
use tilbo.Runtime.Laws.{Laws, Progress, Moves}
use tilbo.Codec.{or_create, skip_field, decode_with, sub_message}
use tilbo.Codec.Carries.{Carries}
use tilbo.Codec.Parts.{Carries-nil}
use tilbo.Codec.Ends.{Moves-skip_field, Moves-sub_message}

pub data Bare : Type 0 where
  bare : Bare

abbrev pub empty : Bare
empty = bare

module _ (rt : Runtime) where
  open rt use {Byte, Writer, Reader}

  unfoldable pub encode : Bare → Option Writer → Writer
  encode m writer = or_create rt writer

  -- the switch of `decode`, which has the default case alone
  unfoldable pub decode_field : ℕ → Bare → Parser Reader Bare
  decode_field tag m = skip_field rt tag m

  abbrev pub decode : Source Reader Byte → Option ℕ → Option ℕ → Outcome (Bare × Reader)
  decode = decode_with rt decode_field empty

module _ (rt : Runtime) (laws : Laws rt) where
  -- What `encode` writes, which is nothing, `decode` reads back.
  pub encode-Carries :
      (m : Bare) → Carries rt laws (λ w. encode rt m (some w)) (decode_field rt) empty m
  unfolding encode or_create
  encode-Carries bare = Carries-nil rt laws (decode_field rt) bare

module _ (rt : Runtime) (progress : Progress rt) where
  pub decode_field-Moves : (tag : ℕ) (m : Bare) → Moves rt 0 (decode_field rt tag m)
  unfolding decode_field
  decode_field-Moves tag m = Moves-skip_field rt progress tag m

  pub decode-Moves : Moves rt 0 (sub_message rt (decode rt))
  decode-Moves = Moves-sub_message rt progress (decode_field rt) decode_field-Moves empty
