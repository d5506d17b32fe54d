-- ===== src/Wire/Total.antt =====
-- `Envelope.decode` of internal/ipc/gen/ipc_generated.js on any input, well formed or not.
use mathlib.Core.Logic.{◌≢◌}
use tilbo.Prelude.{ℕ, Option}
use tilbo.Runtime.{stuck, Runtime, Source}
use tilbo.Runtime.Laws.{Progress}
use tilbo.Codec.Ends.{decode_with-ne-stuck}
use tilbo.Ipc.Envelope
use tilbo.Ipc.Envelope.{Envelope}

module _ (rt : Runtime) (progress : Progress rt) where
  open rt use {Byte, Reader}

  -- Whatever the buffer or the reader holds, and whatever `length` and `error` are, `decode` of an
  -- envelope returns a message or throws: the loops over the fields of the envelope and of every
  -- message in it end.
  pub envelope_decode_ends :
      (source : Source Reader Byte) (length error : Option ℕ)
      → Envelope.decode rt source length error ≢ stuck
  envelope_decode_ends =
      decode_with-ne-stuck rt progress (Envelope.decode_field rt)
        (Envelope.decode_field-Moves rt progress) Envelope.empty
