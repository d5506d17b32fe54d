-- ===== src/Wire/Delimited.antt =====
-- `encodeDelimited` and `decodeDelimited` of Envelope, internal/ipc/gen/ipc_generated.js.
use tilbo.Prelude.{◌^◌, ◌<◌, ◌≡◌, sym, ap, ◌∙◌, none, some, [], ◌++◌, length}
use tilbo.Runtime.{done, Runtime, buffer}
use tilbo.Runtime.Laws.{Laws, Chunks, close}
use tilbo.Codec.{or_create}
use tilbo.Codec.Messages.{decode-encode_delimited, finish-encode}
use tilbo.Ipc.Envelope
use tilbo.Ipc.Envelope.{Envelope}

module _ (rt : Runtime) (laws : Laws rt) where
  open rt use {finish, Reader, Writer}
  open laws use {rest, of_uint32, written}

  -- What `encodeDelimited` leaves in a new writer `decodeDelimited` reads back to the same envelope,
  -- and no byte is left, under the conditions of the plain round trip.
  pub envelope_delimited_round_trip :
      (m : Envelope)
      → Envelope.IsValid laws m
      → length (finish (Envelope.encode_delimited rt m none)) < 2 ^ 32
      → (r : Reader) × (Envelope.decode_delimited rt
            (buffer (finish (Envelope.encode_delimited rt m none)))
          ≡ done (m, r))
        × (rest r ≡ [])
  unfolding Envelope.encode_delimited Envelope.decode_delimited Envelope.encode or_create
  envelope_delimited_round_trip m v =
      decode-encode_delimited rt laws (Envelope.decode_field rt) Envelope.empty m
        (Envelope.encode rt) (Envelope.encode-Carries rt laws m v)

  -- `encodeDelimited` into a writer that has no open fork and holds bytes already: the length goes
  -- before those bytes and counts them, so that they become part of the delimited message.
  pub envelope_delimited_encloses :
      (m : Envelope) (w : Writer)
      → Envelope.IsValid laws m
      → (written w).below ≡ []
      → finish (Envelope.encode_delimited rt m (some w))
        ≡ of_uint32 (length (finish w ++ finish (Envelope.encode rt m none)))
          ++ (finish w ++ finish (Envelope.encode rt m none))
  unfolding Envelope.encode_delimited Envelope.encode or_create
  envelope_delimited_encloses m w v unforked =
      let c = Envelope.encode-Carries rt laws m v in
      let e =
        finish-encode rt laws (Envelope.decode_field rt) Envelope.empty m (Envelope.encode rt)
          c.bytes c.writes in
      laws.finish-written _
      ∙ ap (λ (k : Chunks rt.Byte). k.top)
          (laws.written-ldelim _
            ∙ ap (λ (k : Chunks rt.Byte). close of_uint32 k.top k.below) (c.writes w)
            ∙ ap (λ l. close of_uint32 ((written w).top ++ c.bytes) l) unforked)
      ∙ ap (λ l. of_uint32 (length (l ++ c.bytes)) ++ (l ++ c.bytes)) (sym (laws.finish-written w))
      ∙ ap (λ l. of_uint32 (length (finish w ++ l)) ++ (finish w ++ l)) (sym e)
