-- ===== src/Codec/Messages.antt =====
-- Whole messages: as the value of a field, by themselves, with a field behind them that is passed
-- over, in a longer buffer, and length-delimited.
use mathlib.Core.Path.{subst}
use tilbo.Prelude.{
  ℕ, suc, ◌+◌, ◌-◌, ◌^◌, ◌<◌, ◌≡◌, refl, sym, ap, ◌∙◌, Option, none, some, List, [], ◌++◌,
  append-nil, length, arith,
}
use tilbo.Runtime.{done, Parser, Runtime, reader, buffer}
use tilbo.Runtime.Laws.{Laws, Chunks, append, close, Advanced, Reads, IsU32}
use tilbo.Codec.{decode_with, decode_from, sub_message, read_fields, wrap_source}
use tilbo.Codec.Fields.{Steps, Steps-append, Steps-field, Steps-read}
use tilbo.Codec.Carries.{Coded, Carries, Writes, Writes-ldelim, Reads-delimited}

module _ (rt : Runtime) (laws : Laws rt) where
  open rt use {Byte, Writer, create, fork, ldelim, finish, Reader, pos, len}
  open laws use {rest, of_uint32, written-create, finish-written, create_at, new_at}

  module _ {M : Type 0} (step : ℕ → M → Parser Reader M) where
    module _ (empty : M) where
      decode-buffer :
          (bs : List Byte) (r : Reader)
          → rt.create_reader bs ≡ done r
          → decode_with rt step empty (buffer bs) none none
            ≡ read_fields rt step none (len r) (suc (len r - pos r)) empty r
      unfolding decode_with decode_from
      decode-buffer bs r e = rw (e, decode_with) refl

      pub decode-Steps :
          (m : M) (bs : List Byte)
          → Steps rt laws step empty bs m
          → length bs < 2 ^ 32
          → (r : Reader) × (decode_with rt step empty (buffer bs) none none ≡ done (m, r))
            × (rest r ≡ [])
      decode-Steps m bs s short =
          let (r, er, at_start, zero_pos, all) = create_at bs in
          let the_end : pos r + length bs ≡ len r = omega arith in
          let (r', run, adv) =
            Steps-read rt laws step empty m bs s (suc (len r - pos r)) (omega arith) short r []
              (at_start ∙ sym (append-nil bs)) in
          (r', decode-buffer bs r er ∙ (rw the_end at run), adv.left)

    module _ (empty m : M) (encode : M → Option Writer → Writer) where
      -- A message as the value of a field: in a fork, behind its length.
      pub Coded-message :
          Carries rt laws (λ w. encode m (some w)) step empty m
          → Coded rt laws
              (λ x w. ldelim (encode x (some (fork w))))
              (sub_message rt (decode_with rt step empty))
              m
      unfolding sub_message decode_with decode_from
      Coded-message c = (
        of_uint32 (length c.bytes) ++ c.bytes,
        Writes-ldelim rt laws (λ w. encode m (some w)) c.bytes c.writes,
        Reads-delimited rt laws (λ n r. read_fields rt step none (pos r + n) (suc n) empty r)
            c.bytes m
            (Steps-read rt laws step empty m c.bytes c.steps (suc (length c.bytes)) (omega arith)),
      )

      -- What `finish` returns after `encode`.
      pub finish-encode :
          (bs : List Byte)
          → Writes rt laws (λ w. encode m (some w)) bs
          → finish (encode m (some create)) ≡ bs
      finish-encode bs p =
          finish-written (encode m (some create))
          ∙ ap (λ (c : Chunks Byte). c.top) (p create ∙ ap (append bs) written-create)

      -- A message by itself: `decode` of the finished buffer gives it back and leaves nothing.
      pub decode-encode :
          Carries rt laws (λ w. encode m (some w)) step empty m
          → length (finish (encode m (some create))) < 2 ^ 32
          → (r : Reader) × (decode_with rt step empty
                (buffer (finish (encode m (some create))))
                none
                none
              ≡ done (m, r))
            × (rest r ≡ [])
      decode-encode c short =
          subst
            (λ b.
              (r : Reader) × (decode_with rt step empty (buffer b) none none ≡ done (m, r))
              × (rest r ≡ []))
            (sym (finish-encode c.bytes c.writes))
            (decode-Steps empty m c.bytes c.steps (rw (finish-encode c.bytes c.writes) at short))

      -- The same with a field behind the message that the switch of `decode` passes over.
      pub decode-encode_skip :
          (tag : ℕ) (payload : List Byte)
          → IsU32 tag
          → Carries rt laws (λ w. encode m (some w)) step empty m
          → Reads rt rest (step tag m) payload m
          → length (finish (encode m (some create)) ++ (of_uint32 tag ++ payload)) < 2 ^ 32
          → (r : Reader) × (decode_with rt step empty
                (buffer (finish (encode m (some create)) ++ (of_uint32 tag ++ payload)))
                none
                none
              ≡ done (m, r))
            × (rest r ≡ [])
      decode-encode_skip tag payload ht c skipped short =
          subst
            (λ b.
              (r : Reader) × (decode_with rt step empty (buffer (b ++ (of_uint32 tag ++ payload)))
                  none none
                ≡ done (m, r))
              × (rest r ≡ []))
            (sym (finish-encode c.bytes c.writes))
            (decode-Steps empty m (c.bytes ++ (of_uint32 tag ++ payload))
              (Steps-append rt laws step empty m m c.bytes (of_uint32 tag ++ payload) c.steps
                (Steps-field rt laws step tag m m payload ht skipped))
              (rw (finish-encode c.bytes c.writes) at short))

      -- A message in a longer buffer: `decode` with its length leaves what follows.
      pub decode_reader-encode :
          Carries rt laws (λ w. encode m (some w)) step empty m
          → length (finish (encode m (some create))) < 2 ^ 32
          → (r : Reader) (t : List Byte) → rest r ≡ finish (encode m (some create)) ++ t
          → (r' : Reader) × (decode_with rt step empty
                (reader r)
                (some (length (finish (encode m (some create)))))
                none
              ≡ done (m, r'))
            × Advanced rt rest (finish (encode m (some create))) t r r'
      unfolding decode_with decode_from
      decode_reader-encode c short r t =
          let e = finish-encode c.bytes c.writes in
          subst
            (λ b.
              rest r ≡ b ++ t
              → (r' : Reader) × (read_fields rt step none (pos r + length b) (suc (length b)) empty
                    r
                  ≡ done (m, r'))
                × Advanced rt rest b t r r')
            (sym e)
            (Steps-read rt laws step empty m c.bytes c.steps (suc (length c.bytes)) (omega arith)
              (rw e at short) r t)

      -- `encodeDelimited` with a new writer, and `decodeDelimited` of the finished buffer.
      pub decode-encode_delimited :
          Carries rt laws (λ w. encode m (some w)) step empty m
          → length (finish (ldelim (encode m (some create)))) < 2 ^ 32
          → (r : Reader) × (sub_message rt
                (decode_with rt step empty)
                (wrap_source rt (buffer (finish (ldelim (encode m (some create))))))
              ≡ done (m, r))
            × (rest r ≡ [])
      unfolding wrap_source sub_message decode_with decode_from
      decode-encode_delimited c short =
          let all = of_uint32 (length c.bytes) ++ c.bytes in
          let e : finish (ldelim (encode m (some create))) ≡ all =
            finish-written (ldelim (encode m (some create)))
            ∙ ap (λ (c : Chunks Byte). c.top)
                (laws.written-ldelim (encode m (some create))
                  ∙ ap (λ (c : Chunks Byte). close of_uint32 c.top c.below)
                      (c.writes create ∙ ap (append c.bytes) written-create)) in
          let (r, run, adv) =
            Reads-delimited rt laws (λ n r. read_fields rt step none (pos r + n) (suc n) empty r)
              c.bytes m
              (Steps-read rt laws step empty m c.bytes c.steps (suc (length c.bytes)) (omega arith))
              (rw e at short) (rt.new_reader all) [] ((new_at all).0 ∙ sym (append-nil all)) in
          (r, rw e run, adv.left)
