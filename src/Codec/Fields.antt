-- ===== src/Codec/Fields.antt =====
-- The loop over the fields of a buffer, and reads in sequence.
use tilbo.Prelude.{
  ℕ, zero, suc, ◌+◌, ◌-◌, ◌^◌, ◌≤◌, ◌<◌, ◌≡◌, refl, ◌∙◌, true, false, none, List, [], ◌++◌, length,
  length-append, append_assoc, arith, ltb,
}
use tilbo.Runtime.{done, Parser, ◌>>=◌, Runtime}
use tilbo.Runtime.Laws.{Laws, Advanced, Reads, IsU32}
use tilbo.Codec.{read_fields, is_error}

module _ (rt : Runtime) (laws : Laws rt) where
  open rt use {Byte, Reader, pos, len, read_uint32}
  open laws use {rest, of_uint32, uint32_nonempty, reads-uint32}

  pub Advanced-trans :
      (bs cs t : List Byte) {u : List Byte} {r r' r'' : Reader}
      → Advanced rt rest bs u r r'
      → Advanced rt rest cs t r' r''
      → Advanced rt rest (bs ++ cs) t r r''
  Advanced-trans bs cs t p q = record {
    left = q.left;
    moved = omega (arith, p.moved, q.moved, length-append bs cs);
    same_len = q.same_len ∙ p.same_len;
  }

  -- A read, and then one that depends on what was read.
  pub Reads-bind :
      {A B : Type 0} (p : Parser Reader A) (f : A → Parser Reader B) (bs cs : List Byte) (a : A)
      (b : B)
      → Reads rt rest p bs a
      → Reads rt rest (f a) cs b
      → Reads rt rest (p >>= f) (bs ++ cs) b
  Reads-bind p f bs cs a b hp hf short r t e =
      let (r', ep, adv) =
        hp (omega (arith, length-append bs cs)) r (cs ++ t) (e ∙ append_assoc bs cs t) in
      let (r'', eq, adv') = hf (omega (arith, length-append bs cs)) r' t adv.left in
      (r'', rw ep eq, Advanced-trans bs cs t adv adv')

  module _ {M : Type 0} (step : ℕ → M → Parser Reader M) where
    -- From a reader in front of `bs`, with the end of the message not before the end of `bs`, the
    -- loop that holds `m` comes to hold `m'` behind `bs`, with fuel to spare.
    abbrev pub Steps : M → List Byte → M → Type 0
    Steps m bs m' =
        length bs < 2 ^ 32
        → (r : Reader) (t : List Byte) → rest r ≡ bs ++ t
        → (end : ℕ) → pos r + length bs ≤ end
        → (r' : Reader) × Advanced rt rest bs t r r'
          × ((f : ℕ)
              → end - pos r < f
              → (g : ℕ) × (end - pos r' < g)
                × (read_fields rt step none end f m r ≡ read_fields rt step none end g m' r'))

    pub Steps-nil : (m : M) → Steps m [] m
    Steps-nil m short r t e end h =
        (r, record { left = e; moved = omega arith; same_len = refl }, λ f hf. (f, hf, refl))

    pub Steps-append :
        (m m' m'' : M) (bs cs : List Byte)
        → Steps m bs m'
        → Steps m' cs m''
        → Steps m (bs ++ cs) m''
    Steps-append m m' m'' bs cs p q short r t e end h =
        let (r', adv, run) =
          p (omega (arith, length-append bs cs)) r (cs ++ t) (e ∙ append_assoc bs cs t) end
            (omega (arith, length-append bs cs)) in
        let (r'', adv', run') =
          q (omega (arith, length-append bs cs)) r' t adv.left end
            (omega (arith, length-append bs cs, adv.moved)) in
        (
          r'',
          Advanced-trans bs cs t adv adv',
          λ f hf. let (g, hg, eg) = run f hf in let (k, hk, ek) = run' g hg in (k, hk, eg ∙ ek),
        )

    ltb-true : (a b : ℕ) → a < b → ltb a b ≡ true
    ltb-true a b h = ground arith

    -- One round of the loop, on a tag and a field that are read.
    round :
        (f end tag : ℕ) (m m' : M) (r r' r'' : Reader)
        → pos r < end
        → pos r < pos r''
        → read_uint32 r ≡ done (tag, r')
        → step tag m r' ≡ done (m', r'')
        → end - pos r < f
        → (g : ℕ) × (end - pos r'' < g)
          × (read_fields rt step none end f m r ≡ read_fields rt step none end g m' r'')
    unfolding read_fields is_error
    round zero end tag m m' r r' r'' hr hs et es hf = absurd (omega arith)
    round (suc f) end tag m m' r r' r'' hr hs et es hf =
        (f, omega arith, rw (ltb-true _ _ hr, et, es) refl)

    -- A tag that is read, and a field that is read by its case, are one round.
    pub Steps-field :
        (tag : ℕ) (m m' : M) (payload : List Byte)
        → IsU32 tag
        → Reads rt rest (step tag m) payload m'
        → Steps m (of_uint32 tag ++ payload) m'
    Steps-field tag m m' payload ht hp short r t e end h =
        let (r', et, adv) =
          reads-uint32 tag ht (omega (arith, length-append (of_uint32 tag) payload)) r
            (payload ++ t) (e ∙ append_assoc (of_uint32 tag) payload t) in
        let (r'', es, adv') =
          hp (omega (arith, length-append (of_uint32 tag) payload)) r' t adv.left in
        let all = Advanced-trans (of_uint32 tag) payload t adv adv' in
        let some_byte : 0 < length (of_uint32 tag ++ payload) =
          omega (arith, length-append (of_uint32 tag) payload, uint32_nonempty tag) in
        (
          r'',
          all,
          λ f hf. round f end tag m m' r r' r'' (omega arith) (omega (arith, all.moved)) et es hf,
        )

    stop :
        (g end : ℕ) (m : M) (r : Reader)
        → end ≤ pos r
        → end - pos r < g
        → read_fields rt step none end g m r ≡ done (m, r)
    unfolding read_fields
    stop zero end m r h hg = absurd (omega arith)
    stop (suc g) end m r h hg = rw (ltb-false _ _ h) refl
      where
        ltb-false : (a b : ℕ) → b ≤ a → ltb a b ≡ false
        ltb-false a b k = ground arith

    -- A message whose length is known is read to its end.
    pub Steps-read :
        (m m' : M) (bs : List Byte)
        → Steps m bs m'
        → (f : ℕ) → length bs < f
        → Reads rt rest (λ r. read_fields rt step none (pos r + length bs) f m r) bs m'
    Steps-read m m' bs p f hf short r t e =
        let (r', adv, run) = p short r t e (pos r + length bs) (omega arith) in
        let (g, hg, eg) = run f (omega arith) in
        (r', eg ∙ stop g _ m' r' (omega (arith, adv.moved)) hg, adv)
