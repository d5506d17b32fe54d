-- ===== src/Codec/Carries.antt =====
-- What a write puts into the buffer, against what a read makes of it: `Coded` for one value, and
-- `Carries` for a part of a message, from the message read so far to the message read then.
use tilbo.Prelude.{
  append-nil, sym, ℕ, String, ◌≡◌, refl, ap, ◌∙◌, false, List, [], ◌∷◌, ◌++◌, append_assoc, length,
  length-append, arith, str_eq, All,
}
use tilbo.Runtime.{Parser, ◌>>=◌, pure, Runtime}
use tilbo.Runtime.Laws.{Laws, Chunks, append, close, Reads}
use tilbo.Codec.{Entries, put_key, replace_key}
use tilbo.Codec.Fields.{Steps, Reads-bind}

-- Distinct keys, none of which names the accessor of `Object.prototype`.
abbrev pub Distinct : Entries → Type 0
Distinct [] = Unit
Distinct ((k, v) ∷ m) =
    (str_eq k "__proto__" ≡ false) × All (λ e. str_eq k e.0 ≡ false) m × Distinct m

All-last : {A : Type 0} (P : A → Type 0) (xs ys : List A) (a : A) → All P (xs ++ a ∷ ys) → P a
All-last P [] ys a h = h.0
All-last P (x ∷ xs) ys a h = All-last P xs ys a h.1

replace_key-append :
    (m rest : Entries) (k v : String)
    → Distinct (m ++ (k, v) ∷ rest)
    → (replace_key k v m ≡ m ++ (k, v) ∷ []) × (str_eq k "__proto__" ≡ false)
unfolding replace_key
replace_key-append [] rest k v h = (refl, h.0)
replace_key-append ((j, u) ∷ m) rest k v h =
    let (e, p) = replace_key-append m rest k v h.2 in
    (rw (All-last _ m rest (k, v) h.1) (ap (λ l. (j, u) ∷ l) e), p)

-- A new key goes behind the others.
pub put_key-append :
    (m rest : Entries) (k v : String)
    → Distinct (m ++ (k, v) ∷ rest)
    → put_key k v m ≡ m ++ (k, v) ∷ []
unfolding put_key
put_key-append m rest k v h = let (e, p) = replace_key-append m rest k v h in rw p e

-- The entries `xs`, put one after the other into the object `ys`.
unfoldable pub put_all : Entries → Entries → Entries
put_all ys [] = ys
put_all ys ((k, v) ∷ xs) = put_all (put_key k v ys) xs

pub put_all-Distinct : (ys xs : Entries) → Distinct (ys ++ xs) → put_all ys xs ≡ ys ++ xs
unfolding put_all
put_all-Distinct ys [] d = sym (append-nil ys)
put_all-Distinct ys ((k, v) ∷ xs) d = rw (put_key-append ys xs k v d) (
    put_all-Distinct (ys ++ (k, v) ∷ []) xs (rw (append_assoc ys ((k, v) ∷ []) xs) d)
    ∙ append_assoc ys ((k, v) ∷ []) xs)

module _ (rt : Runtime) (laws : Laws rt) where
  open rt use {Byte, Writer, uint32, string, fork, ldelim, Reader, pos, read_uint32, read_string}
  open laws use {
    rest, of_uint32, of_string, written, written-uint32, written-string, written-fork,
    written-ldelim, reads-uint32, reads-string,
  }

  abbrev pub Writes : (Writer → Writer) → List Byte → Type 0
  Writes f bs = (w : Writer) → written (f w) ≡ append bs (written w)

  abbrev pub Coded : {A : Type 0} → (A → Writer → Writer) → Parser Reader A → A → Type 0
  Coded write read a = (bs : List Byte) × Writes (write a) bs × Reads rt rest read bs a

  pub record Carries {M : Type 0} (f : Writer → Writer) (step : ℕ → M → Parser Reader M) (m m' : M)
      : Type 0 where
    pub bytes : List Byte
    pub writes : Writes f bytes
    pub steps : Steps rt laws step m bytes m'

  pub Writes-then :
      (f g : Writer → Writer) (bs cs : List Byte)
      → Writes f bs
      → Writes g cs
      → Writes (λ w. g (f w)) (bs ++ cs)
  Writes-then f g bs cs p q w =
      q (f w)
      ∙ ap (append cs) (p w)
      ∙ ap {B = Chunks Byte} (λ l. record (written w) { top = l })
          (append_assoc (written w).top bs cs)

  -- What is written into a fork comes out behind its length.
  pub Writes-ldelim :
      (f : Writer → Writer) (bs : List Byte)
      → Writes f bs
      → Writes (λ w. ldelim (f (fork w))) (of_uint32 (length bs) ++ bs)
  Writes-ldelim f bs p w =
      written-ldelim (f (fork w))
      ∙ ap (λ (c : Chunks Byte). close of_uint32 c.top c.below)
          (p (fork w) ∙ ap (append bs) (written-fork w))

  pub Reads-map :
      {A B : Type 0} (p : Parser Reader A) (f : A → B) (bs : List Byte) (a : A)
      → Reads rt rest p bs a
      → Reads rt rest (p >>= λ x. pure (f x)) bs (f a)
  Reads-map p f bs a h short r t e = let (r', ep, adv) = h short r t e in (r', rw ep refl, adv)

  -- A length, and then a message of that length.
  pub Reads-delimited :
      {A : Type 0} (body : ℕ → Parser Reader A) (bs : List Byte) (a : A)
      → Reads rt rest (body (length bs)) bs a
      → Reads rt rest (read_uint32 >>= body) (of_uint32 (length bs) ++ bs) a
  Reads-delimited body bs a h short =
      Reads-bind rt laws read_uint32 body (of_uint32 (length bs)) bs (length bs) a
        (reads-uint32 (length bs) (omega (arith, length-append (of_uint32 (length bs)) bs))) h short
