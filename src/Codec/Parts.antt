-- ===== src/Codec/Parts.antt =====
-- How a property, a repeated field and a map field carry what was written over to what is read.
-- Each message's round trip is put together from these.
use tilbo.Prelude.{
  ℕ, suc, ◌+◌, String, ◌≡◌, refl, sym, ap, Option, none, some, List, [], ◌∷◌, ◌++◌, append-nil,
  append_assoc, length, arith, Given, All,
}
use tilbo.Runtime.{Parser, ◌>>=◌, pure, Runtime}
use tilbo.Runtime.Laws.{Laws, Chunks, IsU32}
use tilbo.Codec.{Entries, put_key, own, each, write_entry, entry_field, read_entry, read_fields}
use tilbo.Codec.Fields.{Steps-nil, Steps-append, Steps-field, Steps-read}
use tilbo.Codec.Carries.{
  Distinct, put_all, put_all-Distinct, Coded, Carries, Writes-then, Writes-ldelim, Reads-map,
  Reads-delimited,
}

infixl 10 ◌⨟◌
-- One part of a message behind another.
pub ◌⨟◌ :
    {rt : Runtime} {laws : Laws rt} {M : Type 0} {f g : rt.Writer → rt.Writer}
    {step : ℕ → M → Parser rt.Reader M} {m m' m'' : M}
    → Carries rt laws f step m m'
    → Carries rt laws g step m' m''
    → Carries rt laws (λ w. g (f w)) step m m''
◌⨟◌ {rt} {laws} {f = f} {g} {step} {m} {m'} {m''} c d = record {
  bytes = c.bytes ++ d.bytes;
  writes = Writes-then rt laws f g c.bytes d.bytes c.writes d.writes;
  steps = Steps-append rt laws step m m' m'' c.bytes d.bytes c.steps d.steps;
}

module _ (rt : Runtime) (laws : Laws rt) where
  open rt use {Byte, Writer, create, uint32, string, fork, ldelim, finish, Reader, pos, len}
  open rt use {read_uint32, read_string}
  open laws use {
    rest, of_uint32, of_string, written, written-create, written-uint32, written-string,
    finish-written, create_at, new_at, reads-string,
  }

  module _ {M : Type 0} (step : ℕ → M → Parser Reader M) where
    pub Carries-nil : (m : M) → Carries rt laws (λ w. w) step m m
    Carries-nil m = record {
      bytes = [];
      writes = λ w.
          ap {B = Chunks Byte} (λ l. record (written w) { top = l })
            (sym (append-nil (written w).top));
      steps = Steps-nil rt laws step m;
    }

    module _ {A : Type 0} (tag : ℕ) (ht : IsU32 tag) (write : A → Writer → Writer) where
      -- A tag and a value, if the case of the tag reads the value and does `put` with it.
      Carries-value :
          (read : Parser Reader A) (put : A → M) (m : M) (a : A)
          → step tag m ≡ (read >>= λ x. pure (put x))
          → Coded rt laws write read a
          → Carries rt laws (λ w. write a (uint32 tag w)) step m (put a)
      Carries-value read put m a e (bs, p, s) = record {
        bytes = of_uint32 tag ++ bs;
        writes =
            Writes-then rt laws (uint32 tag) (write a) (of_uint32 tag) bs (written-uint32 tag) p;
        steps =
            Steps-field rt laws step tag m (put a) bs ht (rw e (Reads-map rt laws read put bs a s));
      }

      -- A property that is written if it is set. `with` is the message as a function of it.
      pub Carries-own :
          (read : Parser Reader A) (with : Option A → M) (o : Option A)
          → step tag (with none) ≡ (read >>= λ x. pure (with (some x)))
          → Given (Coded rt laws write read) o
          → Carries rt laws (own (λ a w. write a (uint32 tag w)) o) step (with none) (with o)
      unfolding own
      Carries-own read with none e h = Carries-nil (with none)
      Carries-own read with (some a) e h = Carries-value read (λ x. with (some x)) (with none) a e h

      Carries-each_from :
          (read : Parser Reader A) (with : List A → M) (ys xs : List A)
          → ((zs : List A) → step tag (with zs) ≡ (read >>= λ x. pure (with (zs ++ x ∷ []))))
          → All (Coded rt laws write read) xs
          → Carries rt laws
              (each (λ a w. write a (uint32 tag w)) xs)
              step
              (with ys)
              (with (ys ++ xs))
      unfolding each
      Carries-each_from read with ys [] e h = rw append-nil (Carries-nil (with ys))
      Carries-each_from read with ys (x ∷ xs) e h =
          Carries-value read (λ a. with (ys ++ a ∷ [])) (with ys) x (e ys) h.0
          ⨟ (rw (append_assoc ys (x ∷ []) xs) at
              (Carries-each_from read with (ys ++ x ∷ []) xs e h.1))

      -- A repeated field: every element is written and read behind the others.
      pub Carries-each :
          (read : Parser Reader A) (with : List A → M) (xs : List A)
          → ((zs : List A) → step tag (with zs) ≡ (read >>= λ x. pure (with (zs ++ x ∷ []))))
          → All (Coded rt laws write read) xs
          → Carries rt laws (each (λ a w. write a (uint32 tag w)) xs) step (with []) (with xs)
      Carries-each read with xs e h = Carries-each_from read with [] xs e h

  Entry-Carries :
      (k v : String)
      → Carries rt laws
          (λ w. string v (uint32 18 (string k (uint32 10 w))))
          (entry_field rt)
          ("", "")
          (k, v)
  unfolding entry_field
  Entry-Carries k v =
      Carries-value (entry_field rt) 10 (omega arith) string read_string (λ x. (x, "")) ("", "") k
        refl (of_string k, written-string k, reads-string k)
      ⨟ Carries-value (entry_field rt) 18 (omega arith) string read_string (λ x. (k, x)) (k, "") v
          refl (of_string v, written-string v, reads-string v)

  Coded-entry : (k v : String) → Coded rt laws (write_entry rt) (read_entry rt) (k, v)
  unfolding write_entry read_entry
  Coded-entry k v =
      let c = Entry-Carries k v in
      (
        of_uint32 (length c.bytes) ++ c.bytes,
        Writes-ldelim rt laws (λ w. string v (uint32 18 (string k (uint32 10 w)))) c.bytes c.writes,
        Reads-delimited rt laws
            (λ n r. read_fields rt (entry_field rt) none (pos r + n) (suc n) ("", "") r) c.bytes
            (k, v)
            (Steps-read rt laws (entry_field rt) ("", "") (k, v) c.bytes c.steps
              (suc (length c.bytes)) (omega arith)),
      )

  module _ {M : Type 0} (step : ℕ → M → Parser Reader M) where
    Carries-entries_from :
        (tag : ℕ)
        → IsU32 tag
        → (with : Entries → M) (xs ys : Entries)
        → ((zs : Entries)
            → step tag (with zs) ≡ (read_entry rt >>= λ e. pure (with (put_key e.0 e.1 zs))))
        → Carries rt laws
            (each (λ e w. write_entry rt e (uint32 tag w)) xs)
            step
            (with ys)
            (with (put_all ys xs))
    unfolding each put_all
    Carries-entries_from tag ht with [] ys e = Carries-nil step (with ys)
    Carries-entries_from tag ht with ((k, v) ∷ xs) ys e =
        Carries-value step tag ht (write_entry rt) (read_entry rt) (λ a. with (put_key a.0 a.1 ys))
          (with ys) (k, v) (e ys) (Coded-entry k v)
        ⨟ Carries-entries_from tag ht with xs (put_key k v ys) e

    -- A map field: every entry is written, and read into the object that was read before it.
    pub Carries-put_all :
        (tag : ℕ)
        → IsU32 tag
        → (with : Entries → M) (xs : Entries)
        → ((zs : Entries)
            → step tag (with zs) ≡ (read_entry rt >>= λ e. pure (with (put_key e.0 e.1 zs))))
        → Carries rt laws
            (each (λ e w. write_entry rt e (uint32 tag w)) xs)
            step
            (with [])
            (with (put_all [] xs))
    Carries-put_all tag ht with xs e = Carries-entries_from tag ht with xs [] e

    -- With distinct keys the object that is read is the one that was written.
    pub Carries-entries :
        (tag : ℕ)
        → IsU32 tag
        → (with : Entries → M) (xs : Entries)
        → ((zs : Entries)
            → step tag (with zs) ≡ (read_entry rt >>= λ e. pure (with (put_key e.0 e.1 zs))))
        → Distinct xs
        → Carries rt laws
            (each (λ e w. write_entry rt e (uint32 tag w)) xs)
            step
            (with [])
            (with xs)
    Carries-entries tag ht with xs e d =
        rw (put_all-Distinct [] xs d) at (Carries-put_all tag ht with xs e)
