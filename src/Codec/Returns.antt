-- ===== src/Codec/Returns.antt =====
-- What holds of every message that a read returns, whatever the bytes: a property that the new
-- message has and every case of the switch keeps.
use mathlib.Core.Logic.{inl, inr}
use tilbo.Prelude.{
  ℕ, zero, suc, ◌+◌, ◌-◌, ◌≡◌, refl, Bool, true, false, Bool-cases, Option, none, some, ltb, List,
  if◌then◌else◌,
}
use tilbo.Runtime.{
  Outcome, done, throws, stuck, Parser, continue, ◌>>=◌, pure, Runtime, Source, reader, buffer,
}
use tilbo.Codec.{read_fields, is_error, decode_with, decode_from, skip_field}

-- What a call returns, if it returns, has the property.
abbrev pub Holds : {R A : Type 0} → (A → Type 0) → Outcome (A × R) → Type 0
Holds P (done (a, r)) = P a
Holds P (throws e) = Unit
Holds P stuck = Unit

pub record Returns {R A : Type 0} (P : A → Type 0) (p : Parser R A) : Type 0 where
  pub at : (r : R) → Holds P (p r)

module _ {R A : Type 0} {P : A → Type 0} where
  pub Returns-pure : (a : A) → P a → Returns P (pure {R = R} a)
  Returns-pure a h = record { at = λ r. h }

  continue-Holds :
      {B : Type 0} (o : Outcome (B × R)) (f : B → Parser R A)
      → ((b : B) → Returns P (f b))
      → Holds P (continue o f)
  continue-Holds (done (b, r)) f h = (h b).at r
  continue-Holds (throws e) f h = tt
  continue-Holds stuck f h = tt

  pub Returns-bind :
      {B : Type 0} {f : B → Parser R A} (p : Parser R B)
      → ((b : B) → Returns P (f b))
      → Returns P (p >>= f)
  Returns-bind {f = f} p h = record { at = λ r. continue-Holds (p r) f h }

  pub Returns-if :
      {p q : Parser R A} (b : Bool) → Returns P p → Returns P q → Returns P (if b then p else q)
  Returns-if true hp hq = hp
  Returns-if false hp hq = hq

module _ (rt : Runtime) {M : Type 0} (P : M → Type 0) where
  open rt use {Byte, Reader, pos, len, read_uint32}

  pub Returns-skip_field : (tag : ℕ) (m : M) → P m → Returns P (skip_field rt tag m)
  unfolding skip_field
  Returns-skip_field tag m h = Returns-bind (rt.skip_type _) (λ _. Returns-pure m h)

  module _ (step : ℕ → M → Parser Reader M)
      (keeps : (tag : ℕ) (m : M) → P m → Returns P (step tag m)) where
    after_step :
        (again : M → Parser Reader M)
        → ((m : M) → P m → Returns P (again m))
        → (o : Outcome (M × Reader)) → Holds P o
        → Holds P (continue o again)
    after_step again next (done (m, r)) h = (next m h).at r
    after_step again next (throws e) h = tt
    after_step again next stuck h = tt

    after_tag :
        (again : M → Parser Reader M)
        → ((m : M) → P m → Returns P (again m))
        → (b : Bool) (tag : ℕ) (m : M) → P m
        → Returns P (if b then pure m else (step tag m >>= again))
    after_tag again next true tag m h = Returns-pure m h
    after_tag again next false tag m h = record {
      at = λ r. after_step again next (step tag m r) ((keeps tag m h).at r);
    }

    read_fields-Returns :
        (error : Option ℕ) (end f : ℕ) (m : M) → P m → Returns P (read_fields rt step error end f m)
    unfolding read_fields
    read_fields-Returns error end zero m h = record { at = λ r. tt }
    read_fields-Returns error end (suc f) m h = record {
      at = λ r. elim (Bool-cases (ltb (pos r) end)) [
        | inr past ↦ rw past h
        | inl inside ↦ rw inside (
            (Returns-bind read_uint32 (λ tag.
                after_tag (λ m'. read_fields rt step error end f m')
                  (read_fields-Returns error end f) (is_error error tag) tag m h)).at
              r)
      ];
    }

    from-Holds :
        (m : M) (length error : Option ℕ) (r : Reader)
        → P m
        → Holds P (decode_from rt step m length error r)
    unfolding decode_from
    from-Holds m none error r h = (read_fields-Returns error (len r) (suc (len r - pos r)) m h).at r
    from-Holds m (some n) error r h = (read_fields-Returns error (pos r + n) (suc n) m h).at r

    opened-Holds :
        (m : M) (bs : List Byte) (length error : Option ℕ) (o : Outcome Reader)
        → rt.create_reader bs ≡ o
        → P m
        → Holds P (decode_with rt step m (buffer bs) length error)
    unfolding decode_with
    opened-Holds m bs length error (done r) e h =
        rw (e, decode_with) (from-Holds m length error r h)
    opened-Holds m bs length error (throws s) e h = rw (e, decode_with) tt
    opened-Holds m bs length error stuck e h = rw (e, decode_with) tt

    -- A property of the new message that every case keeps holds of the message that is returned.
    pub decode_with-Holds :
        (m : M) (source : Source Reader Byte) (length error : Option ℕ)
        → P m
        → Holds P (decode_with rt step m source length error)
    unfolding decode_with
    decode_with-Holds m (reader r) length error h = from-Holds m length error r h
    decode_with-Holds m (buffer bs) length error h =
        opened-Holds m bs length error (rt.create_reader bs) refl h
