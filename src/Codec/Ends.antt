-- ===== src/Codec/Ends.antt =====
-- Whatever the bytes are, a read of a message ends: it returns behind where it began, or it throws.
use tilbo.Prelude.{
  ℕ, String, zero, suc, ◌+◌, ◌-◌, ◌/◌, ◌==◌, ◌≤◌, ◌<◌, ◌≡◌, refl, Bool, true, false, Bool-cases,
  Option, none, some, arith, ltb, if◌then◌else◌,
}
use mathlib.Core.List.{List}
use mathlib.Core.Logic.{◌≢◌, inl, inr}
use tilbo.Runtime.{
  Outcome, done, throws, stuck, Parser, continue, ◌>>=◌, pure, Runtime, Source, reader, buffer,
}
use tilbo.Runtime.Laws.{Progress, MovesTo, Moves}
use tilbo.Codec.{
  read_fields, is_error, decode_with, decode_from, sub_message, read_entry, entry_field, skip_field,
}

ltb→lt : (a b : ℕ) → ltb a b ≡ true → a < b
ltb→lt a b h = ground arith

less_fuel : (p q end f : ℕ) → end - p < suc f → p + 1 ≤ q → p < end → end - q < f
less_fuel p q end f h k l = omega arith

module _ (rt : Runtime) where
  open rt use {Byte, Reader, pos, len, read_uint32, skip_type}

  MovesTo-le :
      {A : Type 0} (j k : ℕ) (o : Outcome (A × Reader)) → j ≤ k → MovesTo rt k o → MovesTo rt j o
  MovesTo-le j k (done (a, r)) h p = omega arith
  MovesTo-le j k (throws e) h p = tt
  MovesTo-le j k stuck h p = p

  pub Moves-pure : {A : Type 0} (a : A) → Moves rt 0 (pure a)
  Moves-pure a = record { at = λ r. omega arith }

  -- What follows a read runs at a reader that the read has moved.
  continue-MovesTo :
      {A B : Type 0} (n k : ℕ) (o : Outcome (A × Reader)) (f : A → Parser Reader B)
      → MovesTo rt n o
      → ((a : A) (r : Reader) → n ≤ pos r → MovesTo rt k (f a r))
      → MovesTo rt k (continue o f)
  continue-MovesTo n k (done (a, r)) f p q = q a r p
  continue-MovesTo n k (throws e) f p q = tt
  continue-MovesTo n k stuck f p q = absurd p

  pub Moves-bind :
      {A B : Type 0} {k : ℕ} {p : Parser Reader A} {f : A → Parser Reader B}
      → Moves rt k p
      → ((a : A) → Moves rt 0 (f a))
      → Moves rt k (p >>= f)
  Moves-bind {k = k} {p} {f} mp mf = record {
    at = λ r.
        continue-MovesTo (pos r + k) (pos r + k) (p r) f (mp.at r)
          (λ a r' h. MovesTo-le _ (pos r' + 0) (f a r') (omega arith) ((mf a).at r'));
  }

  Moves-weaken : {A : Type 0} {p : Parser Reader A} → Moves rt 1 p → Moves rt 0 p
  Moves-weaken {p = p} mp = record {
    at = λ r. MovesTo-le (pos r + 0) (pos r + 1) (p r) (omega arith) (mp.at r);
  }

-- A case of a switch: the value is read and put into the message.
pub Moves-put :
    {rt : Runtime} {A B : Type 0} {p : Parser rt.Reader A} (f : A → B)
    → Moves rt 0 p
    → Moves rt 0 (p >>= λ a. pure (f a))
Moves-put {rt} f mp = Moves-bind rt mp (λ a. Moves-pure rt (f a))

infixr 10 ◌⟨◌⟩◌
-- `a ⟨ b ⟩ c`: the case if the test holds, the test, and the cases if it does not.
pub ◌⟨◌⟩◌ :
    {rt : Runtime} {A : Type 0} {p q : Parser rt.Reader A}
    → Moves rt 0 p
    → (b : Bool) → Moves rt 0 q
    → Moves rt 0 (if b then p else q)
mp ⟨ true ⟩ mq = mp
mp ⟨ false ⟩ mq = mq

module _ (rt : Runtime) where
  open rt use {Byte, Reader, pos, len, read_uint32, skip_type}

  module _ (progress : Progress rt) where
    open progress use {moves-uint32, moves-string, moves-skip_type}

    pub Moves-uint32 : Moves rt 0 read_uint32
    Moves-uint32 = Moves-weaken rt moves-uint32

    pub Moves-skip_field : {M : Type 0} (tag : ℕ) (m : M) → Moves rt 0 (skip_field rt tag m)
    unfolding skip_field
    Moves-skip_field tag m = Moves-bind rt (moves-skip_type _) (λ _. Moves-pure rt m)

    module _ {M : Type 0} (step : ℕ → M → Parser Reader M)
        (moves : (tag : ℕ) (m : M) → Moves rt 0 (step tag m)) where
      -- The rest of a round behind its tag, where `again` is the next round.
      after_tag :
          (n : ℕ) (again : M → Parser Reader M)
          → ((m : M) (r : Reader) → n ≤ pos r → MovesTo rt n (again m r))
          → (b : Bool) (tag : ℕ) (m : M) (r : Reader) → n ≤ pos r
          → MovesTo rt n ((if b then pure m else (step tag m >>= again)) r)
      after_tag n again next true tag m r h = h
      after_tag n again next false tag m r h =
          continue-MovesTo rt (pos r + 0) n (step tag m r) again ((moves tag m).at r)
            (λ m' r' h'. next m' r' (omega arith))

      -- The loop over the fields, with more fuel than bytes before the end.
      read_fields-MovesTo :
          (error : Option ℕ) (end f : ℕ) (m : M) (r : Reader)
          → end - pos r < f
          → MovesTo rt (pos r) (read_fields rt step error end f m r)
      unfolding read_fields
      read_fields-MovesTo error end zero m r h = absurd (omega arith)
      read_fields-MovesTo error end (suc f) m r h = elim (Bool-cases (ltb (pos r) end)) [
        | inr past ↦ rw past (omega arith)
        | inl inside ↦
            let again : M → Parser Reader M = λ m'. read_fields rt step error end f m' in
            rw inside (
              continue-MovesTo rt (pos r + 1) (pos r) (read_uint32 r) _ (moves-uint32.at r)
                (λ tag r' h'. MovesTo-le rt (pos r) (pos r + 1) _ (omega arith) (
                  after_tag (pos r + 1) again
                    (λ m' r'' h''. MovesTo-le rt (pos r + 1) (pos r'') _ h'' (
                      read_fields-MovesTo error end f m' r''
                        (less_fuel (pos r) (pos r'') end f h h'' (ltb→lt _ _ inside))))
                    (is_error error tag) tag m r' h')))
      ]

      -- A call of `decode` on a reader.
      pub decode_with-MovesTo :
          (m : M) (length error : Option ℕ) (r : Reader)
          → MovesTo rt (pos r) (decode_with rt step m (reader r) length error)
      unfolding decode_with decode_from
      decode_with-MovesTo m none error r =
          read_fields-MovesTo error (len r) (suc (len r - pos r)) m r (omega arith)
      decode_with-MovesTo m (some n) error r =
          read_fields-MovesTo error (pos r + n) (suc n) m r (omega arith)

      pub Moves-sub_message : (m : M) → Moves rt 0 (sub_message rt (decode_with rt step m))
      unfolding sub_message
      Moves-sub_message m = Moves-weaken rt (
          Moves-bind rt moves-uint32 (λ n. record {
            at = λ r.
                MovesTo-le rt (pos r + 0) (pos r) _ (omega arith)
                  (decode_with-MovesTo m (some n) none r);
          }))

      not-stuck : {A : Type 0} (n : ℕ) (o : Outcome (A × Reader)) → MovesTo rt n o → o ≢ stuck
      not-stuck n (done a) h = λ e. cc
      not-stuck n (throws s) h = λ e. cc
      not-stuck n stuck h = absurd h

      from-ne-stuck :
          (m : M) (length error : Option ℕ) (r : Reader)
          → decode_from rt step m length error r ≢ stuck
      unfolding decode_with
      from-ne-stuck m length error r = not-stuck (pos r) _ (decode_with-MovesTo m length error r)

      opened-ne-stuck :
          (m : M) (bs : List Byte) (length error : Option ℕ) (o : Outcome Reader)
          → rt.create_reader bs ≡ o
          → decode_with rt step m (buffer bs) length error ≢ stuck
      unfolding decode_with
      opened-ne-stuck m bs length error (done r) e =
          rw (e, decode_with) (from-ne-stuck m length error r)
      opened-ne-stuck m bs length error (throws s) e = rw (e, decode_with) (λ p. cc)
      opened-ne-stuck m bs length error stuck e = absurd (progress.create_ends bs e)

      -- `decode` of any buffer or reader returns or throws: it never runs out of fuel.
      pub decode_with-ne-stuck :
          (m : M) (source : Source Reader Byte) (length error : Option ℕ)
          → decode_with rt step m source length error ≢ stuck
      unfolding decode_with
      decode_with-ne-stuck m (reader r) length error = from-ne-stuck m length error r
      decode_with-ne-stuck m (buffer bs) length error =
          opened-ne-stuck m bs length error (rt.create_reader bs) refl

    Moves-entry_field : (tag : ℕ) (e : String × String) → Moves rt 0 (entry_field rt tag e)
    unfolding entry_field
    Moves-entry_field tag (k, v) =
        Moves-put _ moves-string
        ⟨ tag / 8 == 1 ⟩ Moves-put _ moves-string
        ⟨ tag / 8 == 2 ⟩ Moves-skip_field tag (k, v)

    pub Moves-read_entry : Moves rt 0 (read_entry rt)
    unfolding read_entry
    Moves-read_entry = Moves-weaken rt (
        Moves-bind rt moves-uint32 (λ n. record {
          at = λ r. MovesTo-le rt (pos r + 0) (pos r) _ (omega arith) (
              read_fields-MovesTo (entry_field rt) Moves-entry_field none (pos r + n) (suc n)
                ("", "") r (omega arith));
        }))
