-- ===== src/Runtime/Sample.antt =====
-- A runtime that meets `Laws` and `Progress`, so that the theorems that rest on them say something:
-- a buffer holds one cell for each value written. It is no model of protobuf.js.
use tilbo.Prelude.{
  ℕ, zero, suc, ◌+◌, ◌≤◌, String, ◌≡◌, refl, sym, ap, ◌∙◌, Bool, true, false, if◌then◌else◌, Option,
  none, some, List, [], ◌∷◌, ◌++◌, length, arith,
}
use tilbo.Prelude.Int.{ℤ}
use tilbo.Runtime.{Outcome, done, throws, stuck, Runtime}
use tilbo.Runtime.Laws.{Chunks, IsVarint, append, close, Reads, Moves, MovesTo, Laws, Progress}

pub data Cell : Type 0 where
  num : ℕ → Cell
  int : ℤ → Cell
  flag : Bool → Cell
  text : String → Cell
  more : Cell

pub record Cursor : Type 0 where
  pub left : List Cell
  pub at : ℕ
  pub size : ℕ

abbrev as_num : Cell → Option ℕ
as_num (num n) = some n
as_num _ = none

abbrev as_int : Cell → Option ℤ
as_int (int n) = some n
as_int _ = none

abbrev as_flag : Cell → Option Bool
as_flag (flag b) = some b
as_flag _ = none

abbrev as_text : Cell → Option String
as_text (text s) = some s
as_text _ = none

abbrev step_over : Cursor → List Cell → Cursor
step_over c t = record c { left = t; at = c.at + 1 }

abbrev got : {A : Type 0} → Option A → Cursor → Outcome (A × Cursor)
got none c = throws "index out of range"
got (some a) c = done (a, c)

abbrev pop_from : {A : Type 0} → (Cell → Option A) → List Cell → Cursor → Outcome (A × Cursor)
pop_from f [] c = throws "index out of range"
pop_from f (x ∷ t) c = got (f x) (step_over c t)

abbrev pop : {A : Type 0} → (Cell → Option A) → Cursor → Outcome (A × Cursor)
pop f c = pop_from f c.left c

-- The `n` cells that a length announces.
abbrev drop_cells : ℕ → List Cell → Cursor → Outcome (Unit {0} × Cursor)
drop_cells zero t c = done (tt, record c { left = t })
drop_cells (suc n) [] c = throws "index out of range"
drop_cells (suc n) (x ∷ t) c = drop_cells n t (record c { at = c.at + 1 })

abbrev skip_payload : List Cell → Cursor → Outcome (Unit {0} × Cursor)
skip_payload (num n ∷ t) c = drop_cells n t (record c { at = c.at + 1 })
skip_payload _ c = pop (λ _. some tt) c

abbrev is_more : Cell → Bool
is_more more = true
is_more _ = false

-- `more` cells and the cell behind them.
abbrev skip_varint : List Cell → Cursor → Outcome (Unit {0} × Cursor)
skip_varint [] c = throws "index out of range"
skip_varint (x ∷ t) c =
    if is_more x
    then skip_varint t (record c { at = c.at + 1 })
    else done (tt, record c { left = t; at = c.at + 1 })

abbrev skip_from : ℕ → Cursor → Outcome (Unit {0} × Cursor)
skip_from zero c = skip_varint c.left c
skip_from (suc zero) c = drop_cells 8 c.left c
skip_from (suc (suc zero)) c = skip_payload c.left c
skip_from (suc (suc (suc (suc (suc zero))))) c = drop_cells 4 c.left c
skip_from _ c = pop (λ _. some tt) c

abbrev open_cells : List Cell → Cursor
open_cells bs = record { left = bs; at = 0; size = length bs }

abbrev put_cell : {A : Type 0} → (A → Cell) → A → Chunks Cell → Chunks Cell
put_cell f a c = append (f a ∷ []) c

abbrev pub cells : Runtime
cells = record {
  Byte = Cell;
  Writer = Chunks Cell;
  create = record { top = []; below = [] };
  uint32 = put_cell num;
  int32 = put_cell int;
  uint64 = put_cell num;
  int64 = put_cell int;
  bool = put_cell flag;
  float = put_cell num;
  double = put_cell num;
  string = put_cell text;
  fork = λ c. record { top = []; below = c.top ∷ c.below };
  ldelim = λ c. close (λ n. num n ∷ []) c.top c.below;
  finish = λ c. c.top;
  Reader = Cursor;
  create_reader = λ bs. done (open_cells bs);
  new_reader = open_cells;
  pos = λ c. c.at;
  len = λ c. c.size;
  read_uint32 = pop as_num;
  read_int32 = pop as_int;
  read_uint64 = pop as_num;
  read_int64 = pop as_int;
  read_bool = pop as_flag;
  read_float = pop as_num;
  read_double = pop as_num;
  read_string = pop as_text;
  skip_type = skip_from;
}

abbrev left_of : Cursor → List Cell
left_of c = c.left

pub pop-Reads :
    {A : Type 0} (f : Cell → Option A) (x : Cell) (a : A)
    → f x ≡ some a
    → Reads cells left_of (pop f) (x ∷ []) a
pop-Reads f x a e short r t left = (
  step_over r t,
  rw (left, pop_from, e) refl,
  record { left = refl; moved = omega arith; same_len = refl },
)

drop_cells-done :
    (bs t : List Cell) (c : Cursor)
    → drop_cells (length bs) (bs ++ t) c ≡ done (tt, record c { left = t; at = c.at + length bs })
drop_cells-done [] t c = ap (λ (n : ℕ). done (tt, record c { left = t; at = n })) (omega arith)
drop_cells-done (x ∷ bs) t c =
    drop_cells-done bs t (record c { at = c.at + 1 })
    ∙ ap (λ (n : ℕ). done (tt, record c { left = t; at = n })) (omega arith)

pub skip_payload-Reads :
    (bs : List Cell) → Reads cells left_of (skip_from 2) (num (length bs) ∷ bs) tt
skip_payload-Reads bs short r t left = (
  record r { left = t; at = r.at + 1 + length bs },
  ap (λ l. skip_payload l r) left ∙ drop_cells-done bs t (record r { at = r.at + 1 }),
  record { left = refl; moved = omega arith; same_len = refl },
)

pub skip_cells-Reads :
    (wire_type n : ℕ)
    → ((c : Cursor) → skip_from wire_type c ≡ drop_cells n c.left c)
    → (bs : List Cell) → length bs ≡ n
    → Reads cells left_of (skip_from wire_type) bs tt
skip_cells-Reads k n same bs e short r t left = (
  record r { left = t; at = r.at + length bs },
  same r
      ∙ ap (λ l. drop_cells n l r) left
      ∙ ap (λ i. drop_cells i (bs ++ t) r) (sym e)
      ∙ drop_cells-done bs t r,
  record { left = refl; moved = refl; same_len = refl },
)

skip_varint-done :
    (bs t : List Cell) (c : Cursor)
    → IsVarint is_more bs
    → skip_varint (bs ++ t) c ≡ done (tt, record c { left = t; at = c.at + length bs })
skip_varint-done [] t c h = absurd h
skip_varint-done (x ∷ []) t c h =
    rw h (ap (λ (n : ℕ). done (tt, record c { left = t; at = n })) (omega arith))
skip_varint-done (x ∷ y ∷ bs) t c h = rw (h.0) (
    skip_varint-done (y ∷ bs) t (record c { at = c.at + 1 }) h.1
    ∙ ap (λ (n : ℕ). done (tt, record c { left = t; at = n })) (omega arith))

pub skip_varint-Reads :
    (bs : List Cell) → IsVarint is_more bs → Reads cells left_of (skip_from 0) bs tt
skip_varint-Reads bs h short r t left = (
  record r { left = t; at = r.at + length bs },
  ap (λ l. skip_varint l r) left ∙ skip_varint-done bs t r h,
  record { left = refl; moved = refl; same_len = refl },
)

got-MovesTo :
    {A : Type 0} (n : ℕ) (o : Option A) (c : Cursor) → n ≤ c.at → MovesTo cells n (got o c)
got-MovesTo n none c h = tt
got-MovesTo n (some a) c h = h

pub pop_from-MovesTo :
    {A : Type 0} (f : Cell → Option A) (l : List Cell) (c : Cursor)
    → MovesTo cells (c.at + 1) (pop_from f l c)
pop_from-MovesTo f [] c = tt
pop_from-MovesTo f (x ∷ t) c = got-MovesTo (c.at + 1) (f x) (step_over c t) (omega arith)

got-MovesTo_pop :
    {A : Type 0} (f : Cell → Option A) (l : List Cell) (c : Cursor)
    → MovesTo cells (c.at + 0) (pop_from f l c)
got-MovesTo_pop f [] c = tt
got-MovesTo_pop f (x ∷ t) c = got-MovesTo (c.at + 0) (f x) (step_over c t) (omega arith)

pub pop-Moves : {A : Type 0} (f : Cell → Option A) → Moves cells 0 (pop f)
pop-Moves f = record { at = λ r. got-MovesTo_pop f r.left r }

drop_cells-MovesTo :
    (n k : ℕ) (l : List Cell) (c : Cursor) → k ≤ c.at → MovesTo cells k (drop_cells n l c)
drop_cells-MovesTo zero k l c h = h
drop_cells-MovesTo (suc n) k [] c h = tt
drop_cells-MovesTo (suc n) k (x ∷ l) c h =
    drop_cells-MovesTo n k l (record c { at = c.at + 1 }) (omega arith)

skip_payload-MovesTo : (l : List Cell) (c : Cursor) → MovesTo cells (c.at + 0) (skip_payload l c)
skip_payload-MovesTo [] c = (pop-Moves (λ _. some tt)).at c
skip_payload-MovesTo (num n ∷ t) c =
    drop_cells-MovesTo n (c.at + 0) t (record c { at = c.at + 1 }) (omega arith)
skip_payload-MovesTo (int z ∷ t) c = (pop-Moves (λ _. some tt)).at c
skip_payload-MovesTo (flag b ∷ t) c = (pop-Moves (λ _. some tt)).at c
skip_payload-MovesTo (text s ∷ t) c = (pop-Moves (λ _. some tt)).at c
skip_payload-MovesTo (more ∷ t) c = (pop-Moves (λ _. some tt)).at c

skip_varint-MovesTo :
    (k : ℕ) (l : List Cell) (c : Cursor) → k ≤ c.at → MovesTo cells k (skip_varint l c)
skip_varint-MovesTo k [] c h = tt
skip_varint-MovesTo k (x ∷ l) c h =
    elim (is_more x)
      as (λ b. MovesTo cells k (
        if b
        then skip_varint l (record c { at = c.at + 1 })
        else done (tt, record c { left = l; at = c.at + 1 }))) [
          | true ↦ skip_varint-MovesTo k l (record c { at = c.at + 1 }) (omega arith)
          | false ↦ omega arith
        ]

pub skip_from-Moves : (wire_type : ℕ) → Moves cells 0 (skip_from wire_type)
skip_from-Moves zero = record { at = λ r. skip_varint-MovesTo (r.at + 0) r.left r (omega arith) }
skip_from-Moves (suc zero) = record {
  at = λ r. drop_cells-MovesTo 8 (r.at + 0) r.left r (omega arith);
}
skip_from-Moves (suc (suc (suc (suc (suc zero))))) = record {
  at = λ r. drop_cells-MovesTo 4 (r.at + 0) r.left r (omega arith);
}
skip_from-Moves (suc (suc zero)) = record { at = λ r. skip_payload-MovesTo r.left r }
skip_from-Moves _ = pop-Moves (λ _. some tt)

abbrev pub cells_laws : Laws cells
cells_laws = record {
  of_uint32 = λ n. num n ∷ [];
  of_int32 = λ n. int n ∷ [];
  of_uint64 = λ n. num n ∷ [];
  of_int64 = λ n. int n ∷ [];
  of_bool = λ b. flag b ∷ [];
  of_float = λ n. num n ∷ [];
  of_double = λ n. num n ∷ [];
  of_string = λ s. text s ∷ [];
  IsFloat = λ _. Unit;
  IsDouble = λ _. Unit;
  written = λ c. c;
  written-create = refl;
  written-uint32 = λ v w. refl;
  written-int32 = λ v w. refl;
  written-uint64 = λ v w. refl;
  written-int64 = λ v w. refl;
  written-bool = λ v w. refl;
  written-float = λ v w. refl;
  written-double = λ v w. refl;
  written-string = λ v w. refl;
  written-fork = λ w. refl;
  written-ldelim = λ w. refl;
  finish-written = λ w. refl;
  rest = left_of;
  create_at = λ bs. (open_cells bs, refl, refl, refl, refl);
  new_at = λ bs. (refl, refl, refl);
  uint32_nonempty = λ v. omega arith;
  reads-uint32 = λ v h. pop-Reads as_num (num v) v refl;
  reads-int32 = λ v h. pop-Reads as_int (int v) v refl;
  reads-uint64 = λ v h. pop-Reads as_num (num v) v refl;
  reads-int64 = λ v h. pop-Reads as_int (int v) v refl;
  reads-bool = λ v. pop-Reads as_flag (flag v) v refl;
  reads-float = λ v h. pop-Reads as_num (num v) v refl;
  reads-double = λ v h. pop-Reads as_num (num v) v refl;
  reads-string = λ v. pop-Reads as_text (text v) v refl;
  continues = is_more;
  skips-varint = skip_varint-Reads;
  skips-fixed64 = skip_cells-Reads 1 8 (λ c. refl);
  skips-bytes = skip_payload-Reads;
  skips-fixed32 = skip_cells-Reads 5 4 (λ c. refl);
}

pub create_cells-ends : (bs : List Cell) → ◌≡◌ {A = Outcome Cursor} (done (open_cells bs)) stuck → ⊥
create_cells-ends bs e = cc

abbrev pub cells_progress : Progress cells
cells_progress = record {
  create_ends = create_cells-ends;
  moves-uint32 = record { at = λ r. pop_from-MovesTo as_num r.left r };
  moves-int32 = pop-Moves as_int;
  moves-uint64 = pop-Moves as_num;
  moves-int64 = pop-Moves as_int;
  moves-bool = pop-Moves as_flag;
  moves-float = pop-Moves as_num;
  moves-double = pop-Moves as_num;
  moves-string = pop-Moves as_text;
  moves-skip_type = skip_from-Moves;
}
