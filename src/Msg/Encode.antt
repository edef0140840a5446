-- ===== src/Msg/Encode.antt =====
-- Encoding a plain value into a block with room for it.
use chimp.Common.{
  ℕ, suc, ◌+◌, ◌≤◌, ◌≡◌, refl, sym, ap, subst, ◌∙◌, true, false, List, [], ◌∷◌, arith, length, take,
  take-take, replicate, map,
}
use chimp.Common.Runs.{Run, done, ◌>>=◌}
use chimp.Memory.Laws.{memcpy_lem}
use chimp.Msg.{
  Value, value_nil, value_other, value_int, value_str, value_array, value_module, value_method,
  value_task, Values, values_end, values_cons, count, Cell, cell_int, cell_str, cell_array,
  cell_module, cell_method, cell_task, Byte, rest, head, char, TaskEvent, ref, Out, cell_encode,
  str_cell_encode, value_cell_encode, items_encode,
}
use chimp.Msg.Unpack.{is_nil, read_cell, chars_of}
use chimp.Msg.Layout.{used, used_all, HasCell, IsLaid, AreLaid, IsPlain, ArePlain}
use chimp.Msg.Store.{
  written, length-written, take-written, load-written, HasCell-stable, IsLaid-stable,
}

abbrev mutual
  -- Encoding takes a reference to each task.
  pub retained : Value → List TaskEvent → List TaskEvent
  retained value_nil log = log
  retained value_other log = log
  retained (value_int n) log = log
  retained (value_str s) log = log
  retained (value_array vs) log = retained_all vs log
  retained (value_module r) log = log
  retained (value_method closure r) log = log
  retained (value_task t) log = ref t ∷ log

  pub retained_all : Values → List TaskEvent → List TaskEvent
  retained_all values_end log = log
  retained_all (values_cons v vs) log = retained_all vs (retained v log)

-- What an encoder leaves that moves on by `n`: the bytes before the position, and the block's length.
pub record Moved (o : Out) (n : ℕ) (log : List TaskEvent) (o' : Out) : Type 0 where
  pub moved : o'.at ≡ o.at + n
  pub same_length : length o'.bytes ≡ length o.bytes
  pub before : take o.at o'.bytes ≡ take o.at o.bytes
  pub logged : o'.log ≡ log

cell_bytes :
    (b : List Byte) (at : ℕ) (c : Cell)
    → is_nil c ≡ false
    → at + 24 ≤ length b
    → HasCell (written b at (head c ∷ replicate 23 rest)) at c
unfolding read_cell
cell_bytes b at c e h =
    rw (load-written b at (head c ∷ replicate 23 rest) h at 0 4 (omega arith) (omega arith)) (
      rw e (
        rw (load-written b at (head c ∷ replicate 23 rest) h (at + 4) 4 20 refl (omega arith))
          refl))

pub cell_encode_lem :
    (c : Cell) (o : Out)
    → is_nil c ≡ false
    → o.at + 24 ≤ length o.bytes
    → (o' : Out) × (cell_encode c o ≡ done o') × Moved o 24 o.log o' × HasCell o'.bytes o.at c
unfolding cell_encode
cell_encode_lem c o e h = (
  record o { bytes = written o.bytes o.at (head c ∷ replicate 23 rest); at = o.at + 24 },
  rw (memcpy_lem o.bytes o.at (head c ∷ replicate 23 rest) h) refl,
  record {
    moved = refl;
    same_length = length-written o.bytes o.at (head c ∷ replicate 23 rest) h;
    before = take-written o.bytes o.at (head c ∷ replicate 23 rest) h;
    logged = refl;
  },
  cell_bytes o.bytes o.at c e h,
)

length-chars : (s : List ℕ) → length (map char s) ≡ length s
length-chars [] = refl
length-chars (x ∷ s) = ap suc (length-chars s)

chars_of-chars : (s : List ℕ) → chars_of (take (length s) (map char s)) ≡ done s
chars_of-chars [] = refl
chars_of-chars (x ∷ s) = rw (chars_of-chars s) refl

str_cell_encode_lem :
    (s : List ℕ) (o : Out)
    → o.at + (24 + length s + 1) ≤ length o.bytes
    → (o' : Out) × (str_cell_encode s o ≡ done o')
      × Moved o (24 + length s + 1) o.log o'
      × IsLaid (value_str s) o'.bytes o.at
unfolding str_cell_encode
str_cell_encode_lem s o h =
    let (o', e, m, c) = cell_encode_lem (cell_str (o.at + 24) (length s)) o refl (omega arith) in
    let fits : o'.at + length (map char s) ≤ length o'.bytes =
      omega (arith, m.moved, m.same_length, length-chars s) in
    let b = written o'.bytes o'.at (map char s) in
    let before : take o'.at b ≡ take o'.at o'.bytes =
      take-written o'.bytes o'.at (map char s) fits in
    let long : length b ≡ length o'.bytes = length-written o'.bytes o'.at (map char s) fits in
    (
      record o' { bytes = b; at = o'.at + length s + 1 },
      rw e (rw (memcpy_lem o'.bytes o'.at (map char s) fits) refl),
      record {
        moved = omega (arith, m.moved);
        same_length = long ∙ m.same_length;
        before =
            sym (take-take o.at o'.at b (omega (arith, m.moved)))
            ∙ ap (take o.at) before
            ∙ take-take o.at o'.at o'.bytes (omega (arith, m.moved))
            ∙ m.before;
        logged = m.logged;
      },
      (
        HasCell-stable o'.bytes b o'.at (sym before) (sym long) o.at
            (cell_str (o.at + 24) (length s)) (omega (arith, m.moved)) c,
        ap (λ r. r >>= chars_of)
              (load-written o'.bytes o'.at (map char s) fits (o.at + 24) 0 (length s)
                (omega (arith, m.moved)) (omega (arith, length-chars s)))
            ∙ chars_of-chars s,
      ),
    )

Moved-trans :
    (o o' o'' : Out) (n k : ℕ) (log log' : List TaskEvent)
    → Moved o n log o'
    → Moved o' k log' o''
    → Moved o (n + k) log' o''
Moved-trans o o' o'' n k log log' m m' = record {
  moved = omega (arith, m.moved, m'.moved);
  same_length = m'.same_length ∙ m.same_length;
  before =
      sym (take-take o.at o'.at o''.bytes (omega (arith, m.moved)))
      ∙ ap (take o.at) m'.before
      ∙ take-take o.at o'.at o'.bytes (omega (arith, m.moved))
      ∙ m.before;
  logged = m'.logged;
}

abbrev Encodes : Value → Out → Run Out → Type 0
Encodes v o run =
    (o' : Out) × (run ≡ done o') × Moved o (used v) (retained v o.log) o' × IsLaid v o'.bytes o.at

abbrev EncodesAll : Values → Out → Run Out → Type 0
EncodesAll vs o run =
    (o' : Out) × (run ≡ done o')
    × Moved o (used_all vs) (retained_all vs o.log) o'
    × AreLaid vs o'.bytes o.at

items_encode_cons :
    (v : Value) (vs : Values) (o : Out)
    → Encodes v o (value_cell_encode v o)
    → ((o' : Out) → Moved o (used v) (retained v o.log) o' → EncodesAll vs o' (items_encode vs o'))
    → EncodesAll (values_cons v vs) o (value_cell_encode v o >>= items_encode vs)
items_encode_cons v vs o (o', e, m, l) rest_ =
    let (o'', e', m', l') = rest_ o' m in
    (
      o'',
      rw e e',
      subst (λ g. Moved o (used v + used_all vs) (retained_all vs g) o'') m.logged
          (Moved-trans o o' o'' (used v) (used_all vs) (retained v o.log) (retained_all vs o'.log) m
            m'),
      (
        IsLaid-stable o'.bytes o''.bytes o'.at (sym m'.before) (sym m'.same_length) v o.at
            (omega (arith, m.moved)) l,
        subst (AreLaid vs o''.bytes) m.moved l',
      ),
    )

array_encode :
    (vs : Values) (o : Out)
    → o.at + (24 + used_all vs) ≤ length o.bytes
    → ((o' : Out) → Moved o 24 o.log o' → EncodesAll vs o' (items_encode vs o'))
    → Encodes
        (value_array vs)
        o
        (cell_encode (cell_array (o.at + 24) (count vs)) o >>= items_encode vs)
array_encode vs o h rest_ =
    let (o', e, m, c) = cell_encode_lem (cell_array (o.at + 24) (count vs)) o refl (omega arith) in
    let (o'', e', m', l') = rest_ o' m in
    (
      o'',
      rw e e',
      subst (λ g. Moved o (24 + used_all vs) (retained_all vs g) o'') m.logged
          (Moved-trans o o' o'' 24 (used_all vs) o.log (retained_all vs o'.log) m m'),
      (
        HasCell-stable o'.bytes o''.bytes o'.at (sym m'.before) (sym m'.same_length) o.at
            (cell_array (o.at + 24) (count vs)) (omega (arith, m.moved)) c,
        subst (AreLaid vs o''.bytes) m.moved l',
      ),
    )

mutual
  unfolding value_cell_encode items_encode

  encode_value :
      (v : Value) (o : Out)
      → IsPlain v
      → o.at + used v ≤ length o.bytes
      → Encodes v o (value_cell_encode v o)
  encode_value value_nil o p h = absurd p
  encode_value value_other o p h = absurd p
  encode_value (value_int n) o p h = cell_encode_lem (cell_int n) o refl h
  encode_value (value_str s) o p h = str_cell_encode_lem s o h
  encode_value (value_array vs) o p h =
      array_encode vs o h (λ o' m. encode_items vs o' p (omega (arith, m.moved, m.same_length)))
  encode_value (value_module r) o p h = cell_encode_lem (cell_module r) o refl h
  encode_value (value_method true r) o p h = cc
  encode_value (value_method false r) o p h =
      let (o', e, m, c) = cell_encode_lem (cell_method r) o refl h in (o', e, m, (c, refl))
  encode_value (value_task t) o p h =
      let (o', e, m, c) = cell_encode_lem (cell_task t) (record o { log = ref t ∷ o.log }) refl h in
      (
        o',
        e,
        record {
          moved = m.moved;
          same_length = m.same_length;
          before = m.before;
          logged = m.logged;
        },
        c,
      )

  encode_items :
      (vs : Values) (o : Out)
      → ArePlain vs
      → o.at + used_all vs ≤ length o.bytes
      → EncodesAll vs o (items_encode vs o)
  encode_items values_end o p h = (
    o,
    refl,
    record { moved = omega arith; same_length = refl; before = refl; logged = refl },
    tt,
  )
  encode_items (values_cons v vs) o (p, ps) h =
      items_encode_cons v vs o (encode_value v o p (omega arith))
        (λ o' m. encode_items vs o' ps (omega (arith, m.moved, m.same_length)))

pub encode_lem :
    (v : Value) (o : Out)
    → IsPlain v
    → o.at + used v ≤ length o.bytes
    → Encodes v o (value_cell_encode v o)
encode_lem v o p h = encode_value v o p h
