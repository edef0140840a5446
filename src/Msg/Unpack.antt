-- ===== src/Msg/Unpack.antt =====
-- libchimp/msg.c: decoding a message. Reading bytes that were never written as what they are read as
-- is a fault, and so is a message nested deeper than `fuel`.
use chimp.Common.{
  ℕ, zero, suc, ◌+◌, Bool, true, false, List, [], ◌∷◌, take, drop, leb, length, if◌then◌else◌,
}
use chimp.Common.Runs.{Run, done, fault, ◌>>=◌}
use chimp.Msg.{
  Value, value_nil, value_int, value_str, value_array, value_module, value_method, value_task,
  Values, values_end, values_cons, Cell, cell_nil, cell_int, cell_str, cell_array, cell_module,
  cell_method, cell_task, Byte, rest, head, char, cell_size, TaskEvent, ref, unref, Msg,
}

-- `n` bytes from an offset on
unfoldable pub load : List Byte → ℕ → ℕ → Run (List Byte)
load bytes at n = if leb (at + n) (length bytes) then done (take n (drop at bytes)) else fault

abbrev pub all_rest : List Byte → Run (Unit {0})
all_rest [] = done tt
all_rest (rest ∷ bs) = all_rest bs
all_rest (_ ∷ bs) = fault

-- `cell->type` is 4 bytes; what else the cell has is read only where the type is not NIL.
abbrev pub type_of : List Byte → Run Cell
type_of (head c ∷ bs) = all_rest bs >>= λ _. done c
type_of _ = fault

abbrev pub is_nil : Cell → Bool
is_nil cell_nil = true
is_nil _ = false

unfoldable pub read_cell : List Byte → ℕ → Run Cell
read_cell bytes at = load bytes at 4 >>= type_of >>= λ c.
    if is_nil c then done c else (load bytes (at + 4) 20 >>= all_rest >>= λ _. done c)

abbrev pub chars_of : List Byte → Run (List ℕ)
chars_of [] = done []
chars_of (char x ∷ bs) = chars_of bs >>= λ xs. done (x ∷ xs)
chars_of (_ ∷ bs) = fault

-- `*buf_ptr` and what was done to tasks, last first
pub record In : Type 0 where
  pub at : ℕ
  pub log : List TaskEvent

-- The loop of `chimp_msg_array_cell_decode`, with `k` rounds left
unfoldable pub items_decode : (In → Run (Value × In)) → ℕ → In → Run (Values × In)
items_decode decode zero inp = done (values_end, inp)
items_decode decode (suc k) inp = do
  (v, inp') ← decode inp
  (vs, inp'') ← items_decode decode k inp'
  done (values_cons v vs, inp'')

-- `chimp_msg_value_cell_decode`, the cell behind its type
unfoldable pub cell_decode : (In → Run (Value × In)) → List Byte → In → Cell → Run (Value × In)
cell_decode decode bytes inp cell_nil = done (value_nil, record inp { at = inp.at + cell_size })
cell_decode decode bytes inp (cell_int n) =
    done (value_int n, record inp { at = inp.at + cell_size })
cell_decode decode bytes inp (cell_str data_ size) = load bytes data_ size >>= chars_of >>= λ s.
    done (value_str s, record inp { at = inp.at + (cell_size + size + 1) })
cell_decode decode bytes inp (cell_array items size) =
    items_decode decode size (record inp { at = inp.at + cell_size }) >>= λ (vs, inp').
    done (value_array vs, inp')
cell_decode decode bytes inp (cell_module r) =
    done (value_module r, record inp { at = inp.at + cell_size })
cell_decode decode bytes inp (cell_method r) =
    done (value_method false r, record inp { at = inp.at + cell_size })
cell_decode decode bytes inp (cell_task t) =
    done (value_task t, record { at = inp.at + cell_size; log = unref t ∷ ref t ∷ inp.log })

unfoldable pub value_cell_decode : ℕ → List Byte → In → Run (Value × In)
value_cell_decode zero bytes inp = fault
value_cell_decode (suc fuel) bytes inp =
    read_cell bytes inp.at >>= cell_decode (value_cell_decode fuel bytes) bytes inp

-- `chimp_msg_unpack`; each level of nesting has a cell, so the size of the message is enough fuel.
unfoldable pub unpack : Msg → List TaskEvent → Run (Value × List TaskEvent)
unpack msg log =
    value_cell_decode msg.size msg.bytes (record { at = msg.cell; log = log }) >>= λ (v, inp).
    done (v, inp.log)
