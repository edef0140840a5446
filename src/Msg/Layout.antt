-- ===== src/Msg/Layout.antt =====
-- Where the bytes of a value lie in a block, and that decoding a block gives the value back.
use chimp.Common.{ℕ, ◌+◌, ◌≡◌, false, List, ◌∷◌, length}
use chimp.Common.Runs.{done, ◌>>=◌}
use chimp.Msg.{
  Value, value_nil, value_other, value_int, value_str, value_array, value_module, value_method,
  value_task, Values, values_end, values_cons, count, Cell, cell_int, cell_str, cell_array,
  cell_module, cell_method, cell_task, Byte, TaskEvent, ref, unref,
}
use chimp.Msg.Unpack.{load, read_cell, chars_of}

abbrev mutual
  -- How far the encoder moves on.
  pub used : Value → ℕ
  used value_nil = 0
  used value_other = 0
  used (value_int n) = 24
  used (value_str s) = 24 + length s + 1
  used (value_array vs) = 24 + used_all vs
  used (value_module r) = 24
  used (value_method closure r) = 24
  used (value_task t) = 24

  pub used_all : Values → ℕ
  used_all values_end = 0
  used_all (values_cons v vs) = used v + used_all vs

abbrev mutual
  -- The value has no nil, no closure and no object of an unsupported class.
  pub IsPlain : Value → Type 0
  IsPlain value_nil = ⊥
  IsPlain value_other = ⊥
  IsPlain (value_int n) = Unit
  IsPlain (value_str s) = Unit
  IsPlain (value_array vs) = ArePlain vs
  IsPlain (value_module r) = Unit
  IsPlain (value_method closure r) = closure ≡ false
  IsPlain (value_task t) = Unit

  pub ArePlain : Values → Type 0
  ArePlain values_end = Unit
  ArePlain (values_cons v vs) = IsPlain v × ArePlain vs

abbrev pub HasCell : List Byte → ℕ → Cell → Type 0
HasCell bytes at c = read_cell bytes at ≡ done c

abbrev mutual
  -- The cells and the characters of the value lie in the block from the offset on.
  pub IsLaid : Value → List Byte → ℕ → Type 0
  IsLaid value_nil bytes at = ⊥
  IsLaid value_other bytes at = ⊥
  IsLaid (value_int n) bytes at = HasCell bytes at (cell_int n)
  IsLaid (value_str s) bytes at =
      HasCell bytes at (cell_str (at + 24) (length s))
      × ((load bytes (at + 24) (length s) >>= chars_of) ≡ done s)
  IsLaid (value_array vs) bytes at =
      HasCell bytes at (cell_array (at + 24) (count vs)) × AreLaid vs bytes (at + 24)
  IsLaid (value_module r) bytes at = HasCell bytes at (cell_module r)
  IsLaid (value_method closure r) bytes at = HasCell bytes at (cell_method r) × (closure ≡ false)
  IsLaid (value_task t) bytes at = HasCell bytes at (cell_task t)

  pub AreLaid : Values → List Byte → ℕ → Type 0
  AreLaid values_end bytes at = Unit
  AreLaid (values_cons v vs) bytes at = IsLaid v bytes at × AreLaid vs bytes (at + used v)

abbrev mutual
  -- What decoding does to tasks: the new object takes a reference, and the one of the message goes.
  pub settled : Value → List TaskEvent → List TaskEvent
  settled value_nil log = log
  settled value_other log = log
  settled (value_int n) log = log
  settled (value_str s) log = log
  settled (value_array vs) log = settled_all vs log
  settled (value_module r) log = log
  settled (value_method closure r) log = log
  settled (value_task t) log = unref t ∷ ref t ∷ log

  pub settled_all : Values → List TaskEvent → List TaskEvent
  settled_all values_end log = log
  settled_all (values_cons v vs) log = settled_all vs (settled v log)
