-- ===== src/Msg.antt =====
-- libchimp/msg.c: values that tasks send each other, packed in one block of bytes. The objects that a
-- message refers to are numbers; memory for the objects that decoding creates is granted.
pub mod Unpack
pub mod Layout
pub mod Decode
pub mod Store
pub mod Encode
pub mod RoundTrip
pub mod Nil
mod Tests
use chimp.Common.{
  ℕ, zero, suc, ◌+◌, Bool, true, false, Option, none, some, List, [], ◌∷◌, map, length, take, drop,
  replicate, leb, ◌==◌, if◌then◌else◌,
}
use chimp.Common.Int.{ℤ}
use chimp.Common.Runs.{Run, done, bug, fault, ◌>>=◌}
use chimp.Memory.{Allocator, memcpy}

-- The values by their class: nil, int, str, array, module, method (with whether it is a closure), task,
-- and any other.
mutual
  pub data Value : Type 0 where
    value_nil value_other : Value
    value_int : ℤ → Value
    value_str : List ℕ → Value
    value_array : Values → Value
    value_module : ℕ → Value
    value_method : Bool → ℕ → Value
    value_task : ℕ → Value

  pub data Values : Type 0 where
    values_end : Values
    values_cons : Value → Values → Values

abbrev pub count : Values → ℕ
count values_end = 0
count (values_cons v vs) = suc (count vs)

-- `ChimpMsgCell`; the pointers are offsets in the block.
pub data Cell : Type 0 where
  cell_nil : Cell
  cell_int : ℤ → Cell
  cell_str : ℕ → ℕ → Cell
  cell_array : ℕ → ℕ → Cell
  cell_module cell_method cell_task : ℕ → Cell

-- A byte of the block: the first one of a cell, a further one of the same cell, a character, or
-- whatever the memory held.
pub data Byte : Type 0 where
  unset rest : Byte
  head : Cell → Byte
  char : ℕ → Byte

-- `sizeof (ChimpMsgCell)` with pointers of 8 bytes
abbrev pub cell_size : ℕ
cell_size = 24

-- `sizeof (ChimpMsgInternal)`
abbrev pub header_size : ℕ
header_size = 24

-- What happens to the count of references of a task.
pub data TaskEvent : Type 0 where
  ref unref : ℕ → TaskEvent

unfoldable mutual
  -- `chimp_msg_value_cell_size`
  pub value_cell_size : Value → Run ℕ
  value_cell_size value_nil = done cell_size
  value_cell_size value_other = bug
  value_cell_size (value_int n) = done cell_size
  value_cell_size (value_str s) = done (cell_size + length s + 1)
  value_cell_size (value_array vs) = items_cell_size vs cell_size
  value_cell_size (value_module r) = done cell_size
  value_cell_size (value_method closure r) = done cell_size
  value_cell_size (value_task t) = done (cell_size + 8)

  -- The loop of `chimp_msg_array_cell_size`
  pub items_cell_size : Values → ℕ → Run ℕ
  items_cell_size values_end size = done size
  items_cell_size (values_cons v vs) size = value_cell_size v >>= λ n. items_cell_size vs (size + n)

-- The block, the position `*buf_ptr` in it, and what was done to tasks, last first.
pub record Out : Type 0 where
  pub bytes : List Byte
  pub at : ℕ
  pub log : List TaskEvent

-- A cell written at the position, which is left behind it
unfoldable pub cell_encode : Cell → Out → Run Out
cell_encode cell out = memcpy out.bytes out.at (head cell ∷ replicate 23 rest) >>= λ bytes.
    done (record out { bytes = bytes; at = out.at + cell_size })

-- `chimp_msg_nil_cell_encode`: it writes the type, and `*buf_ptr` is as before.
unfoldable pub nil_cell_encode : Out → Run Out
nil_cell_encode out = memcpy out.bytes out.at (head cell_nil ∷ replicate 3 rest) >>= λ bytes.
    done (record out { bytes = bytes })

-- `chimp_msg_str_cell_encode`; the byte behind the characters is left as it is.
unfoldable pub str_cell_encode : List ℕ → Out → Run Out
str_cell_encode s out = do
  out' ← cell_encode (cell_str (out.at + cell_size) (length s)) out
  bytes ← memcpy out'.bytes out'.at (map char s)
  done (record out' { bytes = bytes; at = out'.at + length s + 1 })

unfoldable mutual
  -- `chimp_msg_value_cell_encode`
  pub value_cell_encode : Value → Out → Run Out
  value_cell_encode value_nil out = nil_cell_encode out
  value_cell_encode value_other out = bug
  value_cell_encode (value_int n) out = cell_encode (cell_int n) out
  value_cell_encode (value_str s) out = str_cell_encode s out
  value_cell_encode (value_array vs) out =
      cell_encode (cell_array (out.at + cell_size) (count vs)) out >>= items_encode vs
  value_cell_encode (value_module r) out = cell_encode (cell_module r) out
  value_cell_encode (value_method true r) out = bug
  value_cell_encode (value_method false r) out = cell_encode (cell_method r) out
  value_cell_encode (value_task t) out =
      cell_encode (cell_task t) (record out { log = ref t ∷ out.log })

  -- The loop of `chimp_msg_array_cell_encode`
  pub items_encode : Values → Out → Run Out
  items_encode values_end out = done out
  items_encode (values_cons v vs) out = value_cell_encode v out >>= items_encode vs

-- `ChimpMsgInternal`, with the bytes of its block and the offset of `cell`
pub record Msg : Type 0 where
  pub size : ℕ
  pub bytes : List Byte
  pub cell : ℕ

-- `chimp_msg_pack`; `none` is NULL.
unfoldable pub pack : Allocator Byte → Value → List TaskEvent → Run (Option Msg × List TaskEvent)
pack m value log = do
  n ← value_cell_size value
  if n == 0 then done (none, log) else elim (m.alloc (header_size + n)) [
    | none ↦ done (none, log)
    | some block ↦
        value_cell_encode value (record { bytes = block; at = header_size; log = log }) >>= λ out.
        done
          (some (record { size = header_size + n; bytes = out.bytes; cell = header_size }), out.log)
  ]
