-- ===== src/Msg/Nil.antt =====
-- An array with nil before another item.
use chimp.Common.{◌++◌, ◌≡◌, refl, some, List, ◌∷◌, replicate}
use chimp.Common.Int.{ℤ}
use chimp.Common.Runs.{done, fault}
use chimp.Memory.{Allocator}
use chimp.Msg.{
  Value, value_nil, value_int, value_array, Values, values_end, values_cons, Byte, unset, rest,
  head, cell_array, cell_int, TaskEvent, Msg, pack,
}
use chimp.Msg.Unpack.{unpack}

-- The array of nil and an int.
abbrev pub nil_first : ℤ → Value
nil_first n = value_array (values_cons value_nil (values_cons (value_int n) values_end))

-- With fresh memory, packing the array of nil and any int returns a message whose size has room for three
-- cells, and unpacking that message reads a cell that was never written.
pub unpack-nil_first :
    (m : Allocator Byte) (n : ℤ) (log : List TaskEvent)
    → m.alloc 96 ≡ some (replicate 96 unset)
    → (msg : Msg) × (pack m (nil_first n) log ≡ done (some msg, log))
      × (msg.size ≡ 96)
      × (unpack msg log ≡ fault)
unfolding pack unpack chimp.Msg.value_cell_size chimp.Msg.value_cell_encode chimp.Msg.cell_encode
    chimp.Msg.nil_cell_encode chimp.Memory.memcpy chimp.Msg.Unpack.value_cell_decode
    chimp.Msg.Unpack.cell_decode chimp.Msg.Unpack.items_decode chimp.Msg.Unpack.read_cell
    chimp.Msg.Unpack.load
unpack-nil_first m n log granted = (
  record {
    size = 96;
    bytes =
        replicate 24 unset
        ++ (head (cell_array 48 2) ∷ replicate 23 rest
            ++ (head (cell_int n) ∷ replicate 23 rest ++ replicate 24 unset));
    cell = 24;
  },
  rw granted refl,
  refl,
  refl,
)
