-- ===== src/Msg/Tests.antt =====
-- Messages packed and unpacked at concrete values.
use chimp.Common.{◌≡◌, ◌++◌, refl, some, [], ◌∷◌, replicate}
use chimp.Common.Int.{pos}
use chimp.Common.Runs.{done, fault}
use chimp.Memory.{Allocator}
use chimp.Samples.{granting}
use chimp.Msg.{
  Value, value_int, value_task, value_array, Values, values_end, values_cons, Byte, unset, rest,
  head, cell_array, cell_int, cell_task, TaskEvent, ref, Msg, pack,
}
use chimp.Msg.Unpack.{unpack}
use chimp.Msg.Layout.{settled}
use chimp.Msg.RoundTrip.{Packed, pack_lem, unpack-pack}
use chimp.Msg.Nil.{nil_first, unpack-nil_first}

abbrev request : Value
request = value_array (values_cons (value_int (pos 1)) (values_cons (value_task 7) values_end))

abbrev sent : Msg
sent = record {
  size = 104;
  bytes =
      replicate 24 unset
      ++ (head (cell_array 48 2) ∷ replicate 23 rest
          ++ (head (cell_int (pos 1)) ∷ replicate 23 rest
              ++ (head (cell_task 7) ∷ replicate 23 rest ++ replicate 8 unset)));
  cell = 24;
}

pack-request : pack (granting unset) request [] ≡ done (some sent, ref 7 ∷ [])
unfolding pack chimp.Msg.value_cell_size chimp.Msg.value_cell_encode chimp.Msg.cell_encode
    chimp.Memory.memcpy
pack-request = refl

pack_lem_example : Packed (granting unset) request [] (pack (granting unset) request [])
pack_lem_example = pack_lem (granting unset) request [] (tt, (tt, tt))

unpack-pack_example : unpack sent [] ≡ done (request, settled request [])
unpack-pack_example =
    unpack-pack (granting unset) request [] (ref 7 ∷ []) [] sent (tt, (tt, tt)) pack-request

unpack-nil_first_example :
    (msg : Msg) × (pack (granting unset) (nil_first (pos 5)) [] ≡ done (some msg, []))
    × (msg.size ≡ 96)
    × (unpack msg [] ≡ fault)
unpack-nil_first_example = unpack-nil_first (granting unset) (pos 5) [] refl
