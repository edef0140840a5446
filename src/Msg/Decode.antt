-- ===== src/Msg/Decode.antt =====
-- Decoding a block in which a value lies gives the value back.
use chimp.Common.{ℕ, zero, suc, ◌+◌, ◌≤◌, ◌≡◌, sym, ap, ◌∙◌, List, arith, length}
use chimp.Common.Runs.{done, ◌>>=◌}
use chimp.Msg.{
  Value, value_nil, value_other, value_int, value_str, value_array, value_module, value_method,
  value_task, Values, values_end, values_cons, count, Cell, cell_int, cell_str, cell_array,
  cell_module, cell_method, cell_task, Byte, TaskEvent,
}
use chimp.Msg.Unpack.{In, items_decode, cell_decode, value_cell_decode}
use chimp.Msg.Layout.{used, used_all, HasCell, IsLaid, AreLaid, settled, settled_all}

module _ (bytes : List Byte) where
  abbrev place : ℕ → List TaskEvent → In
  place at log = record { at = at; log = log }

  cell_decode_at :
      (fuel at : ℕ) (log : List TaskEvent) (c : Cell)
      → HasCell bytes at c
      → value_cell_decode (suc fuel) bytes (place at log)
        ≡ cell_decode (value_cell_decode fuel bytes) bytes (place at log) c
  unfolding value_cell_decode
  cell_decode_at fuel at log c e = rw e

  abbrev Decodes : Value → ℕ → ℕ → List TaskEvent → Type 0
  Decodes v fuel at log =
      value_cell_decode fuel bytes (place at log) ≡ done (v, place (at + used v) (settled v log))

  abbrev DecodesAll : Values → ℕ → ℕ → List TaskEvent → Type 0
  DecodesAll vs fuel at log =
      items_decode (value_cell_decode fuel bytes) (count vs) (place at log)
      ≡ done (vs, place (at + used_all vs) (settled_all vs log))

  used_pos : (v : Value) (at : ℕ) → IsLaid v bytes at → 24 ≤ used v
  used_pos value_nil at l = absurd l
  used_pos value_other at l = absurd l
  used_pos (value_int n) at l = omega arith
  used_pos (value_str s) at l = omega arith
  used_pos (value_array vs) at l = omega arith
  used_pos (value_module r) at l = omega arith
  used_pos (value_method closure r) at l = omega arith
  used_pos (value_task t) at l = omega arith

  items_decode_cons :
      (v : Value) (vs : Values) (fuel at : ℕ) (log : List TaskEvent)
      → Decodes v fuel at log
      → DecodesAll vs fuel (at + used v) (settled v log)
      → DecodesAll (values_cons v vs) fuel at log
  unfolding items_decode
  items_decode_cons v vs fuel at log e es = rw e (
      rw es
        (ap (λ n. done (values_cons v vs, place n (settled_all vs (settled v log)))) (omega arith)))

  mutual
    unfolding cell_decode items_decode

    decode_value :
        (v : Value) (fuel at : ℕ) (log : List TaskEvent)
        → IsLaid v bytes at
        → used v ≤ fuel
        → Decodes v fuel at log
    decode_value v zero at log l le = absurd (omega (arith, used_pos v at l))
    decode_value value_nil (suc fuel) at log l le = absurd l
    decode_value value_other (suc fuel) at log l le = absurd l
    decode_value (value_int n) (suc fuel) at log l le = cell_decode_at fuel at log (cell_int n) l
    decode_value (value_str s) (suc fuel) at log (c, l) le =
        cell_decode_at fuel at log (cell_str (at + 24) (length s)) c
        ∙ ap (λ r. r >>= λ t. done (value_str t, place (at + (24 + length s + 1)) log)) l
    decode_value (value_array vs) (suc fuel) at log (c, l) le =
        cell_decode_at fuel at log (cell_array (at + 24) (count vs)) c
        ∙ ap (λ r. r >>= λ (ws, inp). done (value_array ws, inp))
            (decode_items vs fuel (at + 24) log l (omega arith))
        ∙ ap (λ n. done (value_array vs, place n (settled_all vs log))) (omega arith)
    decode_value (value_module r) (suc fuel) at log l le =
        cell_decode_at fuel at log (cell_module r) l
    decode_value (value_method closure r) (suc fuel) at log (c, e) le =
        cell_decode_at fuel at log (cell_method r) c
        ∙ ap (λ b. done (value_method b r, place (at + 24) log)) (sym e)
    decode_value (value_task t) (suc fuel) at log l le = cell_decode_at fuel at log (cell_task t) l

    decode_items :
        (vs : Values) (fuel at : ℕ) (log : List TaskEvent)
        → AreLaid vs bytes at
        → used_all vs ≤ fuel
        → DecodesAll vs fuel at log
    decode_items values_end fuel at log l le =
        ap (λ n. done (values_end, place n log)) (omega arith)
    decode_items (values_cons v vs) fuel at log (l, ls) le =
        items_decode_cons v vs fuel at log (decode_value v fuel at log l (omega arith))
          (decode_items vs fuel (at + used v) (settled v log) ls (omega arith))

  pub decode_lem :
      (v : Value) (fuel at : ℕ) (log : List TaskEvent)
      → IsLaid v bytes at
      → used v ≤ fuel
      → value_cell_decode fuel bytes (record { at = at; log = log })
        ≡ done (v, record { at = at + used v; log = settled v log })
  decode_lem v fuel at log l le = decode_value v fuel at log l le
