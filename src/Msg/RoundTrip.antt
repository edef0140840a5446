-- ===== src/Msg/RoundTrip.antt =====
-- Packing a value and unpacking the message.
use chimp.Common.{
  ℕ, ◌+◌, ◌≤◌, ◌≡◌, refl, ap, ◌∙◌, false, none, some, Option, List, arith, length, ◌==◌,
  Option-cases, inl, inr, ◌⊎◌,
}
use chimp.Common.Runs.{Run, done}
use chimp.Memory.{Allocator}
use chimp.Msg.{
  Value, value_nil, value_other, value_int, value_str, value_array, value_module, value_method,
  value_task, Values, values_end, values_cons, Byte, TaskEvent, Msg, value_cell_size,
  items_cell_size, pack,
}
use chimp.Msg.Unpack.{unpack}
use chimp.Msg.Layout.{used, used_all, IsLaid, IsPlain, ArePlain, settled}
use chimp.Msg.Decode.{decode_lem}
use chimp.Msg.Encode.{retained, encode_lem}

mutual
  unfolding value_cell_size items_cell_size

  size_value :
      (v : Value) → IsPlain v → (n : ℕ) × (value_cell_size v ≡ done n) × (used v ≤ n) × (24 ≤ n)
  size_value value_nil p = absurd p
  size_value value_other p = absurd p
  size_value (value_int i) p = (24, refl, omega arith, omega arith)
  size_value (value_str s) p = (24 + length s + 1, refl, omega arith, omega arith)
  size_value (value_array vs) p =
      let (n, e, le) = size_items vs 24 p in (24 + n, e, omega arith, omega arith)
  size_value (value_module r) p = (24, refl, omega arith, omega arith)
  size_value (value_method closure r) p = (24, refl, omega arith, omega arith)
  size_value (value_task t) p = (24 + 8, refl, omega arith, omega arith)

  size_items :
      (vs : Values) (size : ℕ)
      → ArePlain vs
      → (n : ℕ) × (items_cell_size vs size ≡ done (size + n)) × (used_all vs ≤ n)
  size_items values_end size p = (0, ap done (omega arith), omega arith)
  size_items (values_cons v vs) size (p, ps) =
      let (n, e, le, _) = size_value v p in
      let (k, e', le') = size_items vs (size + n) ps in
      (n + k, rw e (e' ∙ ap done (omega arith)), omega arith)

-- The computed size of a plain value is at least what its encoder moves on.
size_lem :
    (v : Value) → IsPlain v → (n : ℕ) × (value_cell_size v ≡ done n) × (used v ≤ n) × (24 ≤ n)
size_lem v p = size_value v p

-- What `chimp_msg_pack` gives: a message in whose block the value lies, or NULL where memory for the
-- block is refused.
abbrev pub Packed :
    Allocator Byte → Value → List TaskEvent → Run (Option Msg × List TaskEvent) → Type 0
Packed m v log run =
    ((msg : Msg) × (run ≡ done (some msg, retained v log))
      × IsLaid v msg.bytes msg.cell
      × (used v + 24 ≤ msg.size)
      × (length msg.bytes ≡ msg.size))
    ⊎ ((run ≡ done (none, log))
        × ((n : ℕ) × (value_cell_size v ≡ done n) × (m.alloc (24 + n) ≡ none)))

-- Packing a plain value never writes outside the block whose size was computed before, and returns: a
-- message in whose block the value lies, with a reference taken to each task in it, or NULL and no
-- reference where memory for the block is refused.
pub pack_lem :
    (m : Allocator Byte) (v : Value) (log : List TaskEvent)
    → IsPlain v
    → Packed m v log (pack m v log)
unfolding pack
pack_lem m v log p =
    let (n, e, le, big) = size_lem v p in
    let nonzero : (n == 0) ≡ false = ground arith in
    elim (Option-cases (m.alloc (24 + n))) [
      | inl refused ↦ inr (rw e (rw nonzero (rw refused)), (n, e, refused))
      | inr (b, granted) ↦
          let len = m.alloc_length (24 + n) b granted in
          let (o', run, moved, laid) =
            encode_lem v (record { bytes = b; at = 24; log = log }) p (omega arith) in
          inl (
            record { size = 24 + n; bytes = o'.bytes; cell = 24 },
            rw e (
                rw nonzero (
                  rw granted (
                    rw run (
                      ap
                        (λ l.
                          done (some (record { size = 24 + n; bytes = o'.bytes; cell = 24 }), l))
                        moved.logged)))),
            laid,
            omega arith,
            moved.same_length ∙ len,
          )
    ]

-- Unpacking the message that packing a plain value gave returns that value, and it takes and gives up
-- a reference to each task in it.
pub unpack-pack :
    (m : Allocator Byte) (v : Value) (log log' log'' : List TaskEvent) (msg : Msg)
    → IsPlain v
    → pack m v log ≡ done (some msg, log')
    → unpack msg log'' ≡ done (v, settled v log'')
unfolding unpack
unpack-pack m v log log' log'' msg p e = elim (pack_lem m v log p) [
  | inr (q, _) ↦ cc
  | inl (msg', q, laid, le, _) ↦
      let same : msg' ≡ msg = cc in
      rw⁻¹ same (rw (decode_lem msg'.bytes v msg'.size msg'.cell log'' laid (omega arith)) refl)
]
