-- ===== src/Code/Decode.antt =====
-- The words of code.c decode to what they were made of.
use Prim.Native.Nat.{bit_or}
use chimp.Common.{ℕ, ◌+◌, ◌*◌, ◌%◌, ◌^◌, ◌<◌, ◌≡◌, ap, ◌∙◌, arith}
use chimp.Common.Bits.{bit_or_apart}
use chimp.Code.Instr.{Opcode, opcode, make_instr0, make_instr1, instr_op, instr_addr, instr_arg1}

opcode-lt : (op : Opcode) → opcode op < 29
opcode-lt op = grind arith

-- The words as sums
pub make_instr0_sum : (op : Opcode) → make_instr0 op ≡ opcode op * 2 ^ 24
unfolding make_instr0
make_instr0_sum op = omega (arith, opcode-lt op)

pub make_instr1_sum :
    (op : Opcode) (n : ℕ) → make_instr1 op n ≡ opcode op * 2 ^ 24 + n % 2 ^ 8 * 2 ^ 16
unfolding make_instr1
make_instr1_sum op n =
    bit_or_apart 24 (opcode op % 2 ^ 8) (n % 2 ^ 8 * 2 ^ 16) (omega arith)
    ∙ omega (arith, opcode-lt op)

pub jump_sum :
    (op : Opcode) (n : ℕ) → bit_or (make_instr0 op) (n % 2 ^ 24) ≡ opcode op * 2 ^ 24 + n % 2 ^ 24
jump_sum op n =
    ap (λ w. bit_or w (n % 2 ^ 24)) (make_instr0_sum op)
    ∙ bit_or_apart 24 (opcode op) (n % 2 ^ 24) (omega arith)

-- A word with an argument decodes to its operation and to the low 8 bits of the argument.
pub decode_instr1 :
    (op : Opcode) (n : ℕ)
    → (instr_op (make_instr1 op n) ≡ opcode op) × (instr_arg1 (make_instr1 op n) ≡ n % 2 ^ 8)
unfolding instr_op instr_arg1
decode_instr1 op n = (
  omega (arith, opcode-lt op, make_instr1_sum op n),
  omega (arith, opcode-lt op, make_instr1_sum op n),
)

-- A word with an address decodes to its operation and to the low 24 bits of the address.
pub decode_sum :
    (op : Opcode) (a : ℕ)
    → a < 2 ^ 24
    → (instr_op (opcode op * 2 ^ 24 + a) ≡ opcode op) × (instr_addr (opcode op * 2 ^ 24 + a) ≡ a)
unfolding instr_op instr_addr
decode_sum op a h = (omega (arith, opcode-lt op), omega arith)
