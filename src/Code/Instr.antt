-- ===== src/Code/Instr.antt =====
-- `ChimpOpcode` of libchimp/include/chimp/code.h and the instruction words of code.h and code.c.
use Prim.Native.Nat.{bit_or}
use chimp.Common.{ℕ, ◌*◌, ◌/◌, ◌%◌, ◌^◌}

pub data Opcode : Type 0 where
  opcode_jumpiffalse : Opcode
  opcode_jumpiftrue : Opcode
  opcode_jump : Opcode
  opcode_pushconst : Opcode
  opcode_storename : Opcode
  opcode_pushname : Opcode
  opcode_pushnil : Opcode
  opcode_getattr : Opcode
  opcode_getitem : Opcode
  opcode_call : Opcode
  opcode_makearray : Opcode
  opcode_makehash : Opcode
  opcode_cmpeq : Opcode
  opcode_cmpneq : Opcode
  opcode_cmpgt : Opcode
  opcode_cmpgte : Opcode
  opcode_cmplt : Opcode
  opcode_cmplte : Opcode
  opcode_not : Opcode
  opcode_dup : Opcode
  opcode_pop : Opcode
  opcode_ret : Opcode
  opcode_spawn : Opcode
  opcode_add : Opcode
  opcode_sub : Opcode
  opcode_mul : Opcode
  opcode_div : Opcode
  opcode_makeclosure : Opcode
  opcode_getclass : Opcode

-- The value of the enumerator.
abbrev pub opcode : Opcode → ℕ
opcode opcode_jumpiffalse = 0
opcode opcode_jumpiftrue = 1
opcode opcode_jump = 2
opcode opcode_pushconst = 3
opcode opcode_storename = 4
opcode opcode_pushname = 5
opcode opcode_pushnil = 6
opcode opcode_getattr = 7
opcode opcode_getitem = 8
opcode opcode_call = 9
opcode opcode_makearray = 10
opcode opcode_makehash = 11
opcode opcode_cmpeq = 12
opcode opcode_cmpneq = 13
opcode opcode_cmpgt = 14
opcode opcode_cmpgte = 15
opcode opcode_cmplt = 16
opcode opcode_cmplte = 17
opcode opcode_not = 18
opcode opcode_dup = 19
opcode opcode_pop = 20
opcode opcode_ret = 21
opcode opcode_spawn = 22
opcode opcode_add = 23
opcode opcode_sub = 24
opcode opcode_mul = 25
opcode opcode_div = 26
opcode opcode_makeclosure = 27
opcode opcode_getclass = 28

-- `CHIMP_MAKE_INSTR0` and `CHIMP_MAKE_INSTR1`: `& 0xff` keeps 8 bits.
unfoldable pub make_instr0 : Opcode → ℕ
make_instr0 op = opcode op % 2 ^ 8 * 2 ^ 24

unfoldable pub make_instr1 : Opcode → ℕ → ℕ
make_instr1 op arg1 = bit_or (opcode op % 2 ^ 8 * 2 ^ 24) (arg1 % 2 ^ 8 * 2 ^ 16)

-- `CHIMP_INSTR_OP`, `CHIMP_INSTR_ADDR` and `CHIMP_INSTR_ARG1` of a word
unfoldable pub instr_op : ℕ → ℕ
instr_op w = w % 2 ^ 32 / 2 ^ 24

unfoldable pub instr_addr : ℕ → ℕ
instr_addr w = w % 2 ^ 24

unfoldable pub instr_arg1 : ℕ → ℕ
instr_arg1 w = w % 2 ^ 24 / 2 ^ 16
