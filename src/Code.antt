-- ===== src/Code.antt =====
-- libchimp/code.c: code objects, their constants and names, and labels. `cmp` is `chimp_object_cmp`.
-- A function that changes `*self` or `*label` returns it.
pub mod Instr
pub mod Emit
pub mod Decode
pub mod Valid
pub mod Consts
pub mod Labels
pub mod Jumps
pub mod EmitJump
mod Tests
use Prim.Native.Nat.{bit_or}
use chimp.Common.{
  ℕ, zero, suc, ◌+◌, ◌-◌, ◌%◌, ◌^◌, Bool, true, false, Option, none, some, List, [], ltb,
  if◌then◌else◌,
}
use chimp.Common.Int.{ℤ, pos, negsuc, int32}
use chimp.Common.Runs.{Run, done, bug, ◌>>=◌}
use chimp.Compare.{CmpResult}
use chimp.Memory.{Allocator, realloc, read, write}
use chimp.Array
use chimp.Array.{Array}
use chimp.Array.Methods
use chimp.Code.Instr.{
  Opcode, make_instr0, make_instr1, opcode_pushnil, opcode_getclass, opcode_getitem, opcode_ret,
  opcode_spawn, opcode_not, opcode_dup, opcode_makeclosure, opcode_cmpeq, opcode_cmpneq,
  opcode_cmpgt, opcode_cmpgte, opcode_cmplt, opcode_cmplte, opcode_add, opcode_sub, opcode_mul,
  opcode_div, opcode_pop, opcode_call, opcode_makearray, opcode_makehash, opcode_jumpiftrue,
  opcode_jumpiffalse, opcode_jump, opcode_pushconst, opcode_pushname, opcode_storename,
  opcode_getattr,
}

-- `vars` and `freevars` are the symbol table's and are left out.
pub record Code (A : Type 0) : Type 0 where
  pub constants : Array A
  pub names : Array A
  pub bytecode : List ℕ
  pub used : ℕ
  pub allocated : ℕ

pub record Label : Type 0 where
  pub patchlist : List ℕ
  pub patchlist_size : ℕ
  pub addr : ℕ
  pub in_use : Bool

-- `CHIMP_LABEL_INIT`
abbrev pub label_init : Label
label_init = record { patchlist = []; patchlist_size = 0; addr = 0; in_use = false }

-- The loop of `chimp_code_use_label`, with `k` rounds left
unfoldable pub patch : List ℕ → ℕ → ℕ → ℕ → List ℕ → Run (List ℕ)
patch patchlist addr zero i bytecode = done bytecode
patch patchlist addr (suc k) i bytecode = do
  p ← read patchlist i
  w ← read bytecode p
  bytecode' ← write bytecode p (bit_or w (addr % 2 ^ 24))
  patch patchlist addr k (suc i) bytecode'

module _ {A : Type 0} where
  -- `chimp_code_use_label`; `chimp_label_free` leaves no patch list.
  unfoldable pub use_label : Code A → Label → Run (Code A × Label)
  unfolding patch
  use_label self label =
      if label.in_use
      then bug
      else patch label.patchlist self.used label.patchlist_size 0 self.bytecode >>= (λ bytecode.
        done (
          record self { bytecode = bytecode },
          record label { patchlist = []; addr = self.used; in_use = true },
        ))

  -- `CHIMP_NEXT_INSTR (self) = w`
  unfoldable pub next_instr : Code A → ℕ → Run (Code A)
  next_instr self w =
      write self.bytecode self.used w
      >>= (λ bytecode. done (record self { bytecode = bytecode; used = self.used + 1 }))

  module _ (words : Allocator ℕ) where
    -- `chimp_code_get_jump_addr` of a label that is not in use
    unfoldable pub add_patch : Code A → Label → Run (Option ℕ × Label)
    add_patch self label = elim (realloc words label.patchlist (label.patchlist_size + 1)) [
      | none ↦ done (none, label)
      | some patchlist ↦ write patchlist label.patchlist_size self.used >>= (λ patchlist'. done (
        some 0,
        record label { patchlist = patchlist'; patchlist_size = label.patchlist_size + 1 },
      ))
    ]

    -- `chimp_code_get_jump_addr`; `none` where memory runs out
    unfoldable pub get_jump_addr : Code A → Label → Run (Option ℕ × Label)
    get_jump_addr self label =
        if label.in_use then done (some label.addr, label) else add_patch self label

    -- `chimp_code_grow`
    unfoldable pub grow : Code A → Bool × Code A
    grow self =
        if ltb self.used self.allocated
        then (true, self)
        else elim (realloc words self.bytecode (self.allocated + 32)) [
          | none ↦ (false, self)
          | some bytecode ↦
              (true, record self { bytecode = bytecode; allocated = self.allocated + 32 })
        ]
