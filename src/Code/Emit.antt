-- ===== src/Code/Emit.antt =====
-- libchimp/code.c: the emitters, one for each instruction. `words` is the allocator of instruction
-- words and of patch lists, `objects` that of the arrays of constants and names.
use Prim.Native.Nat.{bit_or}
use chimp.Common.{ℕ, ◌-◌, ◌%◌, ◌^◌, Bool, true, false, Option, none, some, [], if◌then◌else◌}
use chimp.Common.Int.{ℤ, pos, negsuc, int32}
use chimp.Common.Runs.{Run, done, ◌>>=◌}
use chimp.Compare.{CmpResult}
use chimp.Memory.{Allocator}
use chimp.Array
use chimp.Array.{Array}
use chimp.Array.Methods
use chimp.Code.Instr.{
  Opcode, make_instr0, make_instr1, opcode_pushnil, opcode_getclass, opcode_getitem, opcode_ret,
  opcode_spawn, opcode_not, opcode_dup, opcode_makeclosure, opcode_cmpeq, opcode_cmpneq,
  opcode_cmpgt, opcode_cmpgte, opcode_cmplt, opcode_cmplte, opcode_add, opcode_sub, opcode_mul,
  opcode_div, opcode_pop, opcode_call, opcode_makearray, opcode_makehash, opcode_jumpiftrue,
  opcode_jumpiffalse, opcode_jump, opcode_pushconst, opcode_pushname, opcode_storename,
  opcode_getattr,
}
use chimp.Code.{Code, Label, get_jump_addr, grow, next_instr}

-- `chimp_array_find` as an `int32_t`
unfoldable pub found_index : Option ℕ → ℤ
found_index none = negsuc 0
found_index (some i) = int32 i

module _ {A : Type 0} where
  module _ (words : Allocator ℕ) where
    -- An emitter: it makes room, and then it stores the word.
    unfoldable pub emit : Code A → ℕ → Run (Bool × Code A)
    unfolding grow next_instr
    emit self w =
        let (ok, self') = grow words self in
        if ok then next_instr self' w >>= (λ c. done (true, c)) else done (false, self')

    unfoldable pub pushnil : Code A → Run (Bool × Code A)
    unfolding emit
    pushnil self = emit self (make_instr0 opcode_pushnil)

    unfoldable pub getclass : Code A → Run (Bool × Code A)
    unfolding emit
    getclass self = emit self (make_instr0 opcode_getclass)

    unfoldable pub getitem : Code A → Run (Bool × Code A)
    unfolding emit
    getitem self = emit self (make_instr0 opcode_getitem)

    unfoldable pub ret : Code A → Run (Bool × Code A)
    unfolding emit
    ret self = emit self (make_instr0 opcode_ret)

    unfoldable pub spawn : Code A → Run (Bool × Code A)
    unfolding emit
    spawn self = emit self (make_instr0 opcode_spawn)

    unfoldable pub not : Code A → Run (Bool × Code A)
    unfolding emit
    not self = emit self (make_instr0 opcode_not)

    unfoldable pub dup : Code A → Run (Bool × Code A)
    unfolding emit
    dup self = emit self (make_instr0 opcode_dup)

    unfoldable pub makeclosure : Code A → Run (Bool × Code A)
    unfolding emit
    makeclosure self = emit self (make_instr0 opcode_makeclosure)

    unfoldable pub eq : Code A → Run (Bool × Code A)
    unfolding emit
    eq self = emit self (make_instr0 opcode_cmpeq)

    unfoldable pub neq : Code A → Run (Bool × Code A)
    unfolding emit
    neq self = emit self (make_instr0 opcode_cmpneq)

    unfoldable pub gt : Code A → Run (Bool × Code A)
    unfolding emit
    gt self = emit self (make_instr0 opcode_cmpgt)

    unfoldable pub gte : Code A → Run (Bool × Code A)
    unfolding emit
    gte self = emit self (make_instr0 opcode_cmpgte)

    unfoldable pub lt : Code A → Run (Bool × Code A)
    unfolding emit
    lt self = emit self (make_instr0 opcode_cmplt)

    unfoldable pub lte : Code A → Run (Bool × Code A)
    unfolding emit
    lte self = emit self (make_instr0 opcode_cmplte)

    unfoldable pub add : Code A → Run (Bool × Code A)
    unfolding emit
    add self = emit self (make_instr0 opcode_add)

    unfoldable pub sub : Code A → Run (Bool × Code A)
    unfolding emit
    sub self = emit self (make_instr0 opcode_sub)

    unfoldable pub mul : Code A → Run (Bool × Code A)
    unfolding emit
    mul self = emit self (make_instr0 opcode_mul)

    unfoldable pub div : Code A → Run (Bool × Code A)
    unfolding emit
    div self = emit self (make_instr0 opcode_div)

    unfoldable pub pop : Code A → Run (Bool × Code A)
    unfolding emit
    pop self = emit self (make_instr0 opcode_pop)

    -- `nargs` is a `uint8_t`.
    unfoldable pub call : Code A → ℕ → Run (Bool × Code A)
    unfolding emit
    call self nargs = emit self (make_instr1 opcode_call nargs)

    unfoldable pub makearray : Code A → ℕ → Run (Bool × Code A)
    unfolding emit
    makearray self nargs = emit self (make_instr1 opcode_makearray nargs)

    unfoldable pub makehash : Code A → ℕ → Run (Bool × Code A)
    unfolding emit
    makehash self nargs = emit self (make_instr1 opcode_makehash nargs)

    -- `CHIMP_JUMP_INSTR`, behind the room made for the word; on an error it frees the label's patch list.
    unfoldable pub jump_instr : Opcode → Code A → Label → Run (Bool × (Code A × Label))
    jump_instr op self label = do
      (jump_addr, label') ← get_jump_addr words self label
      elim jump_addr [
        | none ↦ done (false, (self, record label' { patchlist = [] }))
        | some addr ↦
            next_instr self (bit_or (make_instr0 op) (addr % 2 ^ 24))
            >>= (λ self'. done (true, (self', label')))
      ]

    -- A jump to a label that is not NULL
    unfoldable pub emit_jump : Opcode → Code A → Label → Run (Bool × (Code A × Label))
    emit_jump op self label =
        let (ok, self') = grow words self in
        if ok then jump_instr op self' label else done (false, (self', label))

    unfoldable pub jumpiftrue : Code A → Label → Run (Bool × (Code A × Label))
    unfolding emit_jump
    jumpiftrue = emit_jump opcode_jumpiftrue

    unfoldable pub jumpiffalse : Code A → Label → Run (Bool × (Code A × Label))
    unfolding emit_jump
    jumpiffalse = emit_jump opcode_jumpiffalse

    unfoldable pub jump : Code A → Label → Run (Bool × (Code A × Label))
    unfolding emit_jump
    jump = emit_jump opcode_jump

    module _ (cmp : A → A → CmpResult) (nil : A) (objects : Allocator A) where
      -- `chimp_code_add_const` and `chimp_code_add_name` on the array that each is about, behind the search
      unfoldable pub add_at : Array A → A → ℤ → Run (ℤ × Array A)
      add_at items value (pos n) = done (pos n, items)
      add_at items value (negsuc _) =
          Array.push objects items value >>= λ items'. done (int32 (items'.size - 1), items')

      unfoldable pub add_item : Array A → A → Run (ℤ × Array A)
      add_item items value = do
        r ← Methods.find nil cmp items value
        add_at items value (found_index r)

      unfoldable pub add_const : Code A → A → Run (ℤ × Code A)
      add_const self value = add_item self.constants value >>= λ (n, constants).
          done (n, record self { constants = constants })

      unfoldable pub add_name : Code A → A → Run (ℤ × Code A)
      add_name self id =
          add_item self.names id >>= λ (n, names). done (n, record self { names = names })

      -- The word with the index that `add_const` or `add_name` gives, which is not -1
      unfoldable pub indexed : Opcode → ℤ × Code A → Run (Bool × Code A)
      unfolding next_instr
      indexed op (pos arg, self) = next_instr self (make_instr1 op arg) >>= λ c. done (true, c)
      indexed op (negsuc _, self) = done (false, self)

      unfoldable pub pushconst : Code A → A → Run (Bool × Code A)
      pushconst self value =
          let (ok, self') = grow words self in
          if ok then add_const self' value >>= indexed opcode_pushconst else done (false, self')

      -- The three emitters that name something
      unfoldable pub emit_name : Opcode → Code A → A → Run (Bool × Code A)
      emit_name op self id =
          let (ok, self') = grow words self in
          if ok then add_name self' id >>= indexed op else done (false, self')

      unfoldable pub pushname : Code A → A → Run (Bool × Code A)
      unfolding emit_name
      pushname = emit_name opcode_pushname

      unfoldable pub storename : Code A → A → Run (Bool × Code A)
      unfolding emit_name
      storename = emit_name opcode_storename

      unfoldable pub getattr : Code A → A → Run (Bool × Code A)
      unfolding emit_name
      getattr = emit_name opcode_getattr
