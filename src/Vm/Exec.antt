-- ===== src/Vm/Exec.antt =====
-- libchimp/vm.c: the instructions, the loop of `chimp_vm_eval_frame`, and `chimp_vm_invoke`.
use chimp.Common.{
  ℕ, zero, suc, Bool, true, false, not, ◌&&◌, ◌||◌, Option, none, some, List, [], ◌∷◌, ltb, ◌==◌,
  if◌then◌else◌, get_elem?,
}
use chimp.Common.Runs.{done}
use chimp.Compare.{CmpResult, cmp_error, lt, eq, gt}
use chimp.Memory.{Allocator, read}
use chimp.Array
use chimp.Array.{Array}
use chimp.Code.{Code}
use chimp.Code.Instr.{
  Opcode, instr_op, instr_addr, opcode_pushnil, opcode_getclass, opcode_getitem, opcode_ret,
  opcode_spawn, opcode_not, opcode_dup, opcode_makeclosure, opcode_cmpeq, opcode_cmpneq,
  opcode_cmpgt, opcode_cmpgte, opcode_cmplt, opcode_cmplte, opcode_add, opcode_sub, opcode_mul,
  opcode_div, opcode_pop, opcode_call, opcode_makearray, opcode_makehash, opcode_jumpiftrue,
  opcode_jumpiffalse, opcode_jump, opcode_pushconst, opcode_pushname, opcode_storename,
  opcode_getattr,
}
use chimp.Vm.{Machine, Callees, Globals, native, closure, Object, method_object}
use chimp.Vm.Act.{Act, return, abort, lift, ◌>>=◌}
use chimp.Vm.Heap.{
  as_array, as_frame, as_method, as_code, fetch, pop, top, push, push_frame, pop_frame,
}
use chimp.Vm.Names.{pushconst, storename, pushname, getattr}
use chimp.Vm.Build.{call, makearray, makehash, makeclosure}
use chimp.Vm.Frames.{frame_new, frame_code}

-- How a round of the loop ends: at another instruction, at `done`, or in `return NULL`.
pub data Flow : Type 0 where
  goto : ℕ → Flow
  finish null : Flow

-- The enumerators in the order of their values, and the one that a number is
abbrev pub opcodes : List Opcode
opcodes =
    opcode_jumpiffalse ∷ opcode_jumpiftrue ∷ opcode_jump ∷ opcode_pushconst ∷ opcode_storename
    ∷ opcode_pushname ∷ opcode_pushnil ∷ opcode_getattr ∷ opcode_getitem ∷ opcode_call
    ∷ opcode_makearray ∷ opcode_makehash ∷ opcode_cmpeq ∷ opcode_cmpneq ∷ opcode_cmpgt
    ∷ opcode_cmpgte ∷ opcode_cmplt ∷ opcode_cmplte ∷ opcode_not ∷ opcode_dup ∷ opcode_pop
    ∷ opcode_ret ∷ opcode_spawn ∷ opcode_add ∷ opcode_sub ∷ opcode_mul ∷ opcode_div
    ∷ opcode_makeclosure ∷ opcode_getclass ∷ []

unfoldable pub opcode_of : ℕ → Option Opcode
opcode_of n = get_elem? opcodes n

module _ {W : Type 0} (mem : Allocator ℕ) (globals : Globals) (callees : Callees W) where
  -- `chimp_vm_truthy`
  unfoldable pub truthy : ℕ → Bool
  truthy v = not (v == 0) && (not (v == globals.nil) && not (v == globals.chimp_false))

  abbrev pub bool_ref : Bool → ℕ
  bool_ref b = if b then globals.chimp_true else globals.chimp_false

  -- `chimp_vm_cmp`
  unfoldable pub cmp : Act (Machine W) CmpResult
  cmp = do
    right ← pop mem globals
    left ← pop mem globals
    if (left == 0) || (right == 0)
        then abort
        else (λ vm. elim (callees.cmp vm left right) [ cmp_error ↦ abort vm | r ↦ return r vm ])

  -- What each comparison accepts
  abbrev pub accepts : Opcode → CmpResult → Bool
  accepts opcode_cmpeq eq = true
  accepts opcode_cmpneq eq = false
  accepts opcode_cmpneq _ = true
  accepts opcode_cmpgt gt = true
  accepts opcode_cmpgte gt = true
  accepts opcode_cmpgte eq = true
  accepts opcode_cmplt lt = true
  accepts opcode_cmplte lt = true
  accepts opcode_cmplte eq = true
  accepts _ _ = false

  -- The next instruction behind one that leaves `v` on the stack
  abbrev pub push_next : ℕ → ℕ → Act (Machine W) Flow
  push_next pc v = push mem globals v >>= λ _. return (goto (suc pc))

  -- `if (!…) { CHIMP_BUG (…); return NULL; } pc++;`
  abbrev pub checked : ℕ → Act (Machine W) Bool → Act (Machine W) Flow
  checked pc m = m >>= λ ok. if ok then return (goto (suc pc)) else abort

  unfoldable pub compare_instr : Opcode → ℕ → Act (Machine W) Flow
  compare_instr op pc = cmp >>= λ r. push_next pc (bool_ref (accepts op r))

  -- ADD, SUB, MUL and DIV: the result is pushed with no test.
  unfoldable pub arith_instr : (ℕ → ℕ → Act (Machine W) ℕ) → ℕ → Act (Machine W) Flow
  arith_instr f pc = do
    right ← pop mem globals
    if right == 0 then return null else (do
      left ← pop mem globals
      if left == 0 then return null else (f left right >>= push_next pc))

  unfoldable pub getclass_instr : ℕ → Act (Machine W) Flow
  getclass_instr pc = pop mem globals >>= λ v.
      if v == 0 then abort else (λ vm. push_next pc (callees.class_of vm v) vm)

  unfoldable pub getitem_instr : ℕ → Act (Machine W) Flow
  getitem_instr pc = do
    key ← pop mem globals
    if key == 0 then abort else (do
      target ← pop mem globals
      if target == 0 then abort else (do
        result ← callees.object_getitem target key
        if result == 0 then abort else push_next pc result))

  unfoldable pub spawn_instr : ℕ → Act (Machine W) Flow
  spawn_instr pc = do
    target ← pop mem globals
    if target == 0 then return null else (do
      o ← fetch target
      method ← lift (as_method o)
      elim method.type [
        | closure ↦ abort
        | _ ↦ (do
          task ← callees.task_new target
          if task == 0 then return null else push_next pc task)
      ])

  unfoldable pub dup_instr : ℕ → Act (Machine W) Flow
  dup_instr pc = top mem globals >>= λ v. if v == 0 then return null else push_next pc v

  unfoldable pub not_instr : ℕ → Act (Machine W) Flow
  not_instr pc = pop mem globals >>= λ v.
      if v == 0 then return null else push_next pc (bool_ref (not (truthy v)))

  unfoldable pub pop_instr : ℕ → Act (Machine W) Flow
  pop_instr pc = pop mem globals >>= λ v. if v == 0 then return null else return (goto (suc pc))

  unfoldable pub jumpiftrue_instr : ℕ → ℕ → Act (Machine W) Flow
  jumpiftrue_instr w pc = pop mem globals >>= λ v.
      if v == 0 then abort else return (goto (if truthy v then instr_addr w else suc pc))

  unfoldable pub jumpiffalse_instr : ℕ → ℕ → Act (Machine W) Flow
  jumpiffalse_instr w pc = pop mem globals >>= λ v.
      if v == 0
      then abort
      else return
          (goto (if (v == globals.chimp_false) || (v == globals.nil) then instr_addr w else suc pc))

  -- One round of the loop of `chimp_vm_eval_frame`: the instruction `op` whose word is `w`, at `pc`
  unfoldable pub exec : Code ℕ → ℕ → ℕ → ℕ → Opcode → Act (Machine W) Flow
  exec code locals w pc opcode_pushconst = checked pc (pushconst mem globals callees code w)
  exec code locals w pc opcode_storename = checked pc (storename mem globals callees code locals w)
  exec code locals w pc opcode_pushname = checked pc (pushname mem globals callees code w)
  exec code locals w pc opcode_pushnil = push_next pc globals.nil
  exec code locals w pc opcode_getclass = getclass_instr pc
  exec code locals w pc opcode_getattr = checked pc (getattr mem globals callees code w)
  exec code locals w pc opcode_getitem = getitem_instr pc
  exec code locals w pc opcode_call = checked pc (call mem globals callees w)
  exec code locals w pc opcode_ret = return finish
  exec code locals w pc opcode_spawn = spawn_instr pc
  exec code locals w pc opcode_dup = dup_instr pc
  exec code locals w pc opcode_not = not_instr pc
  exec code locals w pc opcode_makearray = checked pc (makearray mem globals callees w)
  exec code locals w pc opcode_makehash = checked pc (makehash mem globals callees w)
  exec code locals w pc opcode_makeclosure = checked pc (makeclosure mem globals callees)
  exec code locals w pc opcode_jumpiftrue = jumpiftrue_instr w pc
  exec code locals w pc opcode_jumpiffalse = jumpiffalse_instr w pc
  exec code locals w pc opcode_jump = return (goto (instr_addr w))
  exec code locals w pc opcode_cmpeq = compare_instr opcode_cmpeq pc
  exec code locals w pc opcode_cmpneq = compare_instr opcode_cmpneq pc
  exec code locals w pc opcode_cmpgt = compare_instr opcode_cmpgt pc
  exec code locals w pc opcode_cmpgte = compare_instr opcode_cmpgte pc
  exec code locals w pc opcode_cmplt = compare_instr opcode_cmplt pc
  exec code locals w pc opcode_cmplte = compare_instr opcode_cmplte pc
  exec code locals w pc opcode_pop = pop_instr pc
  exec code locals w pc opcode_add = arith_instr callees.object_add pc
  exec code locals w pc opcode_sub = arith_instr callees.object_sub pc
  exec code locals w pc opcode_mul = arith_instr callees.object_mul pc
  exec code locals w pc opcode_div = arith_instr callees.object_div pc

  -- The `switch` with its default
  unfoldable pub step : Code ℕ → ℕ → ℕ → Act (Machine W) Flow
  step code locals pc = do
    w ← lift (read code.bytecode pc)
    elim (opcode_of (instr_op w)) [ none ↦ abort | some op ↦ exec code locals w pc op ]

  -- `done:`
  unfoldable pub leave : Act (Machine W) ℕ
  leave = pop_frame mem globals >>= λ _. pop mem globals

  -- What follows a round that ended in a `Flow`, where `rest` goes on with the loop
  abbrev pub after_step : (ℕ → Act (Machine W) (Option ℕ)) → Flow → Act (Machine W) (Option ℕ)
  after_step rest (goto pc') = rest pc'
  after_step rest finish = leave >>= λ v. return (some v)
  after_step rest null = return (some 0)

  -- The test of the loop and its body
  unfoldable pub round : (ℕ → Act (Machine W) (Option ℕ)) → ℕ → ℕ → ℕ → Act (Machine W) (Option ℕ)
  round rest code_ref locals pc = do
    o ← fetch code_ref
    c ← lift (as_code o)
    if ltb pc c.0.used
        then (step c.0 locals pc >>= after_step rest)
        else (leave >>= λ v. return (some v))

  -- The loop of `chimp_vm_eval_frame`, at most `fuel` rounds of it; `none` where they are not enough.
  unfoldable pub eval_loop : ℕ → ℕ → ℕ → ℕ → Act (Machine W) (Option ℕ)
  eval_loop zero code_ref locals pc = return none
  eval_loop (suc fuel) code_ref locals pc =
      round (eval_loop fuel code_ref locals) code_ref locals pc

  -- `chimp_vm_eval_frame`
  unfoldable pub eval_frame : ℕ → ℕ → Act (Machine W) (Option ℕ)
  eval_frame fuel ref = do
    code_ref ← frame_code mem globals callees ref
    o ← fetch ref
    frame ← lift (as_frame o)
    push_frame mem globals ref >>= λ _. eval_loop fuel code_ref frame.locals 0

  -- The loop of `chimp_vm_invoke` that pushes the arguments, with `k` rounds left
  unfoldable pub push_args : ℕ → ℕ → ℕ → Act (Machine W) (Unit {0})
  push_args args zero i = return tt
  push_args args (suc k) i = do
    o ← fetch args
    items ← lift (as_array o)
    v ← lift (Array.item globals.nil items i)
    push mem globals v >>= λ _. push_args args k (suc i)

  -- `CHIMP_ARRAY (vm->stack)->size = size`
  abbrev pub set_stack_size : ℕ → Act (Machine W) (Unit {0})
  set_stack_size size vm = done (tt, record vm { stack = record vm.stack { size = size } })

  -- `CHIMP_IS_BYTECODE_METHOD`
  abbrev pub is_bytecode_method : Object → Bool
  is_bytecode_method (method_object m) = elim m.type [ native ↦ false | _ ↦ true ]
  is_bytecode_method _ = false

  -- `chimp_vm_invoke` of a bytecode method or a closure
  unfoldable pub invoke_frame : ℕ → ℕ → ℕ → Act (Machine W) (Option ℕ)
  invoke_frame fuel ref args vm =
      (do
        frame ← frame_new mem globals callees ref
        if frame == 0 then abort else (do
          o ← fetch args
          items ← lift (as_array o)
          _ ← push_args args items.size 0
          result ← eval_frame fuel frame
          set_stack_size vm.stack.size >>= λ _. return result))
        vm

  -- `chimp_vm_invoke`
  unfoldable pub invoke : ℕ → ℕ → ℕ → Act (Machine W) (Option ℕ)
  invoke fuel ref args = do
    o ← fetch ref
    if is_bytecode_method o
        then invoke_frame fuel ref args
        else (callees.object_call ref args >>= λ v. return (some v))
