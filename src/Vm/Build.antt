-- ===== src/Vm/Build.antt =====
-- libchimp/vm.c: the instructions that take a number of items off the stack.
use chimp.Common.{ℕ, zero, suc, Bool, true, false, ◌||◌, none, some, ◌==◌, if◌then◌else◌}
use chimp.Memory.{Allocator}
use chimp.Array
use chimp.Array.{Array}
use chimp.Code.Instr.{instr_arg1}
use chimp.Vm.{Machine, Callees, Globals, bytecode, closure, method_object}
use chimp.Vm.Act.{Act, return, abort, lift, ◌>>=◌}
use chimp.Vm.Heap.{
  as_array, as_method, as_code, fetch, pop, push, new_object, array_new_with_capacity,
  array_unshift, hash_new, hash_put,
}
use chimp.Vm.Names.{resolvename}

module _ {W : Type 0} (mem : Allocator ℕ) (globals : Globals) (callees : Callees W) where
  -- The loop of `chimp_vm_call`, with `k` rounds left
  unfoldable pub pop_args : ℕ → ℕ → Act (Machine W) (Unit {0})
  pop_args args zero = return tt
  pop_args args (suc k) = do
    v ← pop mem globals
    array_unshift mem globals callees args v >>= λ _. pop_args args k

  -- `chimp_vm_call`
  unfoldable pub call : ℕ → Act (Machine W) Bool
  call w = do
    args ← array_new_with_capacity mem globals callees (instr_arg1 w)
    if args == 0 then return false else (do
      _ ← pop_args args (instr_arg1 w)
      target ← pop mem globals
      if target == 0 then return false else (do
        result ← callees.object_call target args
        if result == 0 then abort else (push mem globals result >>= λ _. return true)))

  -- The loop of `chimp_vm_makearray`, with `k` rounds left
  unfoldable pub pop_items : ℕ → ℕ → Act (Machine W) Bool
  pop_items ref zero = return true
  pop_items ref (suc k) = do
    v ← pop mem globals
    if v == 0
        then return false
        else (array_unshift mem globals callees ref v >>= λ _. pop_items ref k)

  -- `chimp_vm_makearray`
  unfoldable pub makearray : ℕ → Act (Machine W) Bool
  makearray w = do
    ref ← array_new_with_capacity mem globals callees (instr_arg1 w)
    if ref == 0 then return false else (do
      ok ← pop_items ref (instr_arg1 w)
      if ok then (push mem globals ref >>= λ _. return true) else return false)

  -- The loop of `chimp_vm_makehash`, with `k` rounds left
  unfoldable pub pop_pairs : ℕ → ℕ → Act (Machine W) Bool
  pop_pairs ref zero = return true
  pop_pairs ref (suc k) = do
    v ← pop mem globals
    if v == 0 then return false else (do
      key ← pop mem globals
      if (key == 0) || (key == globals.nil) then return false else (do
        ok ← hash_put mem globals callees ref key v
        if ok then pop_pairs ref k else return false))

  -- `chimp_vm_makehash`
  unfoldable pub makehash : ℕ → Act (Machine W) Bool
  makehash w = do
    ref ← hash_new mem globals callees
    if ref == 0 then return false else (do
      ok ← pop_pairs ref (instr_arg1 w)
      if ok then (push mem globals ref >>= λ _. return true) else return false)

  -- The loop of `chimp_vm_makeclosure`, with `k` rounds left
  unfoldable pub bind_freevars : ℕ → ℕ → ℕ → ℕ → Act (Machine W) Bool
  bind_freevars freevars bindings zero i = return true
  bind_freevars freevars bindings (suc k) i = do
    o ← fetch freevars
    names ← lift (as_array o)
    varname ← lift (Array.item globals.nil names i)
    r ← resolvename mem globals callees varname true
    elim r [
      | none ↦ return false
      | some v ↦ (do
        ok ← hash_put mem globals callees bindings varname v
        if ok then bind_freevars freevars bindings k (suc i) else return false)
    ]

  -- `chimp_method_new_closure` of method.c
  unfoldable pub method_new_closure : ℕ → ℕ → Act (Machine W) ℕ
  method_new_closure ref bindings = do
    o ← fetch ref
    method ← lift (as_method o)
    elim method.type [
      | bytecode ↦ new_object mem globals callees (
          method_object (record {
            self = 0;
            type = closure;
            module_ref = method.module_ref;
            code = method.code;
            bindings = bindings;
          }))
      | _ ↦ abort
    ]

  -- `chimp_vm_makeclosure`
  unfoldable pub makeclosure : Act (Machine W) Bool
  makeclosure = do
    bindings ← hash_new mem globals callees
    ref ← pop mem globals
    if (ref == 0) || (ref == globals.nil) then return false else (do
      o ← fetch ref
      method ← lift (as_method o)
      o' ← fetch method.code
      c ← lift (as_code o')
      names ← fetch c.2
      freevars ← lift (as_array names)
      ok ← bind_freevars c.2 bindings freevars.size 0
      if ok
          then (do
            ref' ← method_new_closure ref bindings
            if ref' == 0 then return false else (push mem globals ref' >>= λ _. return true))
          else return false)
