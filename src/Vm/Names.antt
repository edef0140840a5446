-- ===== src/Vm/Names.antt =====
-- libchimp/vm.c: the instructions about constants, names and attributes. `w` is the instruction word. A
-- result that is false or 0 stands for CHIMP_FALSE or NULL.
use chimp.Common.{
  ℕ, zero, suc, Bool, true, false, not, ◌&&◌, Option, none, some, leb, ◌==◌, if◌then◌else◌,
}
use chimp.Memory.{Allocator}
use chimp.Array
use chimp.Array.{Array}
use chimp.Table.{Looked, error, missing, value}
use chimp.Code.{Code}
use chimp.Vm.{Machine, Callees, Globals}
use chimp.Vm.Act.{Act, return, abort, lift, ◌>>=◌}
use chimp.Vm.Heap.{
  as_frame, as_method, fetch, var_value, set_var_value, is_var, pop, push, last_frame, const1,
  name1, hash_get,
}

module _ {W : Type 0} (mem : Allocator ℕ) (globals : Globals) (callees : Callees W) where
  -- `chimp_vm_pushconst`
  unfoldable pub pushconst : Code ℕ → ℕ → Act (Machine W) Bool
  pushconst code w = do
    v ← const1 mem globals code w
    if v == 0 then abort else (push mem globals v >>= λ _. return true)

  -- `chimp_vm_storename`
  unfoldable pub storename : Code ℕ → ℕ → ℕ → Act (Machine W) Bool
  storename code locals w = do
    target ← name1 mem globals code w
    if target == 0 then abort else (do
      v ← pop mem globals
      if v == 0 then abort else (do
        r ← hash_get mem globals callees locals target
        elim r [ value var ↦ (set_var_value var v >>= λ _. return true) | _ ↦ abort ]))

  -- `CHIMP_FRAME (frame)->locals`
  abbrev pub locals_of : ℕ → Act (Machine W) ℕ
  locals_of ref = fetch ref >>= λ o. lift (as_frame o) >>= λ f. return f.locals

  -- A name found among the locals of a frame, dereferenced if that is no binding
  unfoldable pub deref : Bool → ℕ → Act (Machine W) ℕ
  deref binding v = fetch v >>= λ o. if not binding && is_var o then var_value v else return v

  -- The walk of `chimp_vm_resolvename` through the frames below `i`
  unfoldable pub walk_frames : ℕ → Bool → ℕ → Act (Machine W) (Looked ℕ)
  walk_frames name binding zero vm = return missing vm
  walk_frames name binding (suc i) vm =
      let rest : Act (Machine W) (Looked ℕ) = walk_frames name binding i in
      (do
        ref ← lift (Array.item globals.nil vm.frames i)
        locals ← locals_of ref
        r ← hash_get mem globals callees locals name
        elim r [
          | error ↦ return error
          | value v ↦ (deref binding v >>= λ v'. return (value v'))
          | missing ↦ rest
        ])
        vm

  -- The lookup in the last frame
  unfoldable pub in_last_frame : ℕ → Bool → Act (Machine W) (Looked ℕ)
  in_last_frame name binding = do
    ref ← last_frame mem globals
    if ref == 0 then return error else (do
      locals ← locals_of ref
      r ← hash_get mem globals callees locals name
      elim r [
        | error ↦ return error
        | value v ↦ (deref binding v >>= λ v'. return (value v'))
        | missing ↦ return missing
      ])

  -- `chimp_vm_resolvename` behind the module
  unfoldable pub in_builtins : ℕ → Act (Machine W) (Option ℕ)
  in_builtins name = do
    r ← hash_get mem globals callees globals.builtins name
    elim r [ error ↦ return none | value v ↦ return (some v) | missing ↦ abort ]

  -- `chimp_vm_resolvename` behind the locals
  unfoldable pub in_module : ℕ → Act (Machine W) (Option ℕ)
  in_module name = do
    ref ← last_frame mem globals
    o ← fetch ref
    frame ← lift (as_frame o)
    o' ← fetch frame.method
    method ← lift (as_method o')
    if method.module_ref == 0 then in_builtins name else (do
      v ← callees.object_getattr method.module_ref name
      if v == 0 then in_builtins name else return (some v))

  -- `chimp_vm_resolvename`; `none` is CHIMP_FALSE.
  unfoldable pub resolvename : ℕ → Bool → Act (Machine W) (Option ℕ)
  resolvename name binding vm =
      (do
        r ←
            if binding && leb 1 vm.frames.size
            then walk_frames name binding vm.frames.size
            else in_last_frame name binding
        elim r [ error ↦ return none | value v ↦ return (some v) | missing ↦ in_module name ])
        vm

  -- `chimp_vm_pushname`
  unfoldable pub pushname : Code ℕ → ℕ → Act (Machine W) Bool
  pushname code w = do
    name ← name1 mem globals code w
    if name == 0 then abort else (do
      r ← resolvename name false
      elim r [ none ↦ return false | some v ↦ (push mem globals v >>= λ _. return true) ])

  -- `chimp_vm_getattr`
  unfoldable pub getattr : Code ℕ → ℕ → Act (Machine W) Bool
  getattr code w = do
    attr ← name1 mem globals code w
    if attr == 0 then return false else (do
      target ← pop mem globals
      if target == 0 then return false else (do
        result ← callees.object_getattr target attr
        if result == 0 then return false else (push mem globals result >>= λ _. return true)))
