-- ===== src/Vm/Frames.antt =====
-- libchimp/frame.c: a frame and its locals, libchimp/var.c: a variable.
use chimp.Common.{ℕ, zero, suc, Bool, true, false, if◌then◌else◌}
use chimp.Memory.{Allocator, read}
use chimp.Array
use chimp.Array.{Array}
use chimp.Hash.{Hash}
use chimp.Vm.{Machine, Callees, Globals, Method, native, closure, var_object, frame_object}
use chimp.Vm.Act.{Act, return, lift, ◌>>=◌}
use chimp.Vm.Heap.{
  as_array, as_hash, as_frame, as_method, as_code, fetch, new_object, hash_new, hash_put,
}

module _ {W : Type 0} (mem : Allocator ℕ) (globals : Globals) (callees : Callees W) where
  -- `chimp_var_new`: the value is NULL.
  unfoldable pub var_new : Act (Machine W) ℕ
  var_new = new_object mem globals callees (var_object 0)

  -- The loop of `_chimp_frame_init` over the variables of the code, with `k` rounds left
  unfoldable pub init_vars : ℕ → ℕ → ℕ → ℕ → Act (Machine W) Bool
  init_vars vars locals zero i = return true
  init_vars vars locals (suc k) i = do
    o ← fetch vars
    names ← lift (as_array o)
    varname ← lift (Array.item globals.nil names i)
    ref ← var_new
    ok ← hash_put mem globals callees locals varname ref
    if ok then init_vars vars locals k (suc i) else return false

  -- The loop of `_chimp_frame_init` over the bindings of a closure
  unfoldable pub init_bindings : Hash ℕ ℕ → ℕ → ℕ → ℕ → Act (Machine W) Bool
  init_bindings bindings locals zero i = return true
  init_bindings bindings locals (suc k) i = do
    varname ← lift (read bindings.keys i)
    v ← lift (read bindings.values i)
    ok ← hash_put mem globals callees locals varname v
    if ok then init_bindings bindings locals k (suc i) else return false

  -- The bindings of a closure, after the variables
  unfoldable pub init_closure : Method → ℕ → Act (Machine W) Bool
  init_closure method locals = elim method.type [
    | closure ↦ (do
      o ← fetch method.bindings
      bindings ← lift (as_hash o)
      init_bindings bindings locals bindings.size 0)
    | _ ↦ return true
  ]

  -- `_chimp_frame_init` behind the new locals; false is NULL.
  unfoldable pub init_locals : Method → ℕ → Act (Machine W) Bool
  init_locals method locals = elim method.type [
    | native ↦ return true
    | _ ↦ (do
      o ← fetch method.code
      c ← lift (as_code o)
      names ← fetch c.1
      vars ← lift (as_array names)
      ok ← init_vars c.1 locals vars.size 0
      if ok then init_closure method locals else return false)
  ]

  -- `chimp_frame_new` with `_chimp_frame_init`; 0 is NULL.
  unfoldable pub frame_new : ℕ → Act (Machine W) ℕ
  frame_new ref = do
    locals ← hash_new mem globals callees
    o ← fetch ref
    method ← lift (as_method o)
    ok ← init_locals method locals
    if ok
        then new_object mem globals callees
            (frame_object (record { method = ref; locals = locals }))
        else return 0

  -- `CHIMP_FRAME_CODE`: a native method has no code object, and neither has one that is no method.
  unfoldable pub frame_code : ℕ → Act (Machine W) ℕ
  frame_code ref = do
    o ← fetch ref
    frame ← lift (as_frame o)
    o' ← fetch frame.method
    method ← lift (as_method o')
    return method.code
