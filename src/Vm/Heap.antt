-- ===== src/Vm/Heap.antt =====
-- libchimp/vm.c: the machine's own stack, and the objects that it reads and makes. A cast of a
-- reference to another class aborts, as `chimp_gc_ref_check_cast` does.
use chimp.Common.{ℕ, Bool, true, false, none, some, ◌==◌, if◌then◌else◌}
use chimp.Common.Int.{negsuc}
use chimp.Common.Runs.{Run, done, bug}
use chimp.Memory.{Allocator}
use chimp.Array
use chimp.Array.{Array}
use chimp.Hash
use chimp.Hash.{Hash}
use chimp.Table.{Looked}
use chimp.Code.{Code}
use chimp.Code.Instr.{instr_arg1}
use chimp.Vm.{
  Machine, Callees, Globals, Method, Frame, Object, array_object, hash_object, var_object,
  frame_object, method_object, code_object, other_object,
}
use chimp.Vm.Act.{Act, return, abort, lift, ◌>>=◌}

-- The checked casts
unfoldable pub as_array : Object → Run (Array ℕ)
as_array (array_object a) = done a
as_array _ = bug

unfoldable pub as_hash : Object → Run (Hash ℕ ℕ)
as_hash (hash_object h) = done h
as_hash _ = bug

unfoldable pub as_frame : Object → Run Frame
as_frame (frame_object f) = done f
as_frame _ = bug

unfoldable pub as_method : Object → Run Method
as_method (method_object m) = done m
as_method _ = bug

unfoldable pub as_code : Object → Run (Code ℕ × ℕ × ℕ)
as_code (code_object c vars freevars) = done (c, vars, freevars)
as_code _ = bug

-- `CHIMP_ANY_CLASS (ref) == chimp_var_class`
abbrev pub is_var : Object → Bool
is_var (var_object v) = true
is_var _ = false

module _ {W : Type 0} where
  abbrev pub set_stack : Array ℕ → Act (Machine W) (Unit {0})
  set_stack stack vm = done (tt, record vm { stack = stack })

  abbrev pub set_frames : Array ℕ → Act (Machine W) (Unit {0})
  set_frames frames vm = done (tt, record vm { frames = frames })

  -- The object behind a reference; NULL fails each cast.
  abbrev pub fetch : ℕ → Act (Machine W) Object
  fetch ref vm = done (if ref == 0 then other_object else vm.objects ref, vm)

  abbrev pub store : ℕ → Object → Act (Machine W) (Unit {0})
  store ref o vm = done (tt, record vm { objects = λ r. if r == ref then o else vm.objects r })

  -- `CHIMP_VAR (ref)->value` and its assignment
  unfoldable pub var_value : ℕ → Act (Machine W) ℕ
  var_value ref = fetch ref >>= λ o. elim o [ var_object v ↦ return v | _ ↦ abort ]

  unfoldable pub set_var_value : ℕ → ℕ → Act (Machine W) (Unit {0})
  set_var_value ref v =
      fetch ref >>= λ o. elim o [ var_object _ ↦ store ref (var_object v) | _ ↦ abort ]

  module _ (mem : Allocator ℕ) (globals : Globals) where
    -- `chimp_vm_pop`, `chimp_vm_top` and `chimp_vm_push`; `chimp_array_push` aborts where it could fail, so
    -- that its result is always true.
    unfoldable pub pop : Act (Machine W) ℕ
    pop vm = (lift (Array.pop globals.nil vm.stack) >>= λ r. set_stack r.1 >>= λ _. return r.0) vm

    unfoldable pub top : Act (Machine W) ℕ
    top vm = lift (Array.last globals.nil vm.stack) vm

    unfoldable pub push : ℕ → Act (Machine W) (Unit {0})
    push v vm = (lift (Array.push mem vm.stack v) >>= set_stack) vm

    -- `chimp_array_push` and `chimp_array_pop` of the frames, and `CHIMP_ARRAY_LAST`
    unfoldable pub push_frame : ℕ → Act (Machine W) (Unit {0})
    push_frame ref vm = (lift (Array.push mem vm.frames ref) >>= set_frames) vm

    unfoldable pub pop_frame : Act (Machine W) ℕ
    pop_frame vm =
        (lift (Array.pop globals.nil vm.frames) >>= λ r. set_frames r.1 >>= λ _. return r.0) vm

    unfoldable pub last_frame : Act (Machine W) ℕ
    last_frame vm = lift (Array.get globals.nil vm.frames (negsuc 0)) vm

    -- `CHIMP_INSTR_CONST1` and `CHIMP_INSTR_NAME1` of the instruction word `w`
    unfoldable pub const1 : Code ℕ → ℕ → Act (Machine W) ℕ
    const1 code w vm = lift (Array.item globals.nil code.constants (instr_arg1 w)) vm

    unfoldable pub name1 : Code ℕ → ℕ → Act (Machine W) ℕ
    name1 code w vm = lift (Array.item globals.nil code.names (instr_arg1 w)) vm

    module _ (callees : Callees W) where
      -- A new object of the collector, filled in
      unfoldable pub new_object : Object → Act (Machine W) ℕ
      new_object o = callees.new_ref >>= λ ref. store ref o >>= λ _. return ref

      -- `chimp_array_new_with_capacity`, `chimp_array_unshift` and `chimp_hash_new`; 0 is NULL.
      unfoldable pub array_new_with_capacity : ℕ → Act (Machine W) ℕ
      array_new_with_capacity capacity = elim (Array.new_with_capacity mem capacity) [
        | none ↦ return 0
        | some a ↦ new_object (array_object a)
      ]

      unfoldable pub array_unshift : ℕ → ℕ → Act (Machine W) (Unit {0})
      array_unshift ref v = do
        o ← fetch ref
        a ← lift (as_array o)
        a' ← lift (Array.unshift mem a v)
        store ref (array_object a')

      unfoldable pub hash_new : Act (Machine W) ℕ
      hash_new = new_object (hash_object Hash.empty)

      -- `chimp_hash_put` and `chimp_hash_get`
      unfoldable pub hash_put : ℕ → ℕ → ℕ → Act (Machine W) Bool
      hash_put ref key v vm =
          (do
            o ← fetch ref
            h ← lift (as_hash o)
            r ← lift (Hash.put (callees.cmp vm) mem mem h key v)
            _ ← store ref (hash_object r.1)
            return r.0)
            vm

      unfoldable pub hash_get : ℕ → ℕ → Act (Machine W) (Looked ℕ)
      hash_get ref key vm =
          (do o ← fetch ref; h ← lift (as_hash o); lift (Hash.get (callees.cmp vm) h key)) vm
