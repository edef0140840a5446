-- ===== src/Vm.antt =====
-- libchimp/vm.c: the state of a virtual machine, its value stack, and what it asks of other components.
-- A reference is a number and NULL is 0. The arrays of the value stack and of the frames are fields, and
-- the other objects that the machine reads or writes stand in the store.
pub mod Act
pub mod Heap
pub mod Names
pub mod Build
pub mod Frames
pub mod Exec
pub mod Stack
pub mod Operands
pub mod Branches
pub mod Variables
pub mod Collections
pub mod Emitted
pub mod Fuel
mod Tests
use chimp.Common.{ℕ}
use chimp.Common.Runs.{Run}
use chimp.Compare.{CmpResult}
use chimp.Array.{Array}
use chimp.Hash.{Hash}
use chimp.Code.{Code}

-- `ChimpMethodType` of method.h
pub data MethodType : Type 0 where
  native bytecode closure : MethodType

-- `ChimpMethod` of method.h: the `code` of a bytecode method and that of a closure are one field of the
-- union, a native method has a function there instead.
pub record Method : Type 0 where
  pub self : ℕ
  pub type : MethodType
  pub module_ref : ℕ
  pub code : ℕ
  pub bindings : ℕ

-- `ChimpFrame` of frame.h
pub record Frame : Type 0 where
  pub method : ℕ
  pub locals : ℕ

-- The objects whose fields the machine uses; `var` is `ChimpVar` of var.h with its value. `vars` and
-- `freevars` of a code object are arrays.
pub data Object : Type 0 where
  array_object : Array ℕ → Object
  hash_object : Hash ℕ ℕ → Object
  var_object : ℕ → Object
  frame_object : Frame → Object
  method_object : Method → Object
  code_object : Code ℕ → ℕ → ℕ → Object
  other_object : Object

-- `ChimpVM`, with the store and with whatever else `W` the callees change
pub record Machine (W : Type 0) : Type 0 where
  pub stack : Array ℕ
  pub frames : Array ℕ
  pub objects : ℕ → Object
  pub world : W

-- What the machine calls: object.c, task.c, and the collector for a new object.
pub record Callees (W : Type 0) : Type 0 where
  pub cmp : Machine W → ℕ → ℕ → CmpResult
  pub class_of : Machine W → ℕ → ℕ
  pub new_ref : Machine W → Run (ℕ × Machine W)
  pub object_add : ℕ → ℕ → Machine W → Run (ℕ × Machine W)
  pub object_sub : ℕ → ℕ → Machine W → Run (ℕ × Machine W)
  pub object_mul : ℕ → ℕ → Machine W → Run (ℕ × Machine W)
  pub object_div : ℕ → ℕ → Machine W → Run (ℕ × Machine W)
  pub object_getattr : ℕ → ℕ → Machine W → Run (ℕ × Machine W)
  pub object_getitem : ℕ → ℕ → Machine W → Run (ℕ × Machine W)
  pub object_call : ℕ → ℕ → Machine W → Run (ℕ × Machine W)
  pub task_new : ℕ → Machine W → Run (ℕ × Machine W)

-- The objects that every machine knows: `chimp_nil`, `chimp_true`, `chimp_false` and `chimp_builtins`.
pub record Globals : Type 0 where
  pub nil : ℕ
  pub chimp_true : ℕ
  pub chimp_false : ℕ
  pub builtins : ℕ
