-- ===== src/Vm/Tests.antt =====
-- A machine with numbers for objects, and two items on its stack.
use chimp.Common.{
  ℕ, ◌+◌, ◌-◌, ◌*◌, ◌/◌, ◌<◌, ◌≡◌, ◌↔◌, refl, Bool, true, some, List, [], ◌∷◌, ◌++◌, arith, length,
  ◌==◌, if◌then◌else◌, ◌⊎◌, replicate,
}
use chimp.Common.Int.{negsuc}
use chimp.Common.Runs.{Run, done}
use chimp.Compare.{eq}
use chimp.Memory.{Allocator, read}
use chimp.Array
use chimp.Array.{Array}
use chimp.Array.Valid.{contents}
use chimp.Hash
use chimp.Hash.{Hash}
use chimp.Table.{value, scan}
use chimp.Code.{Code}
use chimp.Code.Emit
use chimp.Code.Valid
use chimp.Code.Valid.{IsReady}
use chimp.Code.Instr.{
  instr_addr, instr_arg1, instr_op, opcode_call, opcode_storename, opcode_pushname,
  opcode_jumpiffalse, opcode_jumpiftrue,
}
use chimp.Samples.{granting, compare}
use chimp.Vm.{
  Machine, Callees, Globals, Object, other_object, hash_object, var_object, frame_object,
  code_object,
}
use chimp.Vm.Exec.{goto, bool_ref, exec, step, leave, round, opcode_of, eval_loop}
use chimp.Vm.Heap.{as_code, pop, pop_frame}
use chimp.Vm.Stack.{Grants, Leaves}
use chimp.Vm.Operands.{
  less, minus, comparison_opcode, operator_opcode, relation, order, compare_lem, arith_lem,
}
use chimp.Vm.Branches.{Falsy, jumps_lem}
use chimp.Vm.Collections.{Gathered, call_lem}
use chimp.Vm.Variables.{IsLocal, pushname-storename}
use chimp.Vm.Emitted.{step-pushconst}

abbrev memory : Allocator ℕ
memory = granting 0

memory-Grants : Grants memory
memory-Grants n = (replicate n 0, refl)

abbrev constants : Globals
constants = record { nil = 1; chimp_true = 2; chimp_false = 3; builtins = 4 }

abbrev of_items : List ℕ → Array ℕ
of_items xs = record { items = xs ++ 0 ∷ 0 ∷ []; size = length xs; capacity = length xs + 2 }

-- A variable at 30 under the name 40, among the locals at 31 of the frame at 32
abbrev store : ℕ → Object
store r =
    if r == 30
    then var_object 0
    else (if r == 31
        then hash_object (record { keys = 40 ∷ []; values = 30 ∷ []; size = 1 })
        else (if r == 32 then frame_object (record { method = 33; locals = 31 }) else other_object))

abbrev machine : List ℕ → Machine (Unit {0})
machine xs = record {
  stack = of_items xs;
  frames = of_items (32 ∷ []);
  objects = store;
  world = tt;
}

abbrev called_at : Machine (Unit {0}) → Machine (Unit {0})
called_at vm = record vm { objects = λ r. if r == 30 then var_object 8 else vm.objects r }

-- Numbers compare and compute as themselves, a new object has the reference 100, and a call stores 8 in
-- the variable at 30 and gives 7.
abbrev numbers : Callees (Unit {0})
numbers = record {
  cmp = λ vm l r. order l r;
  class_of = λ vm r. 5;
  new_ref = λ vm. done (100, vm);
  object_add = λ l r vm. done (l + r, vm);
  object_sub = λ l r vm. done (l - r, vm);
  object_mul = λ l r vm. done (l * r, vm);
  object_div = λ l r vm. done (l / r, vm);
  object_getattr = λ t n vm. done (0, vm);
  object_getitem = λ t k vm. done (0, vm);
  object_call = λ t a vm. done (7, called_at vm);
  task_new = λ t vm. done (0, vm);
}

two : IsReady (of_items (20 ∷ 10 ∷ []))
two = record { valid = record { fits = omega arith; allocated = omega arith }; room = omega arith }

three : IsReady (of_items (9 ∷ 20 ∷ 10 ∷ []))
three = record {
  valid = record { fits = omega arith; allocated = omega arith };
  room = omega arith;
}

none : IsReady (of_items [])
none = record { valid = record { fits = omega arith; allocated = omega arith }; room = omega arith }

abbrev program : Code ℕ
program = record {
  constants = of_items [];
  names = of_items (40 ∷ []);
  bytecode = [];
  used = 0;
  allocated = 0;
}

compare_lem_example :
    Leaves memory constants
      (exec memory constants numbers program 0 0 0
        (comparison_opcode less)
        (machine (20 ∷ 10 ∷ [])))
      (machine (20 ∷ 10 ∷ []))
      (goto 1)
      ([] ++ bool_ref memory constants numbers (relation less 20 10) ∷ [])
compare_lem_example =
    compare_lem memory constants numbers less program 0 0 0 (machine (20 ∷ 10 ∷ [])) [] 20 10 20 10
      memory-Grants two refl (omega arith) (omega arith) (λ st. refl)

arith_lem_example :
    Leaves memory constants
      (exec memory constants numbers program 0 0 0 (operator_opcode minus) (machine (20 ∷ 10 ∷ [])))
      (machine (20 ∷ 10 ∷ []))
      (goto 1)
      ([] ++ 10 ∷ [])
arith_lem_example =
    arith_lem memory constants numbers minus program 0 0 0 (machine (20 ∷ 10 ∷ []))
      (machine (20 ∷ 10 ∷ [])) [] 20 10 10 memory-Grants two refl (omega arith) (omega arith)
      (λ st. refl)

jumps_lem_example :
    (b : Bool) × ((b ≡ true) ↔ Falsy memory constants numbers 10)
    × Leaves memory constants
        (exec memory constants numbers program 0 6 0 opcode_jumpiffalse (machine (20 ∷ 10 ∷ [])))
        (machine (20 ∷ 10 ∷ []))
        (goto (if b then instr_addr 6 else 1))
        (20 ∷ [])
    × Leaves memory constants
        (exec memory constants numbers program 0 6 0 opcode_jumpiftrue (machine (20 ∷ 10 ∷ [])))
        (machine (20 ∷ 10 ∷ []))
        (goto (if b then 1 else instr_addr 6))
        (20 ∷ [])
jumps_lem_example =
    jumps_lem memory constants numbers program 0 6 0 10 (machine (20 ∷ 10 ∷ [])) (20 ∷ []) two refl
      (omega arith)

-- The word of an instruction with the argument 2
two_args : 2 ≡ instr_arg1 131072
unfolding instr_arg1
two_args = refl

call_lem_example :
    (called : Machine (Unit {0})) × (st : Array ℕ) × Gathered memory constants numbers
      (machine (9 ∷ 20 ∷ 10 ∷ []))
      called
      100
      []
      (20 ∷ 10 ∷ [])
    × (exec memory constants numbers program 0 131072 0 opcode_call (machine (9 ∷ 20 ∷ 10 ∷ []))
        ≡ done (goto 1, record (called_at called) { stack = st }))
    × IsReady st
    × (contents st ≡ [] ++ 7 ∷ [])
call_lem_example =
    call_lem memory constants numbers program 0 131072 0 (machine (9 ∷ 20 ∷ 10 ∷ [])) 100 tt []
      (20 ∷ 10 ∷ []) 9 (λ called. 7) called_at memory-Grants three refl two_args
      (omega arith, (omega arith, tt)) refl (omega arith) (omega arith)
      (λ called g. (refl, omega arith, g.ready, refl))

names_item : Array.item 1 program.names (instr_arg1 0) ≡ done 40
unfolding Array.item Array.get Array.real_index read instr_arg1
names_item = refl

locals_found :
    (m : Machine (Unit {0}))
    → Hash.get {V = ℕ} (numbers.cmp m) (record { keys = 40 ∷ []; values = 30 ∷ []; size = 1 }) 40
      ≡ done (value 30)
unfolding Hash.get Hash.find scan read
locals_found m = refl

last_frame_is : Array.get 1 (machine (20 ∷ 10 ∷ [])).frames (negsuc 0) ≡ done 32
unfolding Array.get Array.real_index read
last_frame_is = refl

variable : IsLocal memory constants numbers program 0 (machine (20 ∷ 10 ∷ [])) 31 30
variable = record {
  name = 40;
  name_set = omega arith;
  names = names_item;
  h = record { keys = 40 ∷ []; values = 30 ∷ []; size = 1 };
  locals_set = omega arith;
  locals_hash = refl;
  found = locals_found;
  var_set = omega arith;
  old = 0;
  var_is = refl;
  fr = 32;
  fr_set = omega arith;
  last = last_frame_is;
  method_ref = 33;
  fr_is = refl;
}

-- What runs between leaves 5 alone on the stack.
abbrev meanwhile : Machine (Unit {0}) → Machine (Unit {0})
meanwhile m = record m { stack = of_items (5 ∷ []); world = tt }

one : IsReady (of_items (5 ∷ []))
one = record { valid = record { fits = omega arith; allocated = omega arith }; room = omega arith }

meanwhile-IsLocal :
    (m : Machine (Unit {0}))
    → IsLocal memory constants numbers program 0 m 31 30
    → IsLocal memory constants numbers program 0 (meanwhile m) 31 30
meanwhile-IsLocal m l = record {
  name = l.name;
  name_set = l.name_set;
  names = l.names;
  h = l.h;
  locals_set = l.locals_set;
  locals_hash = l.locals_hash;
  found = l.found;
  var_set = l.var_set;
  old = l.old;
  var_is = l.var_is;
  fr = l.fr;
  fr_set = l.fr_set;
  last = l.last;
  method_ref = l.method_ref;
  fr_is = l.fr_is;
}

pushname-storename_example :
    (vm1 : Machine (Unit {0})) × (vm2 : Machine (Unit {0})) × (exec memory constants numbers program
        31 0 0 opcode_storename
        (machine (20 ∷ 10 ∷ []))
      ≡ done (goto 1, vm1))
    × (contents vm1.stack ≡ 20 ∷ [])
    × (exec memory constants numbers program 31 0 6 opcode_pushname (meanwhile vm1)
        ≡ done (goto 7, vm2))
    × IsReady vm2.stack
    × (contents vm2.stack ≡ (5 ∷ []) ++ 10 ∷ [])
pushname-storename_example =
    pushname-storename memory constants numbers program 31 0 0 0 6 30 10 (machine (20 ∷ 10 ∷ []))
      (20 ∷ []) meanwhile memory-Grants variable two refl (omega arith)
      (λ m l r. (meanwhile-IsLocal m l, one, refl))

program-IsValid : Valid.IsValid program
program-IsValid = record {
  fits = omega arith;
  words = refl;
  constants = none;
  names = record {
    valid = record { fits = omega arith; allocated = omega arith };
    room = omega arith;
  };
}

-- The code object behind a call that emits, and one that emits the constant 8 in an empty code object
abbrev code_of : Run (Bool × Code ℕ) → Code ℕ
code_of (done (ok, c)) = c
code_of _ = program

abbrev emitted : Code ℕ
emitted = code_of (Emit.pushconst memory compare 1 memory program 8)

emitted_run : Emit.pushconst memory compare 1 memory program 8 ≡ done (true, emitted)
unfolding Emit.pushconst chimp.Code.grow chimp.Memory.realloc Emit.add_const Emit.add_item
    chimp.Array.Methods.find Emit.add_at Emit.found_index Array.push Array.grow chimp.Memory.write
    Emit.indexed
emitted_run = refl

compare_set : (x : ℕ) → compare x 8 ≡ eq → 0 < x
compare_set x e = ground arith

step-pushconst_example :
    (x : ℕ) × ((x ≡ 8) ⊎ (compare x 8 ≡ eq))
    × Leaves memory constants
        (step memory constants numbers emitted 0 0 (machine (20 ∷ 10 ∷ [])))
        (machine (20 ∷ 10 ∷ []))
        (goto 1)
        ((20 ∷ 10 ∷ []) ++ x ∷ [])
step-pushconst_example =
    step-pushconst memory constants numbers compare memory memory program emitted 8 0
      (machine (20 ∷ 10 ∷ [])) program-IsValid (omega arith) emitted_run (omega arith) compare_set
      memory-Grants two

-- A machine that has a code object with the one instruction RET at 50
abbrev running : Machine (Unit {0})
running = record (machine (20 ∷ 10 ∷ [])) {
  objects = λ r.
      if r == 50
      then code_object (record program { bytecode = 352321536 ∷ []; used = 1; allocated = 1 }) 0 0
      else store r;
}

abbrev returned : Machine (Unit {0})
returned = record running {
  stack = record (of_items (20 ∷ 10 ∷ [])) { size = 1 };
  frames = record (of_items (32 ∷ [])) { size = 0 };
}

running_loop : eval_loop memory constants numbers 1 50 31 0 running ≡ done (some 10, returned)
unfolding eval_loop round step exec leave opcode_of instr_op as_code pop pop_frame read Array.pop
running_loop = refl
