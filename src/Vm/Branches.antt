-- ===== src/Vm/Branches.antt =====
-- Conditional jumps, negation, and the stack's lower end.
use chimp.Common.{
  ℕ, suc, ◌<◌, ◌≡◌, ◌≢◌, refl, ap, ◌∙◌, Bool, true, false, not, List, [], ◌∷◌, ◌++◌, ◌||◌, arith,
  ◌==◌, if◌then◌else◌, ◌⊎◌, ◌↔◌,
}
use chimp.Common.Runs.{done}
use chimp.Memory.{Allocator}
use chimp.Array.Valid.{contents}
use chimp.Code.{Code}
use chimp.Code.Valid.{IsReady}
use chimp.Code.Instr.{instr_addr, opcode_jumpiftrue, opcode_jumpiffalse, opcode_not, opcode_pop}
use chimp.Vm.{Machine, Callees, Globals}
use chimp.Vm.Heap.{pop, push}
use chimp.Vm.Exec.{
  goto, bool_ref, truthy, jumpiftrue_instr, jumpiffalse_instr, not_instr, pop_instr, exec,
}
use chimp.Vm.Stack.{Grants, Leaves, pop_lem, pop_empty, push_lem}

-- The four objects are there, and no two of the constants are one object.
pub record IsDistinct (globals : Globals) : Type 0 where
  pub nil_set : 0 < globals.nil
  pub true_set : 0 < globals.chimp_true
  pub false_set : 0 < globals.chimp_false
  pub true_nil : globals.chimp_true ≢ globals.nil
  pub true_false : globals.chimp_true ≢ globals.chimp_false

if_not : (b : Bool) (x y : ℕ) → (if not b then x else y) ≡ (if b then y else x)
if_not true x y = refl
if_not false x y = refl

module _ {W : Type 0} (mem : Allocator ℕ) (globals : Globals) (callees : Callees W) where
  -- What a script takes for false
  abbrev pub Falsy : ℕ → Type 0
  Falsy v = (v ≡ globals.nil) ⊎ (v ≡ globals.chimp_false)

  -- The test of JUMPIFFALSE
  unfoldable falsy : ℕ → Bool
  falsy v = (v == globals.chimp_false) || (v == globals.nil)

  falsy_iff : (v : ℕ) → (falsy v ≡ true) ↔ Falsy v
  unfolding falsy
  falsy_iff v = ground arith

  truthy-falsy : (v : ℕ) → 0 < v → truthy mem globals callees v ≡ not (falsy v)
  unfolding truthy falsy
  truthy-falsy v h = ground arith

  jumpiftrue_run :
      (code : Code ℕ) (locals w pc v : ℕ) (b : Bool) (vm vm' : Machine W)
      → pop mem globals vm ≡ done (v, vm')
      → 0 < v
      → falsy v ≡ b
      → exec mem globals callees code locals w pc opcode_jumpiftrue vm
        ≡ done (goto (if b then suc pc else instr_addr w), vm')
  unfolding exec jumpiftrue_instr
  jumpiftrue_run code locals w pc v true vm vm' ran h e =
      let set : (v == 0) ≡ false = ground arith in
      let t : truthy mem globals callees v ≡ false = truthy-falsy v h ∙ ap not e in
      rw ran (rw set (rw t refl))
  jumpiftrue_run code locals w pc v false vm vm' ran h e =
      let set : (v == 0) ≡ false = ground arith in
      let t : truthy mem globals callees v ≡ true = truthy-falsy v h ∙ ap not e in
      rw ran (rw set (rw t refl))

  jumpiffalse_run :
      (code : Code ℕ) (locals w pc v : ℕ) (b : Bool) (vm vm' : Machine W)
      → pop mem globals vm ≡ done (v, vm')
      → 0 < v
      → falsy v ≡ b
      → exec mem globals callees code locals w pc opcode_jumpiffalse vm
        ≡ done (goto (if b then instr_addr w else suc pc), vm')
  unfolding exec jumpiffalse_instr falsy
  jumpiffalse_run code locals w pc v b vm vm' ran h e =
      let set : (v == 0) ≡ false = ground arith in rw ran (rw set (rw e refl))

  not_run :
      (code : Code ℕ) (locals w pc v : ℕ) (b : Bool) (vm vm' vm'' : Machine W)
      → pop mem globals vm ≡ done (v, vm')
      → 0 < v
      → falsy v ≡ b
      → push mem globals (bool_ref mem globals callees b) vm' ≡ done (tt, vm'')
      → exec mem globals callees code locals w pc opcode_not vm ≡ done (goto (suc pc), vm'')
  unfolding exec not_instr
  not_run code locals w pc v true vm vm' vm'' ran h e ran' =
      let set : (v == 0) ≡ false = ground arith in
      let t : truthy mem globals callees v ≡ false = truthy-falsy v h ∙ ap not e in
      rw ran (rw set (rw t (rw ran' refl)))
  not_run code locals w pc v false vm vm' vm'' ran h e ran' =
      let set : (v == 0) ≡ false = ground arith in
      let t : truthy mem globals callees v ≡ true = truthy-falsy v h ∙ ap not e in
      rw ran (rw set (rw t (rw ran' refl)))

  -- JUMPIFFALSE and JUMPIFTRUE both take the top item, nil and `false` are what the first one jumps at,
  -- and the second one jumps at every other item.
  pub jumps_lem :
      (code : Code ℕ) (locals w pc v : ℕ) (vm : Machine W) (xs : List ℕ)
      → IsReady vm.stack
      → contents vm.stack ≡ xs ++ v ∷ []
      → 0 < v
      → (b : Bool) × ((b ≡ true) ↔ Falsy v)
        × Leaves mem globals
            (exec mem globals callees code locals w pc opcode_jumpiffalse vm)
            vm
            (goto (if b then instr_addr w else suc pc))
            xs
        × Leaves mem globals
            (exec mem globals callees code locals w pc opcode_jumpiftrue vm)
            vm
            (goto (if b then suc pc else instr_addr w))
            xs
  jumps_lem code locals w pc v vm xs ready e h =
      let (st, ran, ready', rest) = pop_lem mem globals vm xs v ready e in
      (
        falsy v,
        falsy_iff v,
        (
          st,
          jumpiffalse_run code locals w pc v (falsy v) vm (record vm { stack = st }) ran h refl,
          ready',
          rest,
        ),
        (
          st,
          jumpiftrue_run code locals w pc v (falsy v) vm (record vm { stack = st }) ran h refl,
          ready',
          rest,
        ),
      )

  bool_falsy : (b : Bool) → IsDistinct globals → falsy (bool_ref mem globals callees b) ≡ not b
  unfolding falsy
  bool_falsy true d =
      let one : globals.chimp_true ≢ globals.nil = d.true_nil in
      let two : globals.chimp_true ≢ globals.chimp_false = d.true_false in ground arith
  bool_falsy false d = ground arith

  bool_set : (b : Bool) → IsDistinct globals → 0 < bool_ref mem globals callees b
  bool_set true d = d.true_set
  bool_set false d = d.false_set

  -- NOT replaces the top item by the other truth value, and JUMPIFTRUE behind it jumps exactly where
  -- JUMPIFFALSE in its place would, with the same stack.
  pub not_jumps :
      (code : Code ℕ) (locals w w' pc v : ℕ) (vm : Machine W) (xs : List ℕ)
      → IsDistinct globals
      → Grants mem
      → IsReady vm.stack
      → contents vm.stack ≡ xs ++ v ∷ []
      → 0 < v
      → (b : Bool) × (vm' : Machine W) × ((b ≡ true) ↔ Falsy v)
        × (exec mem globals callees code locals w pc opcode_not vm ≡ done (goto (suc pc), vm'))
        × Leaves mem globals
            (exec mem globals callees code locals w' (suc pc) opcode_jumpiftrue vm')
            vm
            (goto (if b then instr_addr w' else suc (suc pc)))
            xs
        × Leaves mem globals
            (exec mem globals callees code locals w' (suc pc) opcode_jumpiffalse vm)
            vm
            (goto (if b then instr_addr w' else suc (suc pc)))
            xs
  not_jumps code locals w w' pc v vm xs d grants ready e h =
      let (st, ran, ready', rest) = pop_lem mem globals vm xs v ready e in
      let b = falsy v in
      let (st2, ran2, ready2, full) =
        push_lem mem globals (record vm { stack = st }) (bool_ref mem globals callees (falsy v))
          grants ready' in
      let (st3, ran3, ready3, rest3) =
        pop_lem mem globals (record vm { stack = st2 }) xs (bool_ref mem globals callees (falsy v))
          ready2 (full ∙ ap (λ l. l ++ bool_ref mem globals callees (falsy v) ∷ []) rest) in
      (
        falsy v,
        record vm { stack = st2 },
        falsy_iff v,
        not_run code locals w pc v (falsy v) vm (record vm { stack = st })
            (record vm { stack = st2 }) ran h refl ran2,
        (
          st3,
          jumpiftrue_run code locals w' (suc pc) (bool_ref mem globals callees (falsy v))
                (not (falsy v)) (record vm { stack = st2 }) (record vm { stack = st3 }) ran3
                (bool_set (falsy v) d) (bool_falsy (falsy v) d)
              ∙ ap (λ a. done (goto a, record vm { stack = st3 }))
                  (if_not (falsy v) (suc (suc pc)) (instr_addr w')),
          ready3,
          rest3,
        ),
        (
          st,
          jumpiffalse_run code locals w' (suc pc) v (falsy v) vm (record vm { stack = st }) ran h
              refl,
          ready',
          rest,
        ),
      )

  -- An empty stack is no error to POP: it goes on with the machine as it was, since the pop of an empty
  -- array gives nil and not NULL.
  pub pop_underflow :
      (code : Code ℕ) (locals w pc : ℕ) (vm : Machine W)
      → 0 < globals.nil
      → IsReady vm.stack
      → contents vm.stack ≡ []
      → exec mem globals callees code locals w pc opcode_pop vm ≡ done (goto (suc pc), vm)
  unfolding exec pop_instr
  pop_underflow code locals w pc vm h ready e =
      let set : (globals.nil == 0) ≡ false = ground arith in
      rw (pop_empty mem globals vm ready e) (rw set refl)
