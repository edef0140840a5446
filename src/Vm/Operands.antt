-- ===== src/Vm/Operands.antt =====
-- Comparisons and arithmetic: what they take off the stack, and what they leave.
use chimp.Common.{
  ℕ, suc, ◌<◌, ◌≡◌, refl, ap, ◌∙◌, Bool, false, not, List, [], ◌∷◌, ◌++◌, ◌||◌, arith, ltb, leb,
  ◌==◌, if◌then◌else◌,
}
use chimp.Common.Runs.{Run, done, bug}
use chimp.Compare.{CmpResult, cmp_error, not_impl, lt, eq, gt}
use chimp.Memory.{Allocator}
use chimp.Array.{Array}
use chimp.Array.Valid.{contents}
use chimp.Code.{Code}
use chimp.Code.Valid.{IsReady}
use chimp.Code.Instr.{
  Opcode, opcode_cmpeq, opcode_cmpneq, opcode_cmpgt, opcode_cmpgte, opcode_cmplt, opcode_cmplte,
  opcode_add, opcode_sub, opcode_mul, opcode_div,
}
use chimp.Vm.{Machine, Callees, Globals}
use chimp.Vm.Heap.{pop, push}
use chimp.Vm.Exec.{goto, cmp, accepts, bool_ref, compare_instr, arith_instr, exec}
use chimp.Vm.Stack.{Grants, Leaves, pop_two, push_lem}

-- The comparisons of a script, their instructions, and what they mean for two numbers
pub data Comparison : Type 0 where
  equal unequal greater at_least less at_most : Comparison

abbrev pub comparison_opcode : Comparison → Opcode
comparison_opcode equal = opcode_cmpeq
comparison_opcode unequal = opcode_cmpneq
comparison_opcode greater = opcode_cmpgt
comparison_opcode at_least = opcode_cmpgte
comparison_opcode less = opcode_cmplt
comparison_opcode at_most = opcode_cmplte

abbrev pub relation : Comparison → ℕ → ℕ → Bool
relation equal a b = a == b
relation unequal a b = not (a == b)
relation greater a b = ltb b a
relation at_least a b = leb b a
relation less a b = ltb a b
relation at_most a b = leb a b

-- How numbers compare
abbrev pub order : ℕ → ℕ → CmpResult
order a b = if ltb a b then lt else (if a == b then eq else gt)

-- The operators of a script
pub data Operator : Type 0 where
  plus minus times over : Operator

abbrev pub operator_opcode : Operator → Opcode
operator_opcode plus = opcode_add
operator_opcode minus = opcode_sub
operator_opcode times = opcode_mul
operator_opcode over = opcode_div

module _ {W : Type 0} (mem : Allocator ℕ) (globals : Globals) (callees : Callees W) where
  abbrev pub operation : Operator → ℕ → ℕ → Machine W → Run (ℕ × Machine W)
  operation plus = callees.object_add
  operation minus = callees.object_sub
  operation times = callees.object_mul
  operation over = callees.object_div

  accepts_order :
      (c : Comparison) (a b : ℕ)
      → accepts mem globals callees (comparison_opcode c) (order a b) ≡ relation c a b
  accepts_order equal a b = ground arith
  accepts_order unequal a b = ground arith
  accepts_order greater a b = ground arith
  accepts_order at_least a b = ground arith
  accepts_order less a b = ground arith
  accepts_order at_most a b = ground arith

  order_error : (a b : ℕ) → ¬ (order a b ≡ cmp_error)
  order_error a b h = ground arith

  passed :
      (vm : Machine W) (r : CmpResult)
      → ¬ (r ≡ cmp_error)
      → (elim r as (λ x. Run (CmpResult × Machine W)) [ cmp_error ↦ bug | q ↦ done (q, vm) ])
        ≡ done (r, vm)
  passed vm cmp_error h = absurd (h refl)
  passed vm not_impl h = refl
  passed vm lt h = refl
  passed vm eq h = refl
  passed vm gt h = refl

  cmp_lem :
      (vm : Machine W) (xs : List ℕ) (left right : ℕ) (a b : ℕ)
      → IsReady vm.stack
      → contents vm.stack ≡ xs ++ left ∷ right ∷ []
      → 0 < left
      → 0 < right
      → ((st : Array ℕ) → callees.cmp (record vm { stack = st }) left right ≡ order a b)
      → Leaves mem globals (cmp mem globals callees vm) vm (order a b) xs
  unfolding cmp
  cmp_lem vm xs left right a b ready e l r orders =
      let (st, st', ran, ran', ready', rest) = pop_two mem globals vm xs left right ready e in
      let no_null : ((left == 0) || (right == 0)) ≡ false = ground arith in
      (
        st',
        rw (ran, ran', no_null, orders st')
            (passed (record vm { stack = st' }) (order a b) (order_error a b)),
        ready',
        rest,
      )

  exec_comparison :
      (c : Comparison) (code : Code ℕ) (locals w pc : ℕ) (vm : Machine W)
      → exec mem globals callees code locals w pc (comparison_opcode c) vm
        ≡ compare_instr mem globals callees (comparison_opcode c) pc vm
  unfolding exec
  exec_comparison equal code locals w pc vm = refl
  exec_comparison unequal code locals w pc vm = refl
  exec_comparison greater code locals w pc vm = refl
  exec_comparison at_least code locals w pc vm = refl
  exec_comparison less code locals w pc vm = refl
  exec_comparison at_most code locals w pc vm = refl

  compare_instr_run :
      (op : Opcode) (pc : ℕ) (vm vm' vm'' : Machine W) (r : CmpResult) (b : Bool)
      → cmp mem globals callees vm ≡ done (r, vm')
      → accepts mem globals callees op r ≡ b
      → push mem globals (bool_ref mem globals callees b) vm' ≡ done (tt, vm'')
      → compare_instr mem globals callees op pc vm ≡ done (goto (suc pc), vm'')
  unfolding compare_instr
  compare_instr_run op pc vm vm' vm'' r b ran e ran' =
      let pushed : push mem globals
            (bool_ref mem globals callees (accepts mem globals callees op r)) vm'
          ≡ done (tt, vm'') =
        ap (λ q. push mem globals (bool_ref mem globals callees q) vm') e ∙ ran' in
      rw ran (rw pushed refl)

  compare_run :
      (c : Comparison) (code : Code ℕ) (locals w pc : ℕ) (vm vm' vm'' : Machine W) (a b : ℕ)
      → cmp mem globals callees vm ≡ done (order a b, vm')
      → push mem globals (bool_ref mem globals callees (relation c a b)) vm' ≡ done (tt, vm'')
      → exec mem globals callees code locals w pc (comparison_opcode c) vm
        ≡ done (goto (suc pc), vm'')
  compare_run c code locals w pc vm vm' vm'' a b ran ran' =
      exec_comparison c code locals w pc vm
      ∙ compare_instr_run (comparison_opcode c) pc vm vm' vm'' (order a b) (relation c a b) ran
          (accepts_order c a b) ran'

  -- Each comparison instruction, on two references that compare as two numbers do, takes both off the
  -- stack and leaves `true` there if the numbers are so related, the lower item first, and `false` if not.
  pub compare_lem :
      (c : Comparison) (code : Code ℕ) (locals w pc : ℕ) (vm : Machine W) (xs : List ℕ)
      (left right : ℕ) (a b : ℕ)
      → Grants mem
      → IsReady vm.stack
      → contents vm.stack ≡ xs ++ left ∷ right ∷ []
      → 0 < left
      → 0 < right
      → ((st : Array ℕ) → callees.cmp (record vm { stack = st }) left right ≡ order a b)
      → Leaves mem globals
          (exec mem globals callees code locals w pc (comparison_opcode c) vm)
          vm
          (goto (suc pc))
          (xs ++ bool_ref mem globals callees (relation c a b) ∷ [])
  compare_lem c code locals w pc vm xs left right a b grants ready e l r orders =
      let (st, ran, ready', rest) = cmp_lem vm xs left right a b ready e l r orders in
      let pushed =
        push_lem mem globals (record vm { stack = st })
          (bool_ref mem globals callees (relation c a b)) grants ready' in
      let (st', ran', ready'', rest') = pushed in
      (
        st',
        compare_run c code locals w pc vm (record vm { stack = st }) (record vm { stack = st' }) a b
            ran ran',
        ready'',
        rest' ∙ ap (λ l. l ++ bool_ref mem globals callees (relation c a b) ∷ []) rest,
      )

  exec_operator :
      (o : Operator) (code : Code ℕ) (locals w pc : ℕ) (vm : Machine W)
      → exec mem globals callees code locals w pc (operator_opcode o) vm
        ≡ arith_instr mem globals callees (operation o) pc vm
  unfolding exec
  exec_operator plus code locals w pc vm = refl
  exec_operator minus code locals w pc vm = refl
  exec_operator times code locals w pc vm = refl
  exec_operator over code locals w pc vm = refl

  arith_instr_run :
      (f : ℕ → ℕ → Machine W → Run (ℕ × Machine W)) (pc left right result : ℕ)
      (vm vm1 vm2 vm3 vm4 : Machine W)
      → 0 < left
      → 0 < right
      → pop mem globals vm ≡ done (right, vm1)
      → pop mem globals vm1 ≡ done (left, vm2)
      → f left right vm2 ≡ done (result, vm3)
      → push mem globals result vm3 ≡ done (tt, vm4)
      → arith_instr mem globals callees f pc vm ≡ done (goto (suc pc), vm4)
  unfolding arith_instr
  arith_instr_run f pc left right result vm vm1 vm2 vm3 vm4 l r e1 e2 e3 e4 =
      let left_set : (left == 0) ≡ false = ground arith in
      let right_set : (right == 0) ≡ false = ground arith in
      rw e1 (rw right_set (rw e2 (rw left_set (rw e3 (rw e4 refl)))))

  -- ADD, SUB, MUL and DIV take two references off the stack, call the operation with the lower one on the
  -- left, and leave its result, whatever that is: a NULL too.
  pub arith_lem :
      (o : Operator) (code : Code ℕ) (locals w pc : ℕ) (vm vm' : Machine W) (xs : List ℕ)
      (left right result : ℕ)
      → Grants mem
      → IsReady vm.stack
      → contents vm.stack ≡ xs ++ left ∷ right ∷ []
      → 0 < left
      → 0 < right
      → ((st : Array ℕ)
          → operation o left right (record vm { stack = st })
            ≡ done (result, record vm' { stack = st }))
      → Leaves mem globals
          (exec mem globals callees code locals w pc (operator_opcode o) vm)
          vm'
          (goto (suc pc))
          (xs ++ result ∷ [])
  arith_lem o code locals w pc vm vm' xs left right result grants ready e l r calls =
      let (st, st2, ran, ran2, ready2, rest) = pop_two mem globals vm xs left right ready e in
      let (st3, ran3, ready3, full) =
        push_lem mem globals (record vm' { stack = st2 }) result grants ready2 in
      (
        st3,
        exec_operator o code locals w pc vm
            ∙ arith_instr_run (operation o) pc left right result vm (record vm { stack = st })
                (record vm { stack = st2 }) (record vm' { stack = st2 })
                (record vm' { stack = st3 }) l r ran ran2 (calls st2) ran3,
        ready3,
        full ∙ ap (λ l. l ++ result ∷ []) rest,
      )
