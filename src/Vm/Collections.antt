-- ===== src/Vm/Collections.antt =====
-- MAKEARRAY and CALL take their items off the stack in the order in which they were pushed.
use mathlib.Core.List.{append-nil, append_assoc}
use chimp.Common.{
  ℕ, zero, suc, ◌+◌, ◌≤◌, ◌<◌, ◌≡◌, ◌≢◌, refl, sym, subst, ap, ◌∙◌, true, false, some, List, [],
  ◌∷◌, ◌++◌, inl, inr, arith, length, ◌==◌, if◌then◌else◌, Bool-cases,
}
use chimp.Common.Runs.{done, bind_done}
use chimp.Memory.{Allocator}
use chimp.Array
use chimp.Array.{Array}
use chimp.Array.Valid.{IsValid, contents}
use chimp.Array.Room.{unshift_room}
use chimp.Code.{Code}
use chimp.Code.Valid.{IsReady}
use chimp.Code.Instr.{instr_arg1, opcode_makearray, opcode_call}
use chimp.Vm.{Machine, Callees, Globals, Object, array_object}
use chimp.Vm.Heap.{as_array, pop, push, new_object, array_new_with_capacity, array_unshift}
use chimp.Vm.Build.{pop_args, pop_items, makearray, call}
use chimp.Vm.Exec.{goto, exec}
use chimp.Vm.Stack.{Grants, pop_lem, push_lem}

-- No reference of a list is NULL.
abbrev pub AllSet : List ℕ → Type 0
AllSet [] = Unit
AllSet (x ∷ xs) = (0 < x) × AllSet xs

snoc_view :
    (k : ℕ) (xs : List ℕ)
    → length xs ≡ suc k
    → (ys : List ℕ) × (y : ℕ) × (xs ≡ ys ++ y ∷ []) × (length ys ≡ k)
snoc_view k [] e = absurd (omega (arith, e))
snoc_view zero (x ∷ []) e = ([], x, refl, refl)
snoc_view (suc k) (x ∷ []) e = absurd (omega (arith, e))
snoc_view zero (x ∷ y ∷ xs) e = absurd (omega (arith, e))
snoc_view (suc k) (x ∷ y ∷ xs) e =
    let (ys, z, s, n) = snoc_view k (y ∷ xs) (omega (arith, e)) in
    (x ∷ ys, z, ap (λ t. x ∷ t) s, ap suc n)

AllSet-snoc : (xs : List ℕ) (y : ℕ) → AllSet (xs ++ y ∷ []) → AllSet xs × (0 < y)
AllSet-snoc [] y (h, t) = (tt, h)
AllSet-snoc (x ∷ xs) y (h, t) = let (a, b) = AllSet-snoc xs y t in ((h, a), b)

no_items : (xs : List ℕ) → length xs ≡ 0 → xs ≡ []
no_items [] e = refl
no_items (x ∷ xs) e = absurd (omega (arith, e))

stored_self : (r : ℕ) (o o' : Object) → (if r == r then o else o') ≡ o
stored_self r o o' = ap (λ b. if b then o else o') {y = true} (ground arith)

stored_other : (r ref : ℕ) (o o' : Object) → r ≢ ref → (if r == ref then o else o') ≡ o'
stored_other r ref o o' ne = ap (λ b. if b then o else o') {y = false} (ground arith)

module _ {W : Type 0} (mem : Allocator ℕ) (globals : Globals) (callees : Callees W) where
  -- `vm'` has a stack of `xs`, the array `ref` holds `items` in it, and it is `vm` in all else.
  pub record Gathered (vm vm' : Machine W) (ref : ℕ) (xs items : List ℕ) : Type 0 where
    pub ready : IsReady vm'.stack
    pub stack : contents vm'.stack ≡ xs
    pub built : Array ℕ
    pub here : vm'.objects ref ≡ array_object built
    pub valid : IsValid built
    pub holds : contents built ≡ items
    pub others : (r : ℕ) → r ≢ ref → vm'.objects r ≡ vm.objects r
    pub frames : vm'.frames ≡ vm.frames
    pub world : vm'.world ≡ vm.world

  array_unshift_run :
      (vm : Machine W) (ref v : ℕ) (a a' : Array ℕ)
      → 0 < ref
      → vm.objects ref ≡ array_object a
      → Array.unshift mem a v ≡ done a'
      → array_unshift mem globals callees ref v vm
        ≡ done (tt, record vm { objects = λ r. if r == ref then array_object a' else vm.objects r })
  unfolding array_unshift as_array
  array_unshift_run vm ref v a a' h e ran =
      let set : (ref == 0) ≡ false = ground arith in rw set (rw e (rw ran refl))

  pop_items_lem :
      (k : ℕ) (vm : Machine W) (ref : ℕ) (xs items : List ℕ) (a : Array ℕ)
      → IsReady vm.stack
      → contents vm.stack ≡ xs ++ items
      → length items ≡ k
      → AllSet items
      → 0 < ref
      → vm.objects ref ≡ array_object a
      → IsValid a
      → a.size + k ≤ a.capacity
      → (vm' : Machine W) × (pop_items mem globals callees ref k vm ≡ done (true, vm'))
        × Gathered vm vm' ref xs (items ++ contents a)
  unfolding pop_items
  pop_items_lem zero vm ref xs items a ready e n set h is valid room =
      let none = no_items items n in
      (
        vm,
        refl,
        record {
          ready = ready;
          stack = e ∙ ap (λ t. xs ++ t) none ∙ append-nil xs;
          built = a;
          here = is;
          valid = valid;
          holds = sym (ap (λ t. t ++ contents a) none);
          others = λ r ne. refl;
          frames = refl;
          world = refl;
        },
      )
  pop_items_lem (suc k) vm ref xs items a ready e n set h is valid room =
      let (init, v, split, n') = snoc_view k items n in
      let (init_set, v_set) = AllSet-snoc init v (subst AllSet split set) in
      let (st, ran, ready', rest) =
        pop_lem mem globals vm (xs ++ init) v ready
          (e ∙ ap (λ t. xs ++ t) split ∙ sym (append_assoc xs init (v ∷ []))) in
      let (a', ran', h', size', cap') = unshift_room mem a v valid (omega arith) in
      let (vm', ran2, g) =
        pop_items_lem k
          (record vm {
            stack = st;
            objects = λ r. if r == ref then array_object a' else vm.objects r;
          })
          ref xs init a' ready' rest n' init_set h
          (stored_self ref (array_object a') (vm.objects ref)) h'.valid
          (omega (arith, size', cap')) in
      let v_not : (v == 0) ≡ false = ground arith in
      (
        vm',
        rw ran (
            rw v_not (rw (array_unshift_run (record vm { stack = st }) ref v a a' h is ran') ran2)),
        record {
          ready = g.ready;
          stack = g.stack;
          built = g.built;
          here = g.here;
          valid = g.valid;
          holds =
              g.holds
              ∙ ap (λ t. init ++ t) h'.holds
              ∙ sym (append_assoc init (v ∷ []) (contents a))
              ∙ sym (ap (λ t. t ++ contents a) split);
          others = λ r ne. g.others r ne ∙ stored_other r ref (array_object a') (vm.objects r) ne;
          frames = g.frames;
          world = g.world;
        },
      )

  -- The loop of CALL ends as that of MAKEARRAY, where no item is NULL.
  pop_args-pop_items :
      (k : ℕ) (ref : ℕ) (vm vm' : Machine W)
      → pop_items mem globals callees ref k vm ≡ done (true, vm')
      → pop_args mem globals callees ref k vm ≡ done (tt, vm')
  unfolding pop_items pop_args
  pop_args-pop_items zero ref vm vm' e = cc
  pop_args-pop_items (suc k) ref vm vm' e =
      let (popped, ran, e1) = bind_done (pop mem globals vm) _ e in
      elim (Bool-cases (popped.0 == 0)) [
        | inl t ↦ let e2 = rw t at e1 in cc
        | inr f ↦
            let e2 = rw f at e1 in
            let (stored, ran2, e3) =
              bind_done (array_unshift mem globals callees ref popped.0 popped.1) _ e2 in
            rw ran (rw ran2 (pop_args-pop_items k ref stored.1 vm' e3))
      ]

  new_with_capacity_run :
      (n : ℕ) (b : List ℕ)
      → mem.alloc n ≡ some b
      → Array.new_with_capacity mem n ≡ some (record { items = b; size = 0; capacity = n })
  unfolding Array.new_with_capacity
  new_with_capacity_run n b e = rw (Array.new_with_capacity, e) refl

  -- A new array with room for `n` items
  new_array_lem :
      (n : ℕ) (vm : Machine W) (ref : ℕ) (world : W)
      → Grants mem
      → callees.new_ref vm ≡ done (ref, record vm { world = world })
      → (a : Array ℕ) × (array_new_with_capacity mem globals callees n vm
          ≡ done (
            ref,
            record vm {
              world = world;
              objects = λ r. if r == ref then array_object a else vm.objects r;
            },
          ))
        × IsValid a
        × (contents a ≡ [])
        × (a.size + n ≤ a.capacity)
  unfolding new_object array_new_with_capacity
  new_array_lem n vm ref world grants fresh =
      let (b, given) = grants n in
      (
        record { items = b; size = 0; capacity = n },
        rw (array_new_with_capacity, new_with_capacity_run n b given) (rw fresh refl),
        record { fits = omega arith; allocated = mem.alloc_length n b given },
        refl,
        omega arith,
      )

  gather_lem :
      (n : ℕ) (vm : Machine W) (ref : ℕ) (world : W) (xs items : List ℕ)
      → Grants mem
      → IsReady vm.stack
      → contents vm.stack ≡ xs ++ items
      → length items ≡ n
      → AllSet items
      → callees.new_ref vm ≡ done (ref, record vm { world = world })
      → 0 < ref
      → (vm1 : Machine W) × (vm2 : Machine W) × (array_new_with_capacity mem globals callees n vm
          ≡ done (ref, vm1))
        × (pop_items mem globals callees ref n vm1 ≡ done (true, vm2))
        × Gathered (record vm { world = world }) vm2 ref xs items
  gather_lem n vm ref world xs items grants ready e len set fresh h =
      let (a, ran, valid, empty, room) = new_array_lem n vm ref world grants fresh in
      let vm1 : Machine W = record vm {
        world = world;
        objects = λ r. if r == ref then array_object a else vm.objects r;
      } in
      let (vm2, ran2, g) =
        pop_items_lem n vm1 ref xs items a ready e len set h
          (stored_self ref (array_object a) (vm.objects ref)) valid room in
      (
        vm1,
        vm2,
        ran,
        ran2,
        record {
          ready = g.ready;
          stack = g.stack;
          built = g.built;
          here = g.here;
          valid = g.valid;
          holds = g.holds ∙ ap (λ t. items ++ t) empty ∙ append-nil items;
          others = λ r ne. g.others r ne ∙ stored_other r ref (array_object a) (vm.objects r) ne;
          frames = g.frames;
          world = g.world;
        },
      )

  makearray_run :
      (code : Code ℕ) (locals w pc ref : ℕ) (vm vm1 vm2 vm3 : Machine W)
      → 0 < ref
      → array_new_with_capacity mem globals callees (instr_arg1 w) vm ≡ done (ref, vm1)
      → pop_items mem globals callees ref (instr_arg1 w) vm1 ≡ done (true, vm2)
      → push mem globals ref vm2 ≡ done (tt, vm3)
      → exec mem globals callees code locals w pc opcode_makearray vm ≡ done (goto (suc pc), vm3)
  unfolding exec makearray
  makearray_run code locals w pc ref vm vm1 vm2 vm3 h e1 e2 e3 =
      let set : (ref == 0) ≡ false = ground arith in rw e1 (rw set (rw e2 (rw e3 refl)))

  -- MAKEARRAY takes as many items off the stack as its argument says and leaves there a new array that
  -- holds them in the order in which they were pushed. Nothing else changes.
  pub makearray_lem :
      (code : Code ℕ) (locals w pc : ℕ) (vm : Machine W) (ref : ℕ) (world : W) (xs items : List ℕ)
      → Grants mem
      → IsReady vm.stack
      → contents vm.stack ≡ xs ++ items
      → length items ≡ instr_arg1 w
      → AllSet items
      → callees.new_ref vm ≡ done (ref, record vm { world = world })
      → 0 < ref
      → (vm' : Machine W) × (exec mem globals callees code locals w pc opcode_makearray vm
          ≡ done (goto (suc pc), vm'))
        × Gathered (record vm { world = world }) vm' ref (xs ++ ref ∷ []) items
  makearray_lem code locals w pc vm ref world xs items grants ready e len set fresh h =
      let (vm1, vm2, ran, ran2, g) =
        gather_lem (instr_arg1 w) vm ref world xs items grants ready e len set fresh h in
      let (st, ran3, ready3, full) = push_lem mem globals vm2 ref grants g.ready in
      (
        record vm2 { stack = st },
        makearray_run code locals w pc ref vm vm1 vm2 (record vm2 { stack = st }) h ran ran2 ran3,
        record {
          ready = ready3;
          stack = full ∙ ap (λ l. l ++ ref ∷ []) g.stack;
          built = g.built;
          here = g.here;
          valid = g.valid;
          holds = g.holds;
          others = g.others;
          frames = g.frames;
          world = g.world;
        },
      )

  call_run :
      (code : Code ℕ) (locals w pc ref target result : ℕ) (vm vm1 vm2 vm3 vm4 vm5 : Machine W)
      → 0 < ref
      → 0 < target
      → 0 < result
      → array_new_with_capacity mem globals callees (instr_arg1 w) vm ≡ done (ref, vm1)
      → pop_args mem globals callees ref (instr_arg1 w) vm1 ≡ done (tt, vm2)
      → pop mem globals vm2 ≡ done (target, vm3)
      → callees.object_call target ref vm3 ≡ done (result, vm4)
      → push mem globals result vm4 ≡ done (tt, vm5)
      → exec mem globals callees code locals w pc opcode_call vm ≡ done (goto (suc pc), vm5)
  unfolding exec call
  call_run code locals w pc ref target result vm vm1 vm2 vm3 vm4 vm5 h t r e1 e2 e3 e4 e5 =
      let ref_set : (ref == 0) ≡ false = ground arith in
      let target_set : (target == 0) ≡ false = ground arith in
      let result_set : (result == 0) ≡ false = ground arith in
      rw e1 (rw ref_set (rw e2 (rw e3 (rw target_set (rw e4 (rw result_set (rw e5 refl)))))))

  -- CALL, with memory granted and no NULL on the stack, takes its arguments and then the target off the
  -- stack and calls the target, on the machine that is so reached, with a new array that holds the
  -- arguments in the order in which they were pushed. Where that call returns an object, and leaves the
  -- items of the value stack as they are, whatever else it changes, the result is left in their place.
  pub call_lem :
      (code : Code ℕ) (locals w pc : ℕ) (vm : Machine W) (ref : ℕ) (world : W) (xs args : List ℕ)
      (target : ℕ) (result : Machine W → ℕ) (after : Machine W → Machine W)
      → Grants mem
      → IsReady vm.stack
      → contents vm.stack ≡ (xs ++ target ∷ []) ++ args
      → length args ≡ instr_arg1 w
      → AllSet args
      → callees.new_ref vm ≡ done (ref, record vm { world = world })
      → 0 < ref
      → 0 < target
      → ((called : Machine W)
          → Gathered (record vm { world = world }) called ref xs args
          → (callees.object_call target ref called ≡ done (result called, after called))
            × (0 < result called)
            × IsReady (after called).stack
            × (contents (after called).stack ≡ contents called.stack))
      → (called : Machine W) × (st : Array ℕ) × Gathered
          (record vm { world = world })
          called
          ref
          xs
          args
        × (exec mem globals callees code locals w pc opcode_call vm
            ≡ done (goto (suc pc), record (after called) { stack = st }))
        × IsReady st
        × (contents st ≡ xs ++ result called ∷ [])
  call_lem code locals w pc vm ref world xs args target result after grants ready e len set fresh h
        t calls =
      let (vm1, vm2, ran, ran2, g) =
        gather_lem (instr_arg1 w) vm ref world (xs ++ target ∷ []) args grants ready e len set fresh
          h in
      let (st3, ran3, ready3, rest3) = pop_lem mem globals vm2 xs target g.ready g.stack in
      let called : Machine W = record vm2 { stack = st3 } in
      let gathered : Gathered (record vm { world = world }) called ref xs args = record {
        ready = ready3;
        stack = rest3;
        built = g.built;
        here = g.here;
        valid = g.valid;
        holds = g.holds;
        others = g.others;
        frames = g.frames;
        world = g.world;
      } in
      let (ran4, r, ready4, same) = calls called gathered in
      let (st5, ran5, ready5, full) =
        push_lem mem globals (after called) (result called) grants ready4 in
      (
        called,
        st5,
        gathered,
        call_run code locals w pc ref target (result called) vm vm1 vm2 called (after called)
            (record (after called) { stack = st5 }) h t r ran
            (pop_args-pop_items (instr_arg1 w) ref vm1 vm2 ran2) ran3 ran4 ran5,
        ready5,
        full ∙ ap (λ l. l ++ result called ∷ []) (same ∙ rest3),
      )
