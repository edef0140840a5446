-- ===== src/Vm/Emitted.antt =====
-- The machine runs what the emitters of code.c emit.
use chimp.Common.{
  ℕ, zero, suc, ◌^◌, ◌≤◌, ◌<◌, ◌≡◌, refl, Bool, sym, subst, ap, ◌∙◌, Bool, true, false, none, some,
  List, [], ◌∷◌, ◌++◌, arith, length, length-append, take, get_elem?, get_elem?-append_length, ◌⊎◌,
  inl, inr, ◌==◌, some_inj,
}
use native.Mathlib.Nat.{mod-eq_of_lt}
use chimp.Common.Runs.{Run, done}
use chimp.Compare.{CmpResult, eq}
use chimp.Memory.{Allocator, read}
use chimp.Memory.Laws.{read_lem}
use chimp.Array
use chimp.Array.{Array}
use chimp.Array.Valid.{contents, length-contents, item_lem}
use chimp.Array.Methods.Search.{FirstAt, FirstAt-lt}
use chimp.Code.{Code}
use chimp.Code.Instr.{
  Opcode, opcode, instr_op, instr_arg1, make_instr1, opcode_jumpiffalse, opcode_jumpiftrue,
  opcode_jump, opcode_pushconst, opcode_storename, opcode_pushname, opcode_pushnil, opcode_getattr,
  opcode_getitem, opcode_call, opcode_makearray, opcode_makehash, opcode_cmpeq, opcode_cmpneq,
  opcode_cmpgt, opcode_cmpgte, opcode_cmplt, opcode_cmplte, opcode_not, opcode_dup, opcode_pop,
  opcode_ret, opcode_spawn, opcode_add, opcode_sub, opcode_mul, opcode_div, opcode_makeclosure,
  opcode_getclass,
}
use chimp.Code.Decode.{decode_instr1}
use chimp.Code.Emit
use chimp.Code.Valid.{IsReady, IsValid, instrs, length-instrs}
use chimp.Code.Consts.{Interned, pushconst_lem}
use chimp.Vm.{Machine, Callees, Globals}
use chimp.Vm.Act.{Act, abort}
use chimp.Vm.Heap.{push, const1}
use chimp.Vm.Names
use chimp.Vm.Exec.{Flow, goto, opcode_of, exec, step}
use chimp.Vm.Stack.{Grants, Leaves, push_lem}

-- Each enumerator is found under its value.
opcode_of-opcode : (op : Opcode) → opcode_of (opcode op) ≡ some op
unfolding opcode_of
opcode_of-opcode opcode_jumpiffalse = refl
opcode_of-opcode opcode_jumpiftrue = refl
opcode_of-opcode opcode_jump = refl
opcode_of-opcode opcode_pushconst = refl
opcode_of-opcode opcode_storename = refl
opcode_of-opcode opcode_pushname = refl
opcode_of-opcode opcode_pushnil = refl
opcode_of-opcode opcode_getattr = refl
opcode_of-opcode opcode_getitem = refl
opcode_of-opcode opcode_call = refl
opcode_of-opcode opcode_makearray = refl
opcode_of-opcode opcode_makehash = refl
opcode_of-opcode opcode_cmpeq = refl
opcode_of-opcode opcode_cmpneq = refl
opcode_of-opcode opcode_cmpgt = refl
opcode_of-opcode opcode_cmpgte = refl
opcode_of-opcode opcode_cmplt = refl
opcode_of-opcode opcode_cmplte = refl
opcode_of-opcode opcode_not = refl
opcode_of-opcode opcode_dup = refl
opcode_of-opcode opcode_pop = refl
opcode_of-opcode opcode_ret = refl
opcode_of-opcode opcode_spawn = refl
opcode_of-opcode opcode_add = refl
opcode_of-opcode opcode_sub = refl
opcode_of-opcode opcode_mul = refl
opcode_of-opcode opcode_div = refl
opcode_of-opcode opcode_makeclosure = refl
opcode_of-opcode opcode_getclass = refl

found_take :
    (n : ℕ) (ws : List ℕ) (p : ℕ) {w : ℕ}
    → get_elem? (take n ws) p ≡ some w
    → get_elem? ws p ≡ some w
found_take zero ws p e = cc
found_take (suc n) [] p e = cc
found_take (suc n) (x ∷ ws) zero e = e
found_take (suc n) (x ∷ ws) (suc p) e = found_take n ws p e

-- The word behind those of a valid code object, in one that has it appended
next_word :
    (c c' : Code ℕ) (w : ℕ)
    → IsValid c
    → instrs c' ≡ instrs c ++ w ∷ []
    → read c'.bytecode c.used ≡ done w
next_word c c' w v e = read_lem c'.bytecode c.used w (
    found_take c'.used c'.bytecode c.used (
      ap (λ l. get_elem? l c.used) e
      ∙ ap (get_elem? (instrs c ++ w ∷ [])) (sym (length-instrs c v))
      ∙ get_elem?-append_length (instrs c) w []))

get_elem?-some_lt : (xs : List ℕ) (i : ℕ) {x : ℕ} → get_elem? xs i ≡ some x → i < length xs
get_elem?-some_lt [] i e = cc
get_elem?-some_lt (y ∷ xs) zero e = omega arith
get_elem?-some_lt (y ∷ xs) (suc i) e = omega (arith, get_elem?-some_lt xs i e)

FirstAt-get :
    (cmp : ℕ → ℕ → CmpResult) (value : ℕ) (xs : List ℕ) (i : ℕ)
    → FirstAt cmp value eq xs i
    → (x : ℕ) × (get_elem? xs i ≡ some x) × (cmp x value ≡ eq)
FirstAt-get cmp value [] i h = absurd h
FirstAt-get cmp value (x ∷ xs) zero h = (x, refl, h)
FirstAt-get cmp value (x ∷ xs) (suc i) h = FirstAt-get cmp value xs i h.1

-- The constant that an index of `chimp_code_add_const` names
Interned-get :
    (cmp : ℕ → ℕ → CmpResult) (nil : ℕ) (words objects : Allocator ℕ) (value i : ℕ)
    (old new : List ℕ)
    → Interned cmp nil words objects value old new i
    → (x : ℕ) × (get_elem? new i ≡ some x)
      × ((x ≡ value) ⊎ (cmp x value ≡ eq))
      × (i ≤ length old)
      × (length new ≤ suc (length old))
Interned-get cmp nil words objects value i old new (inl (first, same)) =
    let (x, at, e) = FirstAt-get cmp value old i first in
    (
      x,
      ap (λ l. get_elem? l i) same ∙ at,
      inr e,
      omega (arith, FirstAt-lt cmp value eq old i first),
      omega (arith, ap length same),
    )
Interned-get cmp nil words objects value i old new (inr (last, more)) = (
  value,
  ap (λ l. get_elem? l i) more
      ∙ ap (get_elem? (old ++ value ∷ [])) last
      ∙ get_elem?-append_length old value [],
  inl refl,
  omega arith,
  omega (arith, ap length more, length-append old (value ∷ [])),
)

code_eq : (a b : Code ℕ) → ◌≡◌ {A = Run (Bool × Code ℕ)} (done (true, a)) (done (true, b)) → a ≡ b
code_eq a b e = cc

module _ {W : Type 0} (mem : Allocator ℕ) (globals : Globals) (callees : Callees W) where
  step_run :
      (code : Code ℕ) (locals pc w : ℕ) (op : Opcode) (vm : Machine W)
      → read code.bytecode pc ≡ done w
      → instr_op w ≡ opcode op
      → step mem globals callees code locals pc vm ≡ exec mem globals callees code locals w pc op vm
  unfolding step
  step_run code locals pc w op vm e d =
      let known : opcode_of (instr_op w) ≡ some op = ap opcode_of d ∙ opcode_of-opcode op in
      rw e (
        ap
          (λ o.
            (elim o as (λ x. Act (Machine W) Flow) [
              | none ↦ abort
              | some op' ↦ exec mem globals callees code locals w pc op'
            ])
              vm)
          known)

  pushconst_run :
      (code : Code ℕ) (locals w pc x : ℕ) (vm vm' : Machine W)
      → 0 < x
      → Array.item globals.nil code.constants (instr_arg1 w) ≡ done x
      → push mem globals x vm ≡ done (tt, vm')
      → exec mem globals callees code locals w pc opcode_pushconst vm ≡ done (goto (suc pc), vm')
  unfolding exec Names.pushconst const1
  pushconst_run code locals w pc x vm vm' h e e' =
      let set : (x == 0) ≡ false = ground arith in rw e (rw set (rw e' refl))

  item_elem :
      (items : Array ℕ) (i x : ℕ)
      → IsReady items
      → items.size ≤ 2 ^ 31
      → get_elem? (contents items) i ≡ some x
      → Array.item globals.nil items i ≡ done x
  item_elem items i x ready small at =
      let (y, e, at') = item_lem globals.nil items i ready.valid small (
        omega
          (arith, length-contents items ready.valid, get_elem?-some_lt (contents items) i at)) in
      e ∙ ap done (some_inj (sym at' ∙ at))

  -- The instruction that `chimp_code_pushconst` appends to a valid code object with fewer than 256
  -- constants, run at its place, leaves on the stack the value itself or a constant that compares equal
  -- to it, and goes on behind it.
  pub step-pushconst :
      (cmp : ℕ → ℕ → CmpResult) (words objects : Allocator ℕ) (c c' : Code ℕ) (value locals : ℕ)
      (vm : Machine W)
      → IsValid c
      → c.constants.size < 2 ^ 8
      → Emit.pushconst words cmp globals.nil objects c value ≡ done (true, c')
      → 0 < value
      → ((x : ℕ) → cmp x value ≡ eq → 0 < x)
      → Grants mem
      → IsReady vm.stack
      → (x : ℕ) × ((x ≡ value) ⊎ (cmp x value ≡ eq))
        × Leaves mem globals
            (step mem globals callees c' locals c.used vm)
            vm
            (goto (suc c.used))
            (contents vm.stack ++ x ∷ [])
  step-pushconst cmp words objects c c' value locals vm v few ran value_set set grants ready =
      elim (pushconst_lem cmp globals.nil words objects c value v (omega arith)) [
        | inr (inl (failed, _)) ↦ absurd (cc)
        | inr (inr (failed, _)) ↦ absurd (cc)
        | inl (i, c2, emitted, v2, words2, interned, _) ↦
            let same : c2 ≡ c' = code_eq c2 c' (sym emitted ∙ ran) in
            let (x, at, is, low, grows) =
              Interned-get cmp globals.nil words objects value i (contents c.constants)
                (contents c2.constants) interned in
            let size = length-contents c.constants v.constants.valid in
            let size2 = length-contents c2.constants v2.constants.valid in
            let (op_is, arg_is) = decode_instr1 opcode_pushconst i in
            let arg : instr_arg1 (make_instr1 opcode_pushconst i) ≡ i =
              arg_is ∙ mod-eq_of_lt {n = i} {m = 2 ^ 8} (omega (arith, size)) in
            let x_set : 0 < x = elim is [
              | inl e ↦ subst (λ y. 0 < y) (sym e) value_set
              | inr e ↦ set x e
            ] in
            let (st, pushed, ready', full) = push_lem mem globals vm x grants ready in
            (
              x,
              is,
              (
                st,
                ap (λ d. step mem globals callees d locals c.used vm) (sym same)
                    ∙ step_run c2 locals c.used (make_instr1 opcode_pushconst i) opcode_pushconst vm
                        (next_word c c2 (make_instr1 opcode_pushconst i) v words2) op_is
                    ∙ pushconst_run c2 locals (make_instr1 opcode_pushconst i) c.used x vm
                        (record vm { stack = st }) x_set
                        (ap (Array.item globals.nil c2.constants) arg
                          ∙ item_elem c2.constants i x v2.constants (omega (arith, size, size2)) at)
                        pushed,
                ready',
                full,
              ),
            )
      ]
