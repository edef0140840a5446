-- ===== src/Vm/Fuel.antt =====
-- The fuel of the loop decides whether it returns, and not what.
use chimp.Common.{
  ℕ, ◌≤◌, ◌==◌, arith, zero, suc, ◌≡◌, Option, some, ltb, if◌then◌else◌, Bool-cases, inl, inr,
}
use chimp.Common.Runs.{done, bind_done}
use chimp.Memory.{Allocator}
use chimp.Vm.{other_object, Machine, Callees, Globals}
use chimp.Vm.Act.{Act, lift}
use chimp.Vm.Heap.{as_code}
use chimp.Vm.Exec.{Flow, goto, finish, null, step, after_step, round, eval_loop}

module _ {W : Type 0} (mem : Allocator ℕ) (globals : Globals) (callees : Callees W) where
  -- `rest'` returns whatever `rest` returns.
  abbrev pub Follows : (ℕ → Act (Machine W) (Option ℕ)) → (ℕ → Act (Machine W) (Option ℕ)) → Type 0
  Follows rest rest' =
      (pc v : ℕ) (vm vm' : Machine W)
      → rest pc vm ≡ done (some v, vm')
      → rest' pc vm ≡ done (some v, vm')

  after_step-Follows :
      (rest rest' : ℕ → Act (Machine W) (Option ℕ))
      → Follows rest rest'
      → (flow : Flow) (v : ℕ) (vm vm' : Machine W)
      → after_step mem globals callees rest flow vm ≡ done (some v, vm')
      → after_step mem globals callees rest' flow vm ≡ done (some v, vm')
  after_step-Follows rest rest' f (goto pc) v vm vm' e = f pc v vm vm' e
  after_step-Follows rest rest' f finish v vm vm' e = e
  after_step-Follows rest rest' f null v vm vm' e = e

  round-Follows :
      (rest rest' : ℕ → Act (Machine W) (Option ℕ)) (code_ref locals : ℕ)
      → Follows rest rest'
      → Follows
          (round mem globals callees rest code_ref locals)
          (round mem globals callees rest' code_ref locals)
  unfolding round
  round-Follows rest rest' code_ref locals f pc v vm vm' e =
      let (c, cast, e1) =
        bind_done (lift (as_code (if code_ref == 0 then other_object else vm.objects code_ref)) vm)
          _ e in
      elim (Bool-cases (ltb pc c.0.0.used)) [
        | inr no_more ↦ let e2 = rw no_more at e1 in rw cast (rw no_more e2)
        | inl more ↦
            let e2 = rw more at e1 in
            let (flow, ran, e3) = bind_done (step mem globals callees c.0.0 locals pc c.1) _ e2 in
            rw cast (rw more (rw ran (after_step-Follows rest rest' f flow.0 v flow.1 vm' e3)))
      ]

  -- If the loop of `chimp_vm_eval_frame` returns with some fuel, it returns the same value from the same
  -- machine with any more fuel.
  pub eval_loop_more :
      (fuel fuel' code_ref locals : ℕ)
      → fuel ≤ fuel'
      → Follows
          (eval_loop mem globals callees fuel code_ref locals)
          (eval_loop mem globals callees fuel' code_ref locals)
  unfolding eval_loop
  eval_loop_more zero fuel' code_ref locals le pc v vm vm' e = absurd (cc)
  eval_loop_more (suc fuel) zero code_ref locals le pc v vm vm' e = absurd (omega arith)
  eval_loop_more (suc fuel) (suc fuel') code_ref locals le pc v vm vm' e =
      round-Follows (eval_loop mem globals callees fuel code_ref locals)
        (eval_loop mem globals callees fuel' code_ref locals) code_ref locals
        (eval_loop_more fuel fuel' code_ref locals (omega arith)) pc v vm vm' e
