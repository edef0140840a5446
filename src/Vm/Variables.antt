-- ===== src/Vm/Variables.antt =====
-- What STORENAME stores in a local variable, PUSHNAME pushes.
use chimp.Common.{
  ℕ, suc, ◌<◌, ◌≡◌, refl, ap, ◌∙◌, true, false, List, [], ◌∷◌, ◌++◌, arith, ◌==◌, if◌then◌else◌,
  Bool-cases, ==_iff, inl, inr,
}
use chimp.Common.Int.{negsuc}
use chimp.Common.Runs.{done}
use chimp.Memory.{Allocator}
use chimp.Array
use chimp.Array.{Array}
use chimp.Array.Valid.{contents}
use chimp.Hash
use chimp.Hash.{Hash}
use chimp.Table.{Looked, value}
use chimp.Code.{Code}
use chimp.Code.Valid.{IsReady}
use chimp.Code.Instr.{instr_arg1, opcode_storename, opcode_pushname}
use chimp.Vm.{Machine, Callees, Globals, Frame, Object, hash_object, var_object, frame_object}
use chimp.Vm.Heap.{
  as_hash, as_frame, pop, push, name1, last_frame, hash_get, var_value, set_var_value,
}
use chimp.Vm.Names.{storename, resolvename, in_last_frame, deref, pushname}
use chimp.Vm.Exec.{goto, exec}
use chimp.Vm.Stack.{Grants, pop_lem, push_lem}

stored : (r v : ℕ) (o : Object) → (if r == r then var_object v else o) ≡ var_object v
stored r v o = ap (λ b. if b then var_object v else o) {y = true} (ground arith)

-- A write to a variable reaches no object of another kind.
kept_frame :
    (objects : ℕ → Object) (r var v old : ℕ) (f : Frame)
    → objects r ≡ frame_object f
    → objects var ≡ var_object old
    → (if r == var then var_object v else objects r) ≡ frame_object f
kept_frame objects r var v old f e e' = elim (Bool-cases (r == var)) [
  | inl t ↦ let same = ap objects ((==_iff r var).0 t) in absurd (cc)
  | inr n ↦ rw n e
]

kept_hash :
    (objects : ℕ → Object) (r var v old : ℕ) (h : Hash ℕ ℕ)
    → objects r ≡ hash_object h
    → objects var ≡ var_object old
    → (if r == var then var_object v else objects r) ≡ hash_object h
kept_hash objects r var v old h e e' = elim (Bool-cases (r == var)) [
  | inl t ↦ let same = ap objects ((==_iff r var).0 t) in absurd (cc)
  | inr n ↦ rw n e
]

module _ {W : Type 0} (mem : Allocator ℕ) (globals : Globals) (callees : Callees W) where
  -- The name of the instruction is a local variable `var` of the frame `fr`, whose locals are the hash `h`.
  pub record IsLocal (code : Code ℕ) (w : ℕ) (vm : Machine W) (locals var : ℕ) : Type 0 where
    pub name : ℕ
    pub name_set : 0 < name
    pub names : Array.item globals.nil code.names (instr_arg1 w) ≡ done name
    pub h : Hash ℕ ℕ
    pub locals_set : 0 < locals
    pub locals_hash : vm.objects locals ≡ hash_object h
    pub found : (m : Machine W) → Hash.get (callees.cmp m) h name ≡ done (value var)
    pub var_set : 0 < var
    pub old : ℕ
    pub var_is : vm.objects var ≡ var_object old
    pub fr : ℕ
    pub fr_set : 0 < fr
    pub last : Array.get globals.nil vm.frames (negsuc 0) ≡ done fr
    pub method_ref : ℕ
    pub fr_is : vm.objects fr ≡ frame_object (record { method = method_ref; locals = locals })

  set_zero : (x : ℕ) → 0 < x → (x == 0) ≡ false
  set_zero x h = ground arith

  name1_run :
      (code : Code ℕ) (w name : ℕ) (vm : Machine W)
      → Array.item globals.nil code.names (instr_arg1 w) ≡ done name
      → name1 mem globals code w vm ≡ done (name, vm)
  unfolding name1
  name1_run code w name vm e = rw e refl

  hash_get_run :
      (ref key : ℕ) (h : Hash ℕ ℕ) (r : Looked ℕ) (vm : Machine W)
      → 0 < ref
      → vm.objects ref ≡ hash_object h
      → Hash.get (callees.cmp vm) h key ≡ done r
      → hash_get mem globals callees ref key vm ≡ done (r, vm)
  unfolding hash_get as_hash
  hash_get_run ref key h r vm set e ran = rw (set_zero ref set) (rw e (rw ran refl))

  set_var_run :
      (var v old : ℕ) (vm : Machine W)
      → 0 < var
      → vm.objects var ≡ var_object old
      → set_var_value var v vm
        ≡ done (tt, record vm { objects = λ r. if r == var then var_object v else vm.objects r })
  unfolding set_var_value
  set_var_run var v old vm set e = rw (set_zero var set) (rw e refl)

  storename_run :
      (code : Code ℕ) (locals w pc name var v : ℕ) (vm vm1 vm2 : Machine W)
      → 0 < name
      → 0 < v
      → name1 mem globals code w vm ≡ done (name, vm)
      → pop mem globals vm ≡ done (v, vm1)
      → hash_get mem globals callees locals name vm1 ≡ done (value var, vm1)
      → set_var_value var v vm1 ≡ done (tt, vm2)
      → exec mem globals callees code locals w pc opcode_storename vm ≡ done (goto (suc pc), vm2)
  unfolding exec storename
  storename_run code locals w pc name var v vm vm1 vm2 n s e1 e2 e3 e4 =
      rw e1 (rw (set_zero name n) (rw e2 (rw (set_zero v s) (rw e3 (rw e4 refl)))))

  var_value_run :
      (var v : ℕ) (vm : Machine W)
      → 0 < var
      → vm.objects var ≡ var_object v
      → var_value var vm ≡ done (v, vm)
  unfolding var_value
  var_value_run var v vm set e = rw (set_zero var set) (rw e refl)

  deref_run :
      (var v : ℕ) (vm : Machine W)
      → 0 < var
      → vm.objects var ≡ var_object v
      → deref mem globals callees false var vm ≡ done (v, vm)
  unfolding deref
  deref_run var v vm set e = rw (set_zero var set) (rw e (var_value_run var v vm set e))

  in_last_frame_run :
      (name fr locals var v : ℕ) (f : Frame) (vm : Machine W)
      → 0 < fr
      → Array.get globals.nil vm.frames (negsuc 0) ≡ done fr
      → vm.objects fr ≡ frame_object f
      → hash_get mem globals callees f.locals name vm ≡ done (value var, vm)
      → deref mem globals callees false var vm ≡ done (v, vm)
      → in_last_frame mem globals callees name false vm ≡ done (value v, vm)
  unfolding in_last_frame last_frame as_frame
  in_last_frame_run name fr locals var v f vm set e1 e2 e3 e4 =
      rw e1 (rw (set_zero fr set) (rw e2 (rw (set_zero fr set) (rw e3 (rw e4 refl)))))

  pushname_run :
      (code : Code ℕ) (locals w pc name v : ℕ) (vm vm' : Machine W)
      → 0 < name
      → name1 mem globals code w vm ≡ done (name, vm)
      → in_last_frame mem globals callees name false vm ≡ done (value v, vm)
      → push mem globals v vm ≡ done (tt, vm')
      → exec mem globals callees code locals w pc opcode_pushname vm ≡ done (goto (suc pc), vm')
  unfolding exec pushname resolvename
  pushname_run code locals w pc name v vm vm' n e1 e2 e3 =
      rw e1 (rw (set_zero name n) (rw e2 (rw e3 refl)))

  -- STORENAME stores the item in the variable, which stays a local one.
  storename_lem :
      (code : Code ℕ) (locals w pc var v : ℕ) (vm : Machine W) (xs : List ℕ)
      → IsLocal code w vm locals var
      → IsReady vm.stack
      → contents vm.stack ≡ xs ++ v ∷ []
      → 0 < v
      → (vm1 : Machine W) × (exec mem globals callees code locals w pc opcode_storename vm
          ≡ done (goto (suc pc), vm1))
        × (contents vm1.stack ≡ xs)
        × IsReady vm1.stack
        × IsLocal code w vm1 locals var
        × (vm1.objects var ≡ var_object v)
  storename_lem code locals w pc var v vm xs l ready e h =
      let (st, ran, ready1, rest) = pop_lem mem globals vm xs v ready e in
      let vm1 : Machine W = record vm {
        stack = st;
        objects = λ r. if r == var then var_object v else vm.objects r;
      } in
      let f : Frame = record { method = l.method_ref; locals = locals } in
      (
        vm1,
        storename_run code locals w pc l.name var v vm (record vm { stack = st }) vm1 l.name_set h
            (name1_run code w l.name vm l.names) ran
            (hash_get_run locals l.name l.h (value var) (record vm { stack = st }) l.locals_set
              l.locals_hash (l.found (record vm { stack = st })))
            (set_var_run var v l.old (record vm { stack = st }) l.var_set l.var_is),
        rest,
        ready1,
        record {
          name = l.name;
          name_set = l.name_set;
          names = l.names;
          h = l.h;
          locals_set = l.locals_set;
          locals_hash = kept_hash (vm.objects) locals var v l.old l.h l.locals_hash l.var_is;
          found = l.found;
          var_set = l.var_set;
          old = v;
          var_is = stored var v (vm.objects var);
          fr = l.fr;
          fr_set = l.fr_set;
          last = l.last;
          method_ref = l.method_ref;
          fr_is = kept_frame (vm.objects) l.fr var v l.old f l.fr_is l.var_is;
        },
        stored var v (vm.objects var),
      )

  -- PUSHNAME of a local variable pushes what the variable holds.
  pushname_lem :
      (code : Code ℕ) (locals w pc var v : ℕ) (vm : Machine W)
      → Grants mem
      → IsLocal code w vm locals var
      → IsReady vm.stack
      → vm.objects var ≡ var_object v
      → (vm' : Machine W) × (exec mem globals callees code locals w pc opcode_pushname vm
          ≡ done (goto (suc pc), vm'))
        × IsReady vm'.stack
        × (contents vm'.stack ≡ contents vm.stack ++ v ∷ [])
  pushname_lem code locals w pc var v vm grants l ready e =
      let (st, ran, ready', full) = push_lem mem globals vm v grants ready in
      let f : Frame = record { method = l.method_ref; locals = locals } in
      (
        record vm { stack = st },
        pushname_run code locals w pc l.name v vm (record vm { stack = st }) l.name_set
            (name1_run code w l.name vm l.names)
            (in_last_frame_run l.name l.fr locals var v f vm l.fr_set l.last l.fr_is
              (hash_get_run locals l.name l.h (value var) vm l.locals_set l.locals_hash
                (l.found vm))
              (deref_run var v vm l.var_set e))
            ran,
        ready',
        full,
      )

  -- STORENAME of a local variable takes the top item, which is not NULL, off the stack. Whatever runs then,
  -- if it leaves the variable a local one of the last frame, with the value it has, and the value stack
  -- ready for a push, PUSHNAME of the variable puts that item on the stack that is there, where memory is
  -- granted.
  pub pushname-storename :
      (code : Code ℕ) (locals w w' pc pc' var v : ℕ) (vm : Machine W) (xs : List ℕ)
      (between : Machine W → Machine W)
      → Grants mem
      → IsLocal code w vm locals var
      → IsReady vm.stack
      → contents vm.stack ≡ xs ++ v ∷ []
      → 0 < v
      → ((m : Machine W)
          → IsLocal code w m locals var
          → IsReady m.stack
          → IsLocal code w' (between m) locals var
            × IsReady (between m).stack
            × ((between m).objects var ≡ m.objects var))
      → (vm1 : Machine W) × (vm2 : Machine W) × (exec mem globals callees code locals w pc
            opcode_storename vm
          ≡ done (goto (suc pc), vm1))
        × (contents vm1.stack ≡ xs)
        × (exec mem globals callees code locals w' pc' opcode_pushname (between vm1)
            ≡ done (goto (suc pc'), vm2))
        × IsReady vm2.stack
        × (contents vm2.stack ≡ contents (between vm1).stack ++ v ∷ [])
  pushname-storename code locals w w' pc pc' var v vm xs between grants l ready e h keeps =
      let (vm1, ran, rest, ready1, l1, holds) =
        storename_lem code locals w pc var v vm xs l ready e h in
      let (l2, ready2, same) = keeps vm1 l1 ready1 in
      let (vm2, ran2, ready3, full) =
        pushname_lem code locals w' pc' var v (between vm1) grants l2 ready2 (same ∙ holds) in
      (vm1, vm2, ran, rest, ran2, ready3, full)
