-- ===== src/Symtable/Keeps.antt =====
-- libchimp/symtable.c: the visits that return in the scope in which they have begun.
use chimp.Common.{
  ℕ, ◌+◌, ◌||◌, subst, ◌≡◌, Bool, true, not, ◌&&◌, Option, none, some, List, [], ◌∷◌, ◌==◌,
  Bool-cases, inl, inr, if◌then◌else◌,
}
use chimp.Common.Runs.{done, bug, bind_done}
use chimp.Symtable.{
  Symtable, Callees, sym_decl, sym_builtin, sym_free, sym_special, type_of, is_module, and_then,
  entry_at, enter_scope, leave_scope, add,
}
use chimp.Symtable.Visit.{
  Visit, return_true, str_eq, file_name, line_name, seek, add_unknown, add_used, visit_expr_ident,
  declare, add_base,
}
use chimp.Symtable.Stack.{and_then-true}
use chimp.Symtable.Opening.{At, IsFresh, add-At, scope-At}

module _ (callees : Callees) (Inv : ℕ → List ℕ → Symtable → Type 0) where
  -- A visit that returns CHIMP_TRUE keeps an invariant of the scope where it begins and of those around.
  abbrev pub Keeps : Visit → Type 0
  Keeps visit =
      (ste : ℕ) (xs : List ℕ) (s t : Symtable)
      → Inv ste xs s
      → visit s ≡ done (true, t)
      → Inv ste xs t

  -- The two ways in which a visit changes the table keep the invariant.
  pub record Kept : Type 0 where
    pub keep_add : (name flags : ℕ) → Keeps (λ s. add callees s name flags)
    pub keep_scope :
        (scope flags : ℕ) (v : Visit)
        → Keeps v
        → Keeps (λ s.
          and_then
            (enter_scope callees s scope flags)
            (λ s₁. and_then (v s₁) (leave_scope callees)))

-- The scope where the table stands and those around it are the same again behind a visit.
pub At-Kept : (callees : Callees) → IsFresh callees → Kept callees (At callees)
At-Kept callees fresh = record {
  keep_add = λ name flags ste xs s t h e. add-At callees s t name flags h e;
  keep_scope = λ scope flags v k ste xs s t h e.
      scope-At callees s t scope flags v fresh (λ new_ste a b. k new_ste _ a b) h e;
}

module _ (callees : Callees) (Inv : ℕ → List ℕ → Symtable → Type 0) (kept : Kept callees Inv) where
  abbrev Holds : Visit → Type 0
  Holds = Keeps callees Inv

  pub keep_true : Holds return_true
  keep_true ste xs s t h e = subst (Inv ste xs) (cc e) h

  pub keep_then : (v w : Visit) → Holds v → Holds w → Holds (λ s. and_then (v s) w)
  keep_then v w kv kw ste xs s t h e =
      let (r, p, q) = and_then-true (v s) w t e in kw ste xs r t (kv ste xs s r h p) q

  pub keep_declare : (name : ℕ) → Holds (declare callees name)
  unfolding declare
  keep_declare name ste xs s t h e =
      let (en, p, e₁) = bind_done (entry_at callees s s.ste) _ e in
      kept.keep_add name (sym_decl + type_of en) ste xs s t h e₁

  pub keep_base : (base : Option (List ℕ)) → Holds (add_base callees base)
  unfolding add_base
  keep_base none = keep_true
  keep_base (some []) = kept.keep_add callees.nil 0
  keep_base (some (name ∷ names)) = kept.keep_add name 0

  pub keep_if :
      (b : Symtable → Bool) (v w : Visit)
      → Holds v
      → Holds w
      → Holds (λ s. if b s then v s else w s)
  keep_if b v w kv kw ste xs s t h e = elim (Bool-cases (b s)) [
    | inl q ↦ kv ste xs s t h (subst (λ c. (if c then v s else w s) ≡ done (true, t)) q e)
    | inr q ↦ kw ste xs s t h (subst (λ c. (if c then v s else w s) ≡ done (true, t)) q e)
  ]

  pub keep_bug : Holds (λ s. bug)
  keep_bug ste xs s t h e = absurd (cc e)

  pub keep_unknown : (name : ℕ) → Holds (add_unknown callees name)
  unfolding add_unknown
  keep_unknown name ste xs s t h e =
      let (b, p, e₁) = bind_done (callees.is_builtin name) _ e in
      keep_if (λ _. b) (λ s. add callees s name sym_builtin) _ (kept.keep_add name sym_builtin)
        (keep_if
          (λ _.
            str_eq (callees.str_data name) file_name || str_eq (callees.str_data name) line_name)
          (λ s. add callees s name sym_special) (λ s. bug) (kept.keep_add name sym_special)
          keep_bug)
        ste xs s t h e₁

  pub keep_used : (name : ℕ) (r : Option (ℕ × ℕ)) → Holds (add_used callees name r)
  unfolding add_used
  keep_used name none = keep_unknown name
  keep_used name (some (up, flags)) = λ ste xs s t h e.
      keep_if (λ s'. not (up == s'.ste) && not (is_module (s'.entries up)))
        (λ s'. add callees s' name (sym_free + type_of (s.entries up))) return_true
        (kept.keep_add name (sym_free + type_of (s.entries up))) keep_true ste xs s t h e

  pub keep_ident : (name : ℕ) → Holds (visit_expr_ident callees name)
  unfolding visit_expr_ident
  keep_ident name ste xs s t h e =
      let (r, p, e₁) = bind_done (seek callees (s.stack.size + 2) s name s.ste) _ e in
      keep_used name r ste xs s t h e₁
