-- ===== src/Symtable/Scopes.antt =====
-- libchimp/symtable.c: the walk over a syntax tree ends in the scope in which it has begun.
use chimp.Common.{
  ℕ, subst, some_inj, ap, sym, ◌∙◌, ◌≡◌, refl, Bool, true, false, Option, none, some, List, [],
  Option-cases, inl, inr, if◌then◌else◌,
}
use chimp.Common.Runs.{Always-if, Always-intro, done, Always, Always-bind, Always-done}
use chimp.Ast.{Decls, Items, mod_root}
use chimp.Symtable.{Entry, Symtable, Callees, sym_module, and_then, enter_scope, leave_scope}
use chimp.Symtable.Visit.{visit_decls, visit_items, visit_mod, new_from_ast}
use chimp.Symtable.Stack.{Stacked, new-Stacked, true-ne-false}
use chimp.Symtable.Opening.{At, IsFresh, IsApart, head, enter_first-At, leave_first-At}
use chimp.Array.{new}
use chimp.Hash.{empty}
use chimp.Symtable.Base.{Within, Within-Kept, leave_scope-Still}
use chimp.Symtable.Walk.{keep_items, keep_decls}
use chimp.Symtable.Keeps.{At-Kept, keep_then}

module _ (callees : Callees) (fresh : IsFresh callees) where
  -- A function's body, a block or any other array of statements and declarations that the walk goes
  -- through with CHIMP_TRUE, with all the scopes that it opens and closes on the way, leaves the table in
  -- the scope where it was, with the same scopes around it.
  pub visit_items-At :
      (items : Items) (ste : ℕ) (xs : List ℕ) (s t : Symtable)
      → At callees ste xs s
      → visit_items callees items s ≡ done (true, t)
      → At callees ste xs t
  visit_items-At items ste xs s t h e =
      keep_items callees (At callees) (At-Kept callees fresh) items ste xs s t h e

  module _ (apart : IsApart callees) where
    -- The table stands in the scope of the module with the node `m`, and in no other.
    abbrev InModule : ℕ → Symtable → Type 0
    InModule m t =
        (ste : ℕ) × At callees ste [] t × (head (t.entries ste) ≡ (sym_module, (m, callees.nil)))

    -- The walk and the end of the module, from the table that stands in the module's new scope
    walked :
        (m ste : ℕ) (s₁ s₂ : Symtable) (uses body : Decls)
        → At callees ste [] s₁
        → head (s₁.entries ste) ≡ (sym_module, (m, callees.nil))
        → and_then (visit_decls callees uses s₁) (visit_decls callees body) ≡ done (true, s₂)
        → Within callees ste (sym_module, (m, callees.nil)) ste [] s₂
    walked m ste s₁ s₂ uses body a b e =
        let h : ℕ × (ℕ × ℕ) = (sym_module, (m, callees.nil)) in
        let kept = Within-Kept callees fresh apart ste h in
        keep_then callees (Within callees ste h) kept (visit_decls callees uses)
          (visit_decls callees body) (keep_decls callees (Within callees ste h) kept uses)
          (keep_decls callees (Within callees ste h) kept body) ste [] s₁ s₂
          (record { at = a; within = inl refl; still = b }) e

    visit_mod-InModule :
        (s : Symtable) (m name : ℕ) (uses body : Decls)
        → s.ste ≡ callees.nil
        → Stacked [] s.stack
        → Always
            (λ (ok, t). ok ≡ true → InModule m t)
            (visit_mod callees (mod_root m name uses body) s)
    unfolding visit_mod and_then
    visit_mod-InModule s m name uses body first h =
        Always-bind _ (enter_scope callees s m sym_module) _ (λ (ok, s₁) e.
          Always-if _ ok _ _
            (λ o.
              let (ste, a, b) =
                Always-done _ _ (ok, s₁) e (enter_first-At callees s m sym_module fresh first h)
                  o in
              Always-bind _ (and_then (visit_decls callees uses s₁) (visit_decls callees body)) _
                (λ (ok', s₂) e₂.
                  Always-if _ ok' _ _
                    (λ o'.
                      let w = walked m ste s₁ s₂ uses body a b (e₂ ∙ ap (λ c. done (c, s₂)) o') in
                      Always-intro _ (leave_scope callees s₂) (λ (ok'', t) p _. (
                        ste,
                        Always-done _ _ (ok'', t) p (leave_first-At callees ste s₂ w.at),
                        Always-done _ _ (ok'', t) p (leave_scope-Still callees ste s₂) ∙ w.still,
                      )))
                    (λ _ z. absurd (true-ne-false (sym z)))))
            (λ _ z. absurd (true-ne-false (sym z))))

    abbrev Ended : ℕ → Option Symtable → Type 0
    Ended m r = (t : Symtable) → r ≡ some t → InModule m t

    -- A table that `chimp_symtable_new_from_ast` returns stands in the scope of the module: the current
    -- entry is not nil, its kind is a module's, its node is the root of the syntax tree and its parent is
    -- nil, and the stack is empty. The conditions are that the cell of a new entry is not nil and is none
    -- of the entries of the scopes that are open.
    pub new_from_ast-At :
        (old : ℕ → Entry) (filename m name : ℕ) (uses body : Decls) (t : Symtable)
        → new_from_ast callees old filename (mod_root m name uses body) ≡ done (some t)
        → (ste : ℕ) × At callees ste [] t × (head (t.entries ste) ≡ (sym_module, (m, callees.nil)))
    unfolding new_from_ast
    new_from_ast-At old filename m name uses body t e =
        Always-done (Ended m) _ (some t) e
          (Always-if (Ended m) callees.new_hash _ _
            (λ _. elim (Option-cases (new callees.blocks)) [
              | inl q ↦ rw q (λ t p. absurd (cc p))
              | inr (stack, q) ↦
                  let s : Symtable = record {
                    filename = filename;
                    lookup = empty;
                    stack = stack;
                    ste = callees.nil;
                    entries = old;
                  } in
                  rw q (
                    Always-bind (Ended m) (visit_mod callees (mod_root m name uses body) s) _
                      (λ (ok, t) p. λ t' r. kept ok t t' r (
                        Always-done _ _ (ok, t) p
                          (visit_mod-InModule s m name uses body refl
                            (new-Stacked callees.blocks stack q)))))
            ])
            (λ _ t p. absurd (cc p)))
          t refl
      where
        kept :
            (ok : Bool) (t t' : Symtable)
            → (if ok then some t else none) ≡ some t'
            → (ok ≡ true → InModule m t)
            → InModule m t'
        kept true t t' r h = subst (InModule m) (some_inj r) (h refl)
        kept false t t' r h = absurd (cc r)
