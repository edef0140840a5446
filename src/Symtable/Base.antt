-- ===== src/Symtable/Base.antt =====
-- libchimp/symtable.c: while the scopes within it open and close, a scope keeps its kind, its node and the
-- scope around it.
use chimp.Common.{
  ℕ, ◌≡◌, refl, ap, subst, sym, ◌∙◌, Bool, true, false, Option, none, some, List, [], ◌∷◌, ◌++◌,
  inl, inr, Option-cases, Bool-cases, ◌==◌, ==_iff, if◌then◌else◌, ltb,
}
use chimp.Common.Runs.{◌>>=◌, Always-if, Always-map, Run, done, Always, Always-bind, Always-done}
use chimp.Array.{push, new, pop}
use chimp.Hash.{put}
use chimp.Common.Members.{In, In-append_left}
use chimp.Symtable.{
  Entry, Symtable, Callees, and_then, entry_at, entry_new, push_scope, open_scope, enter_scope,
  leave_scope, add, set_entry,
}
use chimp.Symtable.Stack.{and_then-true}
use chimp.Symtable.Opening.{At, IsFresh, IsApart, head, add-At, enter_scope-At, leave_scope-At}
use chimp.Symtable.Keeps.{Keeps, Kept}

set_entry-head :
    (base ste : ℕ) (e : Entry) (self : Symtable)
    → (base ≡ ste → head e ≡ head (self.entries base))
    → head ((set_entry ste e self).entries base) ≡ head (self.entries base)
unfolding set_entry
set_entry-head base ste e self h = elim (Bool-cases (base == ste)) [
  | inl q ↦ rw q (h ((==_iff base ste).0 q))
  | inr q ↦ rw q refl
]

module _ (callees : Callees) (base : ℕ) where
  -- The entry `base` has the same beginning in both tables.
  abbrev pub Still : Symtable → Symtable → Type 0
  Still self s = head (s.entries base) ≡ head (self.entries base)

  entry_at_lem :
      (self : Symtable) (ste : ℕ) → Always (λ e. e ≡ self.entries ste) (entry_at callees self ste)
  unfolding entry_at
  entry_at_lem self ste = Always-if _ (ste == callees.nil) _ _ (λ _. tt) (λ _. refl)

  -- A change of an entry that was read just before
  changed :
      (self : Symtable) (ste : ℕ) (e e' : Entry)
      → entry_at callees self ste ≡ done e
      → head e' ≡ head e
      → head ((set_entry ste e' self).entries base) ≡ head (self.entries base)
  changed self ste e e' p q = set_entry-head base ste e' self (λ same.
      q
      ∙ ap head (Always-done _ _ e p (entry_at_lem self ste))
      ∙ ap (λ x. head (self.entries x)) (sym same))

  add-Still :
      (self : Symtable) (name flags : ℕ)
      → Always (λ (ok, s). Still self s) (add callees self name flags)
  unfolding add
  add-Still self name flags = Always-bind _ (entry_at callees self self.ste) _ (λ e p.
      Always-if _ (callees.new_int self) _ _
        (λ _.
          Always-bind _ (put callees.cmp callees.blocks callees.blocks e.symbols name flags) _
            (λ (ok, symbols) _. changed self self.ste e (record e { symbols = symbols }) p refl))
        (λ _. refl))

  push_scope-Still :
      (self : Symtable) (ste new_ste : ℕ)
      → Always (Still self) (push_scope callees self ste new_ste)
  unfolding push_scope set_entry
  push_scope-Still self ste new_ste =
      Always-bind _ (push callees.blocks self.stack ste) _ (λ stack _.
        Always-bind _ (entry_at callees self ste) _ (λ e p.
          Always-bind _ (push callees.blocks e.children new_ste) _
            (λ children _. changed self ste e (record e { children = children }) p refl)))

  open_scope-Still :
      (self : Symtable) (scope new_ste : ℕ)
      → Always (λ (ok, s). Still self s) (open_scope callees self scope new_ste)
  unfolding open_scope
  open_scope-Still self scope new_ste =
      Always-bind _ (put callees.cmp callees.blocks callees.blocks self.lookup scope new_ste) _
        (λ (ok, lookup) _.
          let self' : Symtable = record self { lookup = lookup } in
          Always-if _ ok _ _
            (λ _.
              Always-bind _
                (if self.ste == callees.nil
                  then done self'
                  else push_scope callees self' self.ste new_ste)
                _
                (λ s e. Always-done (Still self') _ s e (
                  Always-if (Still self') (self.ste == callees.nil) _ _ (λ _. refl)
                    (λ _. push_scope-Still self' self.ste new_ste))))
            (λ _. refl))

  entry_new-Still :
      (self : Symtable) (parent scope flags : ℕ)
      → ¬ (callees.new_entry self ≡ done (some base))
      → Always (λ (r, s). Still self s) (entry_new callees self parent scope flags)
  unfolding entry_new
  entry_new-Still self parent scope flags n =
      Always-if _ (callees.new_int self) _ _
        (λ _. Always-bind _ (callees.new_entry self) _ (elim [
          | none ↦ λ _. refl
          | some ste ↦ λ e. elim (Option-cases (new callees.blocks)) [
            | inl q ↦ rw q tt
            | inr (children, q) ↦ rw q (
                set_entry-head base ste _ self
                  (λ same. absurd (n (e ∙ ap (λ x. done (some x)) (sym same)))))
          ]
        ]))
        (λ _. refl)

  enter_scope-Still :
      (self : Symtable) (scope flags : ℕ)
      → ¬ (callees.new_entry self ≡ done (some base))
      → Always (λ (ok, s). Still self s) (enter_scope callees self scope flags)
  unfolding enter_scope
  enter_scope-Still self scope flags n =
      Always-bind _ (entry_new callees self self.ste scope flags) _ (λ (r, s) e.
        opened r s (Always-done _ _ (r, s) e (entry_new-Still self self.ste scope flags n)))
    where
      opened :
          (r : Option ℕ) (s : Symtable)
          → Still self s
          → Always
              (λ (ok, t). Still self t)
              (elim r as (λ _. Run (Bool × Symtable)) [
                | none ↦ done (false, s)
                | some new_ste ↦ open_scope callees s scope new_ste
              ])
      opened none s p = p
      opened (some new_ste) s p =
          Always-map _ _ (open_scope callees s scope new_ste) (λ (ok, t) q. q ∙ p)
            (open_scope-Still s scope new_ste)

  pub leave_scope-Still :
      (self : Symtable) → Always (λ (ok, s). Still self s) (leave_scope callees self)
  unfolding leave_scope
  leave_scope-Still self =
      Always-bind _
        (if ltb 0 self.stack.size
          then pop callees.nil self.stack
            >>= (λ (ste, stack). done (record self { ste = ste; stack = stack }))
          else done self)
        _
        (λ s e.
          let same : Still self s = Always-done (Still self) _ s e (
            Always-if (Still self) (ltb 0 self.stack.size) _ _
              (λ _. Always-bind _ (pop callees.nil self.stack) _ (λ r _. refl)) (λ _. refl)) in
          elim (Bool-cases (s.ste == callees.nil)) [ inl q ↦ rw q same | inr q ↦ rw q same ])

-- The scope `base`, whose entry began with `h`, is the current one or stands around it.
pub record Within (callees : Callees) (base : ℕ) (h : ℕ × (ℕ × ℕ)) (ste : ℕ) (xs : List ℕ)
    (self : Symtable) : Type 0 where
  pub at : At callees ste xs self
  pub within : In base (xs ++ ste ∷ [])
  pub still : head (self.entries base) ≡ h

module _ (callees : Callees) (fresh : IsFresh callees) (apart : IsApart callees) where
  module _ (base : ℕ) (h : ℕ × (ℕ × ℕ)) where
    apart-Within :
        {ste : ℕ} {xs : List ℕ} (self : Symtable)
        → Within callees base h ste xs self
        → ¬ (callees.new_entry self ≡ done (some base))
    apart-Within {ste} {xs} self w e = apart self base e (
        subst (λ ys. In base (ys ++ self.ste ∷ [])) (sym w.at.around.holds)
          (subst (λ t. In base (xs ++ t ∷ [])) (sym w.at.current) w.within))

    keep_scope-Within :
        (scope flags : ℕ) (v : Symtable → Run (Bool × Symtable))
        → Keeps callees (Within callees base h) v
        → Keeps callees (Within callees base h) (λ s.
          and_then
            (enter_scope callees s scope flags)
            (λ s₁. and_then (v s₁) (leave_scope callees)))
    keep_scope-Within scope flags v k ste xs self t w e =
        let (s, p, e₁) = and_then-true (enter_scope callees self scope flags) _ t e in
        let (s₁, q, e₂) = and_then-true (v s) _ t e₁ in
        let (new_ste, a) =
          Always-done _ _ (true, s) p (enter_scope-At callees self scope flags fresh w.at) refl in
        let inside : Within callees base h new_ste (xs ++ ste ∷ []) s = record {
          at = a;
          within = In-append_left base (xs ++ ste ∷ []) (new_ste ∷ []) w.within;
          still =
              Always-done _ _ (true, s) p
                (enter_scope-Still callees base self scope flags (apart-Within self w))
              ∙ w.still;
        } in
        let w₁ = k new_ste (xs ++ ste ∷ []) s s₁ inside q in
        record {
          at = Always-done _ _ (true, t) e₂ (leave_scope-At callees ste xs s₁ w₁.at) refl;
          within = w.within;
          still = Always-done _ _ (true, t) e₂ (leave_scope-Still callees base s₁) ∙ w₁.still;
        }

    pub Within-Kept : Kept callees (Within callees base h)
    Within-Kept = record {
      keep_add = λ name flags ste xs s t w e. record {
        at = add-At callees s t name flags w.at e;
        within = w.within;
        still = Always-done _ _ (true, t) e (add-Still callees base s name flags) ∙ w.still;
      };
      keep_scope = keep_scope-Within;
    }
