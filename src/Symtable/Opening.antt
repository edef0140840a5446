-- ===== src/Symtable/Opening.antt =====
-- libchimp/symtable.c: what the functions that open a scope, close it or add a symbol do to the current
-- entry and to the stack of the entries around it.
use chimp.Common.{
  ℕ, ◌≡◌, ◌≢◌, refl, ap, subst, sym, ◌∙◌, Bool, true, false, Option, none, some, List, [], ◌∷◌,
  ◌++◌, arith, length, length-append, inl, inr, Option-cases, Bool-cases, lt→ltb, le→ltb_false,
  some_inj, ◌<◌, ◌==◌, ==_iff, if◌then◌else◌,
}
use chimp.Common.Runs.{Always-if, Always-map, Run, done, Always, Always-bind, Always-done}
use chimp.Array.{push, new}
use chimp.Array.Valid.{contents, length-contents}
use chimp.Hash.{put}
use chimp.Common.Members.{In}
use chimp.Symtable.{
  Entry, Symtable, Callees, and_then, entry_at, entry_new, push_scope, open_scope, enter_scope,
  leave_scope, add, set_entry,
}
use chimp.Symtable.Stack.{Stacked, push-Stacked, pop-Stacked, true-ne-false, and_then-true}

-- What an entry has from its beginning: its flags, the node of its scope, and the entry around it
abbrev pub head : Entry → ℕ × (ℕ × ℕ)
head e = (e.flags, (e.scope, e.parent))

module _ (callees : Callees) where
  -- The table stands in the scope `ste`, and the scopes around it are `xs`, the innermost last.
  pub record At (ste : ℕ) (xs : List ℕ) (self : Symtable) : Type 0 where
    pub inside : ste ≢ callees.nil
    pub current : self.ste ≡ ste
    pub around : Stacked xs self.stack

  -- An entry for a new scope is no nil.
  abbrev pub IsFresh : Type 0
  IsFresh =
      (self : Symtable) (ste : ℕ) → callees.new_entry self ≡ done (some ste) → ste ≢ callees.nil

  -- The cell of a new entry is none of the entries of the scopes that are open.
  abbrev pub IsApart : Type 0
  IsApart =
      (self : Symtable) (ste : ℕ)
      → callees.new_entry self ≡ done (some ste)
      → ¬ In ste (contents self.stack ++ self.ste ∷ [])

  -- Neither the current entry nor the stack changes.
  abbrev Same : Symtable → Symtable → Type 0
  Same self s = (s.ste ≡ self.ste) × (s.stack ≡ self.stack)

  Same-At : {ste : ℕ} {xs : List ℕ} (self s : Symtable) → Same self s → At ste xs self → At ste xs s
  Same-At {ste} {xs} self s p h = record {
    inside = h.inside;
    current = p.0 ∙ h.current;
    around = subst (Stacked xs) (sym p.1) h.around;
  }

  add-Same :
      (self : Symtable) (name flags : ℕ)
      → Always (λ (ok, s). Same self s) (add callees self name flags)
  unfolding add set_entry
  add-Same self name flags = Always-bind _ (entry_at callees self self.ste) _ (λ e _.
      Always-if _ (callees.new_int self) _ _
        (λ _.
          Always-bind _ (put callees.cmp callees.blocks callees.blocks e.symbols name flags) _
            (λ r _. (refl, refl)))
        (λ _. (refl, refl)))

  -- A symbol is added in the scope where the table stands.
  pub add-At :
      {ste : ℕ} {xs : List ℕ} (self s' : Symtable) (name flags : ℕ)
      → At ste xs self
      → add callees self name flags ≡ done (true, s')
      → At ste xs s'
  add-At self s' name flags h e =
      Same-At self s' (Always-done _ _ (true, s') e (add-Same self name flags)) h

  entry_new-Same :
      (self : Symtable) (parent scope flags : ℕ)
      → IsFresh
      → Always
          (λ (r, s).
            Same self s
            × ((ste : ℕ)
                → r ≡ some ste
                → (ste ≢ callees.nil) × (head (s.entries ste) ≡ (flags, (scope, parent)))))
          (entry_new callees self parent scope flags)
  unfolding entry_new set_entry
  entry_new-Same self parent scope flags fresh =
      Always-if _ (callees.new_int self) _ _
        (λ _. Always-bind _ (callees.new_entry self) _ (elim [
          | none ↦ λ _. ((refl, refl), λ ste e. absurd (cc e))
          | some ste ↦ λ e. elim (Option-cases (new callees.blocks)) [
            | inl q ↦ rw q tt
            | inr (children, q) ↦ rw q (
              (refl, refl),
              λ ste' p. (
                subst (λ x. x ≢ callees.nil) (some_inj p) (fresh self ste e),
                rw ((==_iff ste' ste).1 (sym (some_inj p))) refl,
              ),
            )
          ]
        ]))
        (λ _. ((refl, refl), λ ste e. absurd (cc e)))

  push_scope-Stacked :
      (self : Symtable) (xs : List ℕ) (ste new_ste : ℕ)
      → Stacked xs self.stack
      → Always (λ s. Stacked (xs ++ ste ∷ []) s.stack) (push_scope callees self ste new_ste)
  unfolding push_scope set_entry
  push_scope-Stacked self xs ste new_ste h =
      Always-bind _ (push callees.blocks self.stack ste) _ (λ stack p.
        Always-bind _ (entry_at callees self ste) _ (λ e _.
          Always-bind _ (push callees.blocks e.children new_ste) _
            (λ children _. push-Stacked callees.blocks xs self.stack stack ste h p)))

  open_scope-At :
      {ste : ℕ} {xs : List ℕ} (self : Symtable) (scope new_ste : ℕ)
      → At ste xs self
      → new_ste ≢ callees.nil
      → Always
          (λ (ok, s). ok ≡ true → At new_ste (xs ++ ste ∷ []) s)
          (open_scope callees self scope new_ste)
  unfolding open_scope
  open_scope-At {ste} {xs} self scope new_ste h n =
      Always-bind _ (put callees.cmp callees.blocks callees.blocks self.lookup scope new_ste) _
        (λ (ok, lookup) _.
          let self' : Symtable = record self { lookup = lookup } in
          Always-if _ ok _ _
            (λ _.
              Always-bind _
                (if self.ste == callees.nil
                  then done self'
                  else push_scope callees self' self.ste new_ste)
                _
                (λ s e _. record {
                  inside = n;
                  current = refl;
                  around =
                      subst (λ t. Stacked (xs ++ t ∷ []) s.stack) h.current
                        (Always-done _ _ s e (pushed self' h.around));
                }))
            (λ f e. absurd (true-ne-false (sym e))))
    where
      pushed :
          (self' : Symtable)
          → Stacked xs self'.stack
          → Always
              (λ s. Stacked (xs ++ self.ste ∷ []) s.stack)
              (if self.ste == callees.nil
                then done self'
                else push_scope callees self' self.ste new_ste)
      pushed self' k =
          Always-if _ (self.ste == callees.nil) _ _
            (λ q. absurd (h.inside (sym h.current ∙ (==_iff _ _).0 q)))
            (λ _. push_scope-Stacked self' xs self.ste new_ste k)

  pub enter_scope-At :
      {ste : ℕ} {xs : List ℕ} (self : Symtable) (scope flags : ℕ)
      → IsFresh
      → At ste xs self
      → Always
          (λ (ok, s). ok ≡ true → (new_ste : ℕ) × At new_ste (xs ++ ste ∷ []) s)
          (enter_scope callees self scope flags)
  unfolding enter_scope
  enter_scope-At {ste} {xs} self scope flags fresh h =
      Always-bind _ (entry_new callees self self.ste scope flags) _ (λ (r, s) e.
        opened r s (Always-done _ _ (r, s) e (entry_new-Same self self.ste scope flags fresh)))
    where
      opened :
          (r : Option ℕ) (s : Symtable)
          → Same self s
            × ((ste : ℕ)
                → r ≡ some ste
                → (ste ≢ callees.nil) × (head (s.entries ste) ≡ (flags, (scope, self.ste))))
          → Always
              (λ (ok, s). ok ≡ true → (new_ste : ℕ) × At new_ste (xs ++ ste ∷ []) s)
              (elim r as (λ _. Run (Bool × Symtable)) [
                | none ↦ done (false, s)
                | some new_ste ↦ open_scope callees s scope new_ste
              ])
      opened none s p = λ q. absurd (cc q)
      opened (some new_ste) s (p, n) =
          Always-map _ _ (open_scope callees s scope new_ste) (λ (ok, t) k q. (new_ste, k q))
            (open_scope-At s scope new_ste (Same-At self s p h) (n new_ste refl).0)

  pub leave_scope-At :
      {ste : ℕ} (up : ℕ) (xs : List ℕ) (self : Symtable)
      → At ste (xs ++ up ∷ []) self
      → Always (λ (ok, s). ok ≡ true → At up xs s) (leave_scope callees self)
  unfolding leave_scope
  leave_scope-At {ste} up xs self h =
      let (stack, e, k) = pop-Stacked callees.nil xs up self.stack h.around in
      let full : 0 < self.stack.size = omega (
        arith,
        ap length h.around.holds,
        length-append xs,
        length-contents self.stack h.around.valid,
      ) in
      rw (lt→ltb 0 self.stack.size full, e)
        (elim (Bool-cases (up == callees.nil)) [
          | inl q ↦ rw q (λ z. absurd (cc z))
          | inr q ↦ rw q (λ _. record {
            inside = λ z. absurd (true-ne-false (sym ((==_iff _ _).1 z) ∙ q));
            current = refl;
            around = k;
          })
        ])

  -- Between the opening of a scope and its end a visit stands in the new scope; behind it the table is
  -- back where it was.
  pub scope-At :
      {ste : ℕ} {xs : List ℕ} (self s' : Symtable) (scope flags : ℕ)
      (visit : Symtable → Run (Bool × Symtable))
      → IsFresh
      → ((new_ste : ℕ) (s t : Symtable)
          → At new_ste (xs ++ ste ∷ []) s
          → visit s ≡ done (true, t)
          → At new_ste (xs ++ ste ∷ []) t)
      → At ste xs self
      → and_then
          (enter_scope callees self scope flags)
          (λ s. and_then (visit s) (leave_scope callees))
        ≡ done (true, s')
      → At ste xs s'
  scope-At {ste} {xs} self s' scope flags visit fresh inner h e =
      let (s, p, e₁) = and_then-true (enter_scope callees self scope flags) _ s' e in
      let (t, q, e₂) = and_then-true (visit s) _ s' e₁ in
      let (new_ste, k) =
        Always-done _ _ (true, s) p (enter_scope-At self scope flags fresh h) refl in
      Always-done _ _ (true, s') e₂ (leave_scope-At ste xs t (inner new_ste s t k q)) refl

  -- The scope of a module is the first: nothing comes onto the stack.
  pub enter_first-At :
      (self : Symtable) (scope flags : ℕ)
      → IsFresh
      → self.ste ≡ callees.nil
      → Stacked [] self.stack
      → Always
          (λ (ok, s).
            ok ≡ true
            → (ste : ℕ) × At ste [] s × (head (s.entries ste) ≡ (flags, (scope, callees.nil))))
          (enter_scope callees self scope flags)
  unfolding enter_scope open_scope
  enter_first-At self scope flags fresh first h =
      Always-bind _ (entry_new callees self self.ste scope flags) _ (λ (r, s) e.
        opened r s (Always-done _ _ (r, s) e (entry_new-Same self self.ste scope flags fresh)))
    where
      opened :
          (r : Option ℕ) (s : Symtable)
          → Same self s
            × ((ste : ℕ)
                → r ≡ some ste
                → (ste ≢ callees.nil) × (head (s.entries ste) ≡ (flags, (scope, self.ste))))
          → Always
              (λ (ok, s).
                ok ≡ true
                → (ste : ℕ) × At ste [] s × (head (s.entries ste) ≡ (flags, (scope, callees.nil))))
              (elim r as (λ _. Run (Bool × Symtable)) [
                | none ↦ done (false, s)
                | some new_ste ↦ open_scope callees s scope new_ste
              ])
      opened none s p = λ q. absurd (cc q)
      opened (some new_ste) s (p, n) =
          Always-bind _ (put callees.cmp callees.blocks callees.blocks s.lookup scope new_ste) _
            (λ (ok, lookup) _.
              Always-if _ ok _ _
                (λ _.
                  rw (p.0, first, (==_iff callees.nil callees.nil).1 refl)
                    (λ _. (
                      new_ste,
                      record {
                        inside = (n new_ste refl).0;
                        current = refl;
                        around = subst (Stacked []) (sym p.1) h;
                      },
                      (n new_ste refl).1 ∙ ap (λ up. (flags, (scope, up))) first,
                    )))
                (λ _ e. absurd (true-ne-false (sym e))))

  -- At the end of a module the stack is empty, and the table stays in the module's scope.
  pub leave_first-At :
      (ste : ℕ) (self : Symtable)
      → At ste [] self
      → Always (λ (ok, s). At ste [] s) (leave_scope callees self)
  unfolding leave_scope
  leave_first-At ste self h =
      let none : self.stack.size ≡ 0 =
        omega (arith, ap length h.around.holds, length-contents self.stack h.around.valid) in
      rw (le→ltb_false 0 self.stack.size (omega arith))
        (elim (Bool-cases (self.ste == callees.nil)) [ inl q ↦ rw q h | inr q ↦ rw q h ])
