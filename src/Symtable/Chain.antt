-- ===== src/Symtable/Chain.antt =====
-- libchimp/symtable.c: which entry a name belongs to, along the chain of parents.
use chimp.Common.{
  ℕ, zero, suc, ◌+◌, ◌≡◌, ◌≢◌, ◌<◌, ◌≤◌, refl, ap, sym, ◌∙◌, subst, Bool, true, false, not, ◌&&◌,
  Option, none, some, List, [], ◌∷◌, length, ◌==◌, ==_iff, Bool-cases, inl, inr, if◌then◌else◌,
  arith,
}
use chimp.Common.Runs.{Always-if, Run, done, bug, bind_done, Always, Always-bind, Always-done}
use chimp.Compare.{eq}
use chimp.Hash.{Hash, put}
use chimp.Hash.Refine.{IsValid, entries, get-look, get-put_self}
use chimp.Table.{Looked, value, missing, error, look}
use chimp.Symtable.{
  Symtable, Callees, sym_builtin, sym_free, sym_special, type_of, is_module, entry_at, add,
  set_entry,
}
use chimp.Symtable.Stack.{true-ne-false}
use chimp.Symtable.Visit.{return_true, seek, add_unknown, add_used, visit_expr_ident, sym_flags}

module _ (callees : Callees) where
  -- `es` are the entries from `ste` up to the outermost, and their symbols are valid hashes.
  abbrev pub Chain : Symtable → List ℕ → ℕ → Type 0
  Chain self [] ste = ste ≡ callees.nil
  Chain self (e ∷ es) ste =
      (ste ≡ e)
      × (e ≢ callees.nil)
      × IsValid (self.entries e).symbols
      × Chain self es (self.entries e).parent

  -- The first entry of a list that has a value for the name, with the value
  abbrev pub nearest : Symtable → ℕ → List ℕ → Option (ℕ × ℕ)
  nearest self name [] = none
  nearest self name (e ∷ es) = elim (look callees.cmp name (entries (self.entries e).symbols)) [
    | value flags ↦ some (e, flags)
    | missing ↦ nearest self name es
    | error ↦ nearest self name es
  ]

  ==_false : (a b : ℕ) → a ≢ b → (a == b) ≡ false
  ==_false a b n = ground arith

  seek_lem :
      (fuel : ℕ) (self : Symtable) (name ste : ℕ) (es : List ℕ)
      → Chain self es ste
      → length es < fuel
      → seek callees fuel self name ste ≡ done (nearest self name es)
  unfolding seek
  seek_lem zero self name ste es c h = absurd (omega arith)
  seek_lem (suc fuel) self name ste [] c h = rw ((==_iff ste callees.nil).1 c)
  seek_lem (suc fuel) self name ste (e ∷ es) (p, n, v, c) h =
      subst (λ x. seek callees (suc fuel) self name x ≡ done (nearest self name (e ∷ es))) (sym p)
        (rw (==_false e callees.nil n, get-look callees.cmp 0 (self.entries e).symbols name v)
          (at (look callees.cmp name (entries (self.entries e).symbols))
            (seek callees fuel self name (self.entries e).parent)
            (seek_lem fuel self name (self.entries e).parent es c (omega arith))))
    where
      at :
          (r : Looked ℕ) (rest : Run (Option (ℕ × ℕ)))
          → rest ≡ done (nearest self name es)
          → (elim r as (λ _. Run (Option (ℕ × ℕ))) [
            | value flags ↦ done (some (e, flags))
            | missing ↦ rest
            | error ↦ rest
          ])
            ≡ done (elim r [
              | value flags ↦ some (e, flags)
              | missing ↦ nearest self name es
              | error ↦ nearest self name es
            ])
      at (value flags) rest h = refl
      at missing rest h = h
      at error rest h = h

  -- The flags of a name in an entry of the nearest scope, from a chain of scopes
  abbrev pub flags_of : Option (ℕ × ℕ) → Option ℕ
  flags_of none = none
  flags_of (some (e, flags)) = some flags

  -- What `chimp_symtable_entry_sym_flags` finds is the value of the first entry, from the given one up
  -- along its parents, that has the name, or CHIMP_FALSE where none has it; the loop ends within one
  -- round more than there are entries.
  pub sym_flags_lem :
      (fuel : ℕ) (self : Symtable) (name ste : ℕ) (es : List ℕ)
      → Chain self es ste
      → length es < fuel
      → sym_flags callees fuel self ste name ≡ done (flags_of (nearest self name es))
  unfolding sym_flags
  sym_flags_lem fuel self name ste es c h =
      rw (seek_lem fuel self name ste es c h) (at (nearest self name es))
    where
      at :
          (r : Option (ℕ × ℕ))
          → (elim r as (λ _. Run (Option ℕ)) [
            | none ↦ done none
            | some (e, flags) ↦ done (some flags)
          ])
            ≡ done (flags_of r)
      at none = refl
      at (some (e, flags)) = refl

  -- A symbol that was added stands in the symbols of the current entry.
  record Added (s t : Symtable) (name flags : ℕ) : Type 0 where
    inside : s.ste ≢ callees.nil
    symbols : Hash ℕ ℕ
    put_true :
        put callees.cmp callees.blocks callees.blocks (s.entries s.ste).symbols name flags
        ≡ done (true, symbols)
    result : set_entry s.ste (record (s.entries s.ste) { symbols = symbols }) s ≡ t

  add-Added :
      (s : Symtable) (name flags : ℕ)
      → Always (λ (ok, t). ok ≡ true → Added s t name flags) (add callees s name flags)
  unfolding add entry_at
  add-Added s name flags = elim (Bool-cases (s.ste == callees.nil)) [
    | inl q ↦ rw q tt
    | inr q ↦ rw q (
        Always-if _ (callees.new_int s) _ _
          (λ _.
            Always-bind _
              (put callees.cmp callees.blocks callees.blocks (s.entries s.ste).symbols name flags) _
              (λ (ok, h) p o. record {
                inside = λ z. true-ne-false (sym ((==_iff _ _).1 z) ∙ q);
                symbols = h;
                put_true = p ∙ ap (λ b. done (b, h)) o;
                result = refl;
              }))
          (λ _ o. absurd (true-ne-false (sym o))))
  ]

  -- After a symbol was added to a valid entry, its flags are found there at once.
  add-sym_flags :
      (fuel : ℕ) (s t : Symtable) (name flags : ℕ)
      → (s.ste ≢ callees.nil → IsValid (s.entries s.ste).symbols)
      → callees.cmp name name ≡ eq
      → add callees s name flags ≡ done (true, t)
      → sym_flags callees (suc fuel) t t.ste name ≡ done (some flags)
  unfolding sym_flags seek set_entry
  add-sym_flags fuel s t name flags v self e =
      let a = Always-done _ _ (true, t) e (add-Added s name flags) refl in
      subst (λ (t : Symtable). sym_flags callees (suc fuel) t t.ste name ≡ done (some flags))
        a.result
        (rw (
          ==_false s.ste callees.nil a.inside,
          (==_iff s.ste s.ste).1 refl,
          get-put_self callees.cmp callees.blocks callees.blocks 0 (s.entries s.ste).symbols
              a.symbols name flags (v a.inside) self a.put_true,
        ))

  -- The flags that a name gets where it is used: those of the entry that has it, if that is the current
  -- one or a module's; the free variable's of an entry around; or, for a name that no entry has, the
  -- builtin's or the special name's.
  abbrev pub used_flags : Symtable → Option (ℕ × ℕ) → Bool → ℕ
  used_flags self (some (e, flags)) builtin =
      if not (e == self.ste) && not (is_module (self.entries e))
      then sym_free + type_of (self.entries e)
      else flags
  used_flags self none builtin = if builtin then sym_builtin else sym_special

  symbols-IsValid :
      (s : Symtable) (es : List ℕ)
      → Chain s es s.ste
      → s.ste ≢ callees.nil
      → IsValid (s.entries s.ste).symbols
  symbols-IsValid s [] c n = absurd (n c)
  symbols-IsValid s (e ∷ es) (p, n, v, c) m = subst (λ x. IsValid (s.entries x).symbols) (sym p) v

  -- Where the walk has gone past a name in use, `chimp_symtable_entry_sym_flags` finds it from the current
  -- entry: with the flags it has in the entry where it is found, if that is the current one or a
  -- module's, as a free variable with that entry's kind, if it is another entry, or as a builtin or a
  -- special name, if no entry has it.
  pub visit_expr_ident-sym_flags :
      (s t : Symtable) (name : ℕ) (es : List ℕ) (builtin : Bool)
      → Chain s es s.ste
      → length es ≤ s.stack.size + 1
      → callees.cmp name name ≡ eq
      → callees.is_builtin name ≡ done builtin
      → visit_expr_ident callees name s ≡ done (true, t)
      → sym_flags callees (s.stack.size + 2) t t.ste name
        ≡ done (some (used_flags s (nearest s name es) builtin))
  unfolding visit_expr_ident add_used add_unknown
  visit_expr_ident-sym_flags s t name es builtin c few self b e =
      let (r, p, e₁) = bind_done (seek callees (s.stack.size + 2) s name s.ste) _ e in
      let same : done r ≡ done (nearest s name es) =
        sym p ∙ seek_lem (s.stack.size + 2) s name s.ste es c (omega arith) in
      at (nearest s name es) refl
        (subst (λ r. add_used callees name r s ≡ done (true, t)) {x = r} (cc same) e₁)
    where
      Flags : ℕ → Type 0
      Flags flags = sym_flags callees (s.stack.size + 2) t t.ste name ≡ done (some flags)

      added : (flags : ℕ) → add callees s name flags ≡ done (true, t) → Flags flags
      added flags h =
          subst (λ n. sym_flags callees n t t.ste name ≡ done (some flags))
            {x = suc (s.stack.size + 1)} (omega arith)
            (add-sym_flags (s.stack.size + 1) s t name flags (symbols-IsValid s es c) self h)

      unknown :
          (b special : Bool)
          → (if b
              then add callees s name sym_builtin
              else if special
              then add callees s name sym_special
              else bug)
            ≡ done (true, t)
          → Flags (if b then sym_builtin else sym_special)
      unknown true special h = added sym_builtin h
      unknown false true h = added sym_special h
      unknown false false h = absurd (cc h)

      found :
          (outer : Bool) (u free flags : ℕ)
          → nearest s name es ≡ some (u, flags)
          → (if outer then add callees s name free else return_true s) ≡ done (true, t)
          → Flags (if outer then free else flags)
      found true u free flags n h = added free h
      found false u free flags n h =
          subst
            (λ (t : Symtable).
              sym_flags callees (s.stack.size + 2) t t.ste name ≡ done (some flags))
            {x = s} (cc h)
            (sym_flags_lem (s.stack.size + 2) s name s.ste es c (omega arith)
              ∙ ap (λ r. done (flags_of r)) n)

      at :
          (r : Option (ℕ × ℕ))
          → nearest s name es ≡ r
          → add_used callees name r s ≡ done (true, t)
          → Flags (used_flags s r builtin)
      at none n h =
          let (b', p, h₁) = bind_done (callees.is_builtin name) _ h in
          let same : done b' ≡ done builtin = sym p ∙ b in
          subst (λ c. Flags (if c then sym_builtin else sym_special)) {x = b'} (cc same)
            (unknown b' _ h₁)
      at (some (u, flags)) n h = found _ u _ flags n h
