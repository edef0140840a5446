-- ===== src/Symtable/Visit.antt =====
-- libchimp/symtable.c: the walk over a syntax tree that fills the table, and the lookups in the result.
-- A function for one kind of node takes the visits of the node's parts as functions.
use chimp.Common.{
  ℕ, zero, suc, ◌+◌, Bool, true, false, not, ◌&&◌, ◌||◌, Option, none, some, List, [], ◌∷◌, ◌==◌,
  if◌then◌else◌,
}
use chimp.Common.Runs.{Run, done, bug, fault, ◌>>=◌}
use chimp.Array.{new}
use chimp.Hash.{empty, get}
use chimp.Table.{value, missing, error}
use chimp.Ast.{
  Expr, expr_binop, expr_call, expr_spawn, expr_getattr, expr_getitem, expr_array, expr_hash,
  expr_str, expr_int, expr_float, expr_ident, expr_wildcard, expr_nil, expr_fn, expr_bool, expr_not,
  Exprs, no_exprs, exprs, Stmt, stmt_expr, stmt_if, stmt_if_else, stmt_while, stmt_break,
  stmt_ret_nil, stmt_ret, stmt_match, stmt_assign, Patterns, no_patterns, patterns, Decl, decl_func,
  decl_class, decl_var, decl_var_value, decl_use, Decls, no_decls, decls, Items, no_items,
  stmt_item, decl_item, Mod, mod_root,
}
use chimp.Symtable.{
  Entry, Symtable, Callees, sym_decl, sym_builtin, sym_free, sym_special, sym_module, sym_class,
  sym_func, type_of, is_module, and_then, entry_at, enter_scope, leave_scope, add,
}

abbrev pub Visit : Type 0
Visit = Symtable → Run (Bool × Symtable)

-- `return CHIMP_TRUE;`
abbrev pub return_true : Visit
return_true self = done (true, self)

-- `strcmp (a, b) == 0`
abbrev pub str_eq : List ℕ → List ℕ → Bool
str_eq [] [] = true
str_eq (x ∷ xs) (y ∷ ys) = (x == y) && str_eq xs ys
str_eq _ _ = false

-- The bytes of `__file__` and `__line__`
abbrev pub file_name : List ℕ
file_name = 95 ∷ 95 ∷ 102 ∷ 105 ∷ 108 ∷ 101 ∷ 95 ∷ 95 ∷ []

abbrev pub line_name : List ℕ
line_name = 95 ∷ 95 ∷ 108 ∷ 105 ∷ 110 ∷ 101 ∷ 95 ∷ 95 ∷ []

module _ (callees : Callees) where
  -- The loop from an entry to its parents, up to the first that has the name: that entry with the flags
  -- it has for the name. `fault` is a loop that `fuel` rounds do not end.
  unfoldable pub seek : ℕ → Symtable → ℕ → ℕ → Run (Option (ℕ × ℕ))
  seek zero self name ste = fault
  seek (suc fuel) self name ste =
      let rest = seek fuel self name (self.entries ste).parent in
      if ste == callees.nil
      then done none
      else get callees.cmp (self.entries ste).symbols name
        >>= (λ r. elim r [ value flags ↦ done (some (ste, flags)) | missing ↦ rest | error ↦ rest ])

  -- `chimp_symtable_visit_expr_ident` where the loop has found no entry
  unfoldable pub add_unknown : ℕ → Visit
  add_unknown name self = callees.is_builtin name >>= (λ b.
      if b
      then add callees self name sym_builtin
      else if str_eq (callees.str_data name) file_name || str_eq (callees.str_data name) line_name
      then add callees self name sym_special
      else bug)

  -- `chimp_symtable_visit_expr_ident` behind the search. A scope's kind and `CHIMP_SYM_FREE` have no bit
  -- in common, so `|` is a sum.
  unfoldable pub add_used : ℕ → Option (ℕ × ℕ) → Visit
  unfolding add_unknown
  add_used name none self = add_unknown name self
  add_used name (some (ste, flags)) self =
      if not (ste == self.ste) && not (is_module (self.entries ste))
      then add callees self name (sym_free + type_of (self.entries ste))
      else return_true self

  -- `chimp_symtable_visit_expr_ident`. The loop meets the current entry, those on the stack, and nil.
  unfoldable pub visit_expr_ident : ℕ → Visit
  unfolding seek add_used
  visit_expr_ident name self =
      seek (self.stack.size + 2) self name self.ste >>= (λ r. add_used name r self)

  -- What each declaration does first: its name gets `CHIMP_SYM_DECL | type`.
  unfoldable pub declare : ℕ → Visit
  declare name self =
      entry_at callees self self.ste >>= (λ e. add callees self name (sym_decl + type_of e))

  unfoldable pub visit_decl_func : ℕ → ℕ → Visit → Visit → Visit
  unfolding declare
  visit_decl_func decl name visit_args visit_body self = and_then (declare name self) (λ s₀.
      and_then (enter_scope callees s₀ decl sym_func)
        (λ s₁. and_then (and_then (visit_args s₁) visit_body) (leave_scope callees)))

  -- `chimp_symtable_add (self, chimp_array_first (base), 0)`, if there is a base
  unfoldable pub add_base : Option (List ℕ) → Visit
  add_base none self = return_true self
  add_base (some []) self = add callees self callees.nil 0
  add_base (some (name ∷ names)) self = add callees self name 0

  unfoldable pub visit_decl_class : ℕ → ℕ → Option (List ℕ) → Visit → Visit
  unfolding declare add_base
  visit_decl_class decl name base visit_body self = and_then (declare name self) (λ s₀.
      and_then (enter_scope callees s₀ decl sym_class)
        (λ s₁. and_then (and_then (add_base base s₁) visit_body) (leave_scope callees)))

  unfoldable pub visit_expr_fn : ℕ → Visit → Visit → Visit
  visit_expr_fn expr visit_args visit_body self =
      and_then (enter_scope callees self expr sym_func)
        (λ s₁. and_then (and_then (visit_args s₁) visit_body) (leave_scope callees))

  -- `chimp_symtable_visit_stmt_pattern_test` and its loops over an array and over a hash, which stands as
  -- an array of keys and values: a key with no value after it is a read behind the block.
  unfoldable mutual
    unfolding declare

    pub visit_pattern_test : Expr → Visit
    visit_pattern_test (expr_ident name) self = declare name self
    visit_pattern_test (expr_array items) self = visit_pattern_tests items self
    visit_pattern_test (expr_hash items) self = visit_pattern_pairs items self
    visit_pattern_test _ self = return_true self

    pub visit_pattern_tests : Exprs → Visit
    visit_pattern_tests no_exprs self = return_true self
    visit_pattern_tests (exprs item items) self =
        and_then (visit_pattern_test item self) (visit_pattern_tests items)

    pub visit_pattern_pairs : Exprs → Visit
    visit_pattern_pairs no_exprs self = return_true self
    visit_pattern_pairs (exprs key no_exprs) self = fault
    visit_pattern_pairs (exprs key (exprs item items)) self =
        and_then (visit_pattern_test key self)
          (λ s₁. and_then (visit_pattern_test item s₁) (visit_pattern_pairs items))

  unfoldable mutual
    unfolding visit_expr_ident declare visit_decl_func visit_decl_class visit_expr_fn
        visit_pattern_test

    pub visit_expr : Expr → Visit
    visit_expr (expr_call target args) self = and_then (visit_expr target self) (visit_exprs args)
    visit_expr (expr_getattr target attr) self = visit_expr target self
    visit_expr (expr_getitem target key) self = visit_expr target self
    visit_expr (expr_array items) self = visit_exprs items self
    visit_expr (expr_hash items) self = visit_exprs items self
    visit_expr (expr_ident name) self = visit_expr_ident name self
    visit_expr (expr_str v) self = return_true self
    visit_expr (expr_bool b) self = return_true self
    visit_expr expr_nil self = return_true self
    visit_expr (expr_binop op left right) self = and_then (visit_expr left self) (visit_expr right)
    visit_expr (expr_int v) self = return_true self
    visit_expr (expr_float v) self = return_true self
    visit_expr (expr_fn expr args body) self =
        visit_expr_fn expr (visit_decls args) (visit_items body) self
    visit_expr (expr_spawn target args) self = and_then (visit_expr target self) (visit_exprs args)
    visit_expr (expr_not e) self = visit_expr e self
    visit_expr expr_wildcard self = bug

    pub visit_exprs : Exprs → Visit
    visit_exprs no_exprs self = return_true self
    visit_exprs (exprs item items) self = and_then (visit_expr item self) (visit_exprs items)

    pub visit_stmt : Stmt → Visit
    visit_stmt (stmt_expr e) self = visit_expr e self
    visit_stmt (stmt_assign target e) self = and_then (visit_expr target self) (visit_expr e)
    visit_stmt (stmt_if e body) self = and_then (visit_expr e self) (visit_items body)
    visit_stmt (stmt_if_else e body orelse) self =
        and_then (visit_expr e self) (λ s₁. and_then (visit_items body s₁) (visit_items orelse))
    visit_stmt (stmt_while e body) self = and_then (visit_expr e self) (visit_items body)
    visit_stmt (stmt_match e body) self = and_then (visit_expr e self) (visit_patterns body)
    visit_stmt stmt_ret_nil self = return_true self
    visit_stmt (stmt_ret e) self = visit_expr e self
    visit_stmt stmt_break self = return_true self

    pub visit_patterns : Patterns → Visit
    visit_patterns no_patterns self = return_true self
    visit_patterns (patterns test body rest) self =
        and_then (visit_pattern_test test self)
          (λ s₁. and_then (visit_items body s₁) (visit_patterns rest))

    pub visit_decl : Decl → Visit
    visit_decl (decl_func decl name args body) self =
        visit_decl_func decl name (visit_decls args) (visit_items body) self
    visit_decl (decl_class decl name base body) self =
        visit_decl_class decl name base (visit_decls body) self
    visit_decl (decl_use name) self = declare name self
    visit_decl (decl_var name) self = declare name self
    visit_decl (decl_var_value name e) self = and_then (declare name self) (visit_expr e)

    pub visit_decls : Decls → Visit
    visit_decls no_decls self = return_true self
    visit_decls (decls decl rest) self = and_then (visit_decl decl self) (visit_decls rest)

    pub visit_items : Items → Visit
    visit_items no_items self = return_true self
    visit_items (stmt_item stmt rest) self = and_then (visit_stmt stmt self) (visit_items rest)
    visit_items (decl_item decl rest) self = and_then (visit_decl decl self) (visit_items rest)

  -- `chimp_symtable_visit_mod`
  unfoldable pub visit_mod : Mod → Visit
  unfolding visit_expr
  visit_mod (mod_root m name uses body) self =
      and_then (enter_scope callees self m sym_module)
        (λ s₁. and_then (and_then (visit_decls uses s₁) (visit_decls body)) (leave_scope callees))

  -- `chimp_symtable_new_from_ast` with `_chimp_symtable_init`; the entries are what the store holds
  -- before, and `none` is NULL.
  unfoldable pub new_from_ast : (ℕ → Entry) → ℕ → Mod → Run (Option Symtable)
  unfolding visit_mod
  new_from_ast entries filename ast =
      if callees.new_hash
      then elim (new callees.blocks) [
        | none ↦ done none
        | some stack ↦
            let self : Symtable = record {
              filename = filename;
              lookup = empty;
              stack = stack;
              ste = callees.nil;
              entries = entries;
            } in
            visit_mod ast self >>= (λ (ok, s). done (if ok then some s else none))
      ]
      else done none

  -- `chimp_symtable_lookup`
  unfoldable pub lookup : Symtable → ℕ → Run ℕ
  lookup self scope =
      get callees.cmp self.lookup scope
      >>= (λ r. elim r [ value ste ↦ done ste | missing ↦ bug | error ↦ bug ])

  -- `chimp_symtable_entry_sym_flags`; `none` is CHIMP_FALSE.
  unfoldable pub sym_flags : ℕ → Symtable → ℕ → ℕ → Run (Option ℕ)
  unfolding seek
  sym_flags fuel self ste name =
      seek fuel self name ste
      >>= (λ r. elim r [ none ↦ done none | some (e, flags) ↦ done (some flags) ])

  -- `chimp_symtable_entry_sym_exists`
  unfoldable pub sym_exists : ℕ → Symtable → ℕ → ℕ → Run Bool
  unfolding sym_flags
  sym_exists fuel self ste name =
      sym_flags fuel self ste name >>= (λ r. done (elim r [ none ↦ false | some flags ↦ true ]))
