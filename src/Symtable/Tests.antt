-- ===== src/Symtable/Tests.antt =====
-- A file that uses module 5 and has the function 6 with an argument 7 and a function in it:
--   use 5   6 7 { ret fn 8 { ret 9 (7, 8, 5) } }
use chimp.Common.{
  ◌++◌, ◌≤◌, inl, inr, ℕ, ◌+◌, set, if◌then◌else◌, suc, ◌≡◌, refl, Bool, true, false, Option, none,
  some, List, [], ◌∷◌, arith, ◌==◌,
}
use chimp.Common.Runs.{Run, done, bug, fault, ◌>>=◌}
use chimp.Array.{Array}
use chimp.Array.Valid.{contents}
use chimp.Common.Members.{In}
use chimp.Hash.{Hash, empty}
use chimp.Samples.{granting, compare}
use chimp.Ast.{
  Expr, expr_call, expr_ident, expr_fn, exprs, no_exprs, stmt_ret, decl_func, decl_var, decl_use,
  Decls, decls, no_decls, Items, no_items, stmt_item, Mod, mod_root, expr_hash, expr_getitem,
}
use chimp.Symtable.{Entry, Symtable, Callees, enter_scope, sym_func}
use chimp.Symtable.Visit.{
  visit_expr, visit_items, visit_expr_ident, visit_pattern_test, new_from_ast, lookup, sym_flags,
}
use chimp.Symtable.Opening.{At, IsFresh, IsApart, head}
use chimp.Symtable.Scopes.{visit_items-At, new_from_ast-At}
use chimp.Symtable.Chain.{Chain, sym_flags_lem, visit_expr_ident-sym_flags}

abbrev total : List ℕ → ℕ
total [] = 0
total (x ∷ xs) = x + total xs

-- A new entry's number is above those of the open scopes and the count of all; 9 is a builtin.
abbrev next : Symtable → ℕ
next s = s.lookup.size + (s.ste + total (contents s.stack))

abbrev callees : Callees
callees = record {
  nil = 0;
  cmp = compare;
  blocks = granting 0;
  new_int = λ s. true;
  new_entry = λ s. done (some (suc (next s)));
  new_hash = true;
  is_builtin = λ name. done (name == 9);
  str_data = λ name. name ∷ [];
}

run_inj : (n m : ℕ) → ◌≡◌ {A = Run (Option ℕ)} (done (some (suc n))) (done (some m)) → suc n ≡ m
run_inj n m e = cc e

fresh : IsFresh callees
fresh s ste e z = omega (arith, run_inj (next s) ste e, z)

In-total : (x y : ℕ) (xs : List ℕ) → In x (xs ++ y ∷ []) → x ≤ y + total xs
In-total x y [] (inl e) = omega (arith, e)
In-total x y [] (inr e) = absurd e
In-total x y (z ∷ xs) (inl e) = omega (arith, e)
In-total x y (z ∷ xs) (inr h) = omega (arith, In-total x y xs h)

apart : IsApart callees
apart s ste e h = omega (arith, run_inj (next s) ste e, In-total ste s.ste (contents s.stack) h)

abbrev inner : Expr
inner = expr_fn 102 (decls (decl_var 8) no_decls) (
    stmt_item
      (stmt_ret (
        expr_call (expr_ident 9)
          (exprs (expr_ident 7) (exprs (expr_ident 8) (exprs (expr_ident 5) no_exprs)))))
      no_items)

abbrev uses : Decls
uses = decls (decl_use 5) no_decls

abbrev defs : Decls
defs =
    decls (decl_func 101 6 (decls (decl_var 7) no_decls) (stmt_item (stmt_ret inner) no_items))
      no_decls

abbrev ast : Mod
ast = mod_root 100 4 uses defs

abbrev no_entry : Entry
no_entry = record {
  flags = 0;
  scope = 0;
  symbols = empty;
  parent = 0;
  children = record { items = []; size = 0; capacity = 0 };
}

-- The table, and what it says of a name in a scope
abbrev flags_in : ℕ → ℕ → Run (Option ℕ)
flags_in scope name = new_from_ast callees (λ p. no_entry) 3 ast >>= (λ r. elim r [
  | none ↦ bug
  | some t ↦ lookup callees t scope >>= (λ ste. sym_flags callees 4 t ste name)
])

abbrev room : List ℕ
room = 0 ∷ 0 ∷ 0 ∷ 0 ∷ 0 ∷ 0 ∷ 0 ∷ 0 ∷ 0 ∷ 0 ∷ []

-- Entry 1 is a function's with the names 5 and 7, and entry 2 is a function's in it.
abbrev entry : ℕ → Entry
entry p = record {
  flags = 32768;
  scope = 100 + p;
  symbols =
      if p == 1 then record { keys = 5 ∷ 7 ∷ []; values = 32769 ∷ 32769 ∷ []; size = 2 } else empty;
  parent = if p == 1 then 0 else 1;
  children = record { items = room; size = 0; capacity = 10 };
}

abbrev start : Symtable
start = record {
  filename = 3;
  lookup = record { keys = 101 ∷ []; values = 1 ∷ []; size = 1 };
  stack = record { items = room; size = 0; capacity = 10 };
  ste = 1;
  entries = entry;
}

abbrev nested : Symtable
nested = record start { ste = 2; stack = record { items = set room 0 1; size = 1; capacity = 10 } }

abbrev body : Items
body = stmt_item (stmt_ret inner) no_items

abbrev behind : Run (Bool × Symtable) → Symtable
behind (done (ok, t)) = t
behind bug = start
behind fault = start

abbrev built : Run (Option Symtable) → Symtable
built (done (some t)) = t
built _ = start

start-At : At callees 1 [] start
start-At = record {
  inside = λ e. omega (arith, e);
  current = refl;
  around = record {
    valid = record { fits = omega arith; allocated = refl };
    room = omega arith;
    holds = refl;
  };
}

nested-Chain : Chain callees nested (2 ∷ 1 ∷ []) 2
nested-Chain = (
  refl,
  (λ e. omega (arith, e)),
  record { keys_fit = omega arith; values_fit = omega arith },
  (
    refl,
    (λ e. omega (arith, e)),
    record { keys_fit = omega arith; values_fit = omega arith },
    refl,
  ),
)

free_flags : flags_in 102 7 ≡ done (some 32772)
unfolding new_from_ast lookup sym_flags chimp.Array.new chimp.Symtable.and_then enter_scope
    chimp.Hash.put chimp.Table.scan chimp.Memory.realloc chimp.Memory.write chimp.Symtable.add
    chimp.Memory.read chimp.Array.push chimp.Array.grow chimp.Hash.get chimp.Symtable.is_module
    chimp.Symtable.leave_scope chimp.Array.pop
free_flags = refl

argument_flags : flags_in 102 8 ≡ done (some 32769)
unfolding new_from_ast lookup sym_flags chimp.Array.new chimp.Symtable.and_then enter_scope
    chimp.Hash.put chimp.Table.scan chimp.Memory.realloc chimp.Memory.write chimp.Symtable.add
    chimp.Memory.read chimp.Array.push chimp.Array.grow chimp.Hash.get chimp.Symtable.is_module
    chimp.Symtable.leave_scope chimp.Array.pop
argument_flags = refl

builtin_flags : flags_in 102 9 ≡ done (some 2)
unfolding new_from_ast lookup sym_flags chimp.Array.new chimp.Symtable.and_then enter_scope
    chimp.Hash.put chimp.Table.scan chimp.Memory.realloc chimp.Memory.write chimp.Symtable.add
    chimp.Memory.read chimp.Array.push chimp.Array.grow chimp.Hash.get chimp.Symtable.is_module
    chimp.Symtable.leave_scope chimp.Array.pop
builtin_flags = refl

use_flags : flags_in 102 5 ≡ done (some 4097)
unfolding new_from_ast lookup sym_flags chimp.Array.new chimp.Symtable.and_then enter_scope
    chimp.Hash.put chimp.Table.scan chimp.Memory.realloc chimp.Memory.write chimp.Symtable.add
    chimp.Memory.read chimp.Array.push chimp.Array.grow chimp.Hash.get chimp.Symtable.is_module
    chimp.Symtable.leave_scope chimp.Array.pop
use_flags = refl

-- A key of a pattern with no value after it is read behind the array.
odd_pattern : visit_pattern_test callees (expr_hash (exprs (expr_ident 7) no_exprs)) start ≡ fault
unfolding visit_pattern_test
odd_pattern = refl

-- The name 10, which nothing declares, passes as the key of an item.
unknown_key :
    visit_expr callees (expr_getitem (expr_ident 7) (expr_ident 10)) start ≡ done (true, start)
unfolding new_from_ast visit_expr visit_expr_ident sym_flags chimp.Array.new chimp.Symtable.and_then
    enter_scope chimp.Hash.put chimp.Table.scan chimp.Memory.realloc chimp.Memory.write
    chimp.Symtable.add chimp.Memory.read chimp.Array.push chimp.Array.grow chimp.Hash.get
    chimp.Symtable.is_module chimp.Symtable.leave_scope chimp.Array.pop
unknown_key = refl

unknown_ident : visit_expr callees (expr_ident 10) start ≡ bug
unfolding new_from_ast visit_expr visit_expr_ident sym_flags chimp.Array.new chimp.Symtable.and_then
    enter_scope chimp.Hash.put chimp.Table.scan chimp.Memory.realloc chimp.Memory.write
    chimp.Symtable.add chimp.Memory.read chimp.Array.push chimp.Array.grow chimp.Hash.get
    chimp.Symtable.is_module chimp.Symtable.leave_scope chimp.Array.pop
unknown_ident = refl

visit_items-At_example : At callees 1 [] (behind (visit_items callees body start))
unfolding new_from_ast visit_expr visit_expr_ident sym_flags chimp.Array.new chimp.Symtable.and_then
    enter_scope chimp.Hash.put chimp.Table.scan chimp.Memory.realloc chimp.Memory.write
    chimp.Symtable.add chimp.Memory.read chimp.Array.push chimp.Array.grow chimp.Hash.get
    chimp.Symtable.is_module chimp.Symtable.leave_scope chimp.Array.pop
visit_items-At_example =
    visit_items-At callees fresh body 1 [] start (behind (visit_items callees body start)) start-At
      refl

new_from_ast-At_example :
    (ste : ℕ) × At callees ste [] (built (new_from_ast callees (λ p. no_entry) 3 ast))
    × (head ((built (new_from_ast callees (λ p. no_entry) 3 ast)).entries ste) ≡ (4096, (100, 0)))
unfolding new_from_ast visit_expr visit_expr_ident sym_flags chimp.Array.new chimp.Symtable.and_then
    enter_scope chimp.Hash.put chimp.Table.scan chimp.Memory.realloc chimp.Memory.write
    chimp.Symtable.add chimp.Memory.read chimp.Array.push chimp.Array.grow chimp.Hash.get
    chimp.Symtable.is_module chimp.Symtable.leave_scope chimp.Array.pop
new_from_ast-At_example =
    new_from_ast-At callees fresh apart (λ p. no_entry) 3 100 4 uses defs
      (built (new_from_ast callees (λ p. no_entry) 3 ast)) refl

sym_flags_lem_example : sym_flags callees 3 nested 2 7 ≡ done (some 32769)
sym_flags_lem_example = sym_flags_lem callees 3 nested 7 2 (2 ∷ 1 ∷ []) nested-Chain (omega arith)

visit_expr_ident-sym_flags_example :
    sym_flags callees 3 (behind (visit_expr_ident callees 7 nested)) 2 7 ≡ done (some 32772)
unfolding new_from_ast visit_expr visit_expr_ident sym_flags chimp.Array.new chimp.Symtable.and_then
    enter_scope chimp.Hash.put chimp.Table.scan chimp.Memory.realloc chimp.Memory.write
    chimp.Symtable.add chimp.Memory.read chimp.Array.push chimp.Array.grow chimp.Hash.get
    chimp.Symtable.is_module chimp.Symtable.leave_scope chimp.Array.pop
visit_expr_ident-sym_flags_example =
    visit_expr_ident-sym_flags callees nested (behind (visit_expr_ident callees 7 nested)) 7
      (2 ∷ 1 ∷ []) false nested-Chain (omega arith) refl refl refl
