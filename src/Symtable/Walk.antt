-- ===== src/Symtable/Walk.antt =====
-- libchimp/symtable.c: the walk over a syntax tree keeps what its two kinds of change keep.
use chimp.Common.{ℕ, List}
use chimp.Ast.{
  Expr, expr_binop, expr_call, expr_spawn, expr_getattr, expr_getitem, expr_array, expr_hash,
  expr_str, expr_int, expr_float, expr_ident, expr_wildcard, expr_nil, expr_fn, expr_bool, expr_not,
  Exprs, no_exprs, exprs, Stmt, stmt_expr, stmt_if, stmt_if_else, stmt_while, stmt_break,
  stmt_ret_nil, stmt_ret, stmt_match, stmt_assign, Patterns, no_patterns, patterns, Decl, decl_func,
  decl_class, decl_var, decl_var_value, decl_use, Decls, no_decls, decls, Items, no_items,
  stmt_item, decl_item,
}
use chimp.Symtable.{Symtable, Callees, sym_class, sym_func}
use chimp.Symtable.Visit.{
  declare, visit_decl_func, add_base, visit_decl_class, visit_expr_fn, visit_pattern_test,
  visit_pattern_tests, visit_pattern_pairs, visit_expr, visit_exprs, visit_stmt, visit_patterns,
  visit_decl, visit_decls, visit_items,
}
use chimp.Symtable.Keeps.{
  Keeps, Kept, keep_true, keep_then, keep_declare, keep_base, keep_bug, keep_ident,
}

module _ (callees : Callees) (Inv : ℕ → List ℕ → Symtable → Type 0) (kept : Kept callees Inv) where
  mutual
    unfolding visit_pattern_test

    pub keep_test : (e : Expr) → Keeps callees Inv (visit_pattern_test callees e)
    keep_test (expr_ident name) = keep_declare callees Inv kept name
    keep_test (expr_array items) = keep_tests items
    keep_test (expr_hash items) = keep_pairs items
    keep_test _ = keep_true callees Inv kept

    keep_tests : (es : Exprs) → Keeps callees Inv (visit_pattern_tests callees es)
    keep_tests no_exprs = keep_true callees Inv kept
    keep_tests (exprs item items) =
        keep_then callees Inv kept (visit_pattern_test callees item)
          (visit_pattern_tests callees items) (keep_test item) (keep_tests items)

    keep_pairs : (es : Exprs) → Keeps callees Inv (visit_pattern_pairs callees es)
    keep_pairs no_exprs = keep_true callees Inv kept
    keep_pairs (exprs key no_exprs) = λ ste xs s t h e. absurd (cc e)
    keep_pairs (exprs key (exprs item items)) =
        keep_then callees Inv kept (visit_pattern_test callees key) _ (keep_test key) (
          keep_then callees Inv kept (visit_pattern_test callees item)
            (visit_pattern_pairs callees items) (keep_test item) (keep_pairs items))

  mutual
    unfolding visit_expr visit_expr_fn visit_decl_func visit_decl_class

    keep_expr : (e : Expr) → Keeps callees Inv (visit_expr callees e)
    keep_expr (expr_call target args) =
        keep_then callees Inv kept (visit_expr callees target) (visit_exprs callees args)
          (keep_expr target) (keep_exprs args)
    keep_expr (expr_getattr target attr) = keep_expr target
    keep_expr (expr_getitem target key) = keep_expr target
    keep_expr (expr_array items) = keep_exprs items
    keep_expr (expr_hash items) = keep_exprs items
    keep_expr (expr_ident name) = keep_ident callees Inv kept name
    keep_expr (expr_str v) = keep_true callees Inv kept
    keep_expr (expr_bool b) = keep_true callees Inv kept
    keep_expr expr_nil = keep_true callees Inv kept
    keep_expr (expr_binop op left right) =
        keep_then callees Inv kept (visit_expr callees left) (visit_expr callees right)
          (keep_expr left) (keep_expr right)
    keep_expr (expr_int v) = keep_true callees Inv kept
    keep_expr (expr_float v) = keep_true callees Inv kept
    keep_expr (expr_fn expr args body) = kept.keep_scope expr sym_func _ (
        keep_then callees Inv kept (visit_decls callees args) (visit_items callees body)
          (keep_decls args) (keep_items body))
    keep_expr (expr_spawn target args) =
        keep_then callees Inv kept (visit_expr callees target) (visit_exprs callees args)
          (keep_expr target) (keep_exprs args)
    keep_expr (expr_not e) = keep_expr e
    keep_expr expr_wildcard = keep_bug callees Inv kept

    keep_exprs : (es : Exprs) → Keeps callees Inv (visit_exprs callees es)
    keep_exprs no_exprs = keep_true callees Inv kept
    keep_exprs (exprs item items) =
        keep_then callees Inv kept (visit_expr callees item) (visit_exprs callees items)
          (keep_expr item) (keep_exprs items)

    keep_stmt : (st : Stmt) → Keeps callees Inv (visit_stmt callees st)
    keep_stmt (stmt_expr e) = keep_expr e
    keep_stmt (stmt_assign target e) =
        keep_then callees Inv kept (visit_expr callees target) (visit_expr callees e)
          (keep_expr target) (keep_expr e)
    keep_stmt (stmt_if e body) =
        keep_then callees Inv kept (visit_expr callees e) (visit_items callees body) (keep_expr e)
          (keep_items body)
    keep_stmt (stmt_if_else e body orelse) =
        keep_then callees Inv kept (visit_expr callees e) _ (keep_expr e) (
          keep_then callees Inv kept (visit_items callees body) (visit_items callees orelse)
            (keep_items body) (keep_items orelse))
    keep_stmt (stmt_while e body) =
        keep_then callees Inv kept (visit_expr callees e) (visit_items callees body) (keep_expr e)
          (keep_items body)
    keep_stmt (stmt_match e body) =
        keep_then callees Inv kept (visit_expr callees e) (visit_patterns callees body)
          (keep_expr e) (keep_patterns body)
    keep_stmt stmt_ret_nil = keep_true callees Inv kept
    keep_stmt (stmt_ret e) = keep_expr e
    keep_stmt stmt_break = keep_true callees Inv kept

    keep_patterns : (ps : Patterns) → Keeps callees Inv (visit_patterns callees ps)
    keep_patterns no_patterns = keep_true callees Inv kept
    keep_patterns (patterns test body rest) =
        keep_then callees Inv kept (visit_pattern_test callees test) _ (keep_test test) (
          keep_then callees Inv kept (visit_items callees body) (visit_patterns callees rest)
            (keep_items body) (keep_patterns rest))

    keep_decl : (d : Decl) → Keeps callees Inv (visit_decl callees d)
    keep_decl (decl_func decl name args body) =
        keep_then callees Inv kept (declare callees name) _ (keep_declare callees Inv kept name) (
          kept.keep_scope decl sym_func _ (
            keep_then callees Inv kept (visit_decls callees args) (visit_items callees body)
              (keep_decls args) (keep_items body)))
    keep_decl (decl_class decl name base body) =
        keep_then callees Inv kept (declare callees name) _ (keep_declare callees Inv kept name) (
          kept.keep_scope decl sym_class _ (
            keep_then callees Inv kept (add_base callees base) (visit_decls callees body)
              (keep_base callees Inv kept base) (keep_decls body)))
    keep_decl (decl_use name) = keep_declare callees Inv kept name
    keep_decl (decl_var name) = keep_declare callees Inv kept name
    keep_decl (decl_var_value name e) =
        keep_then callees Inv kept (declare callees name) (visit_expr callees e)
          (keep_declare callees Inv kept name) (keep_expr e)

    pub keep_decls : (ds : Decls) → Keeps callees Inv (visit_decls callees ds)
    keep_decls no_decls = keep_true callees Inv kept
    keep_decls (decls decl rest) =
        keep_then callees Inv kept (visit_decl callees decl) (visit_decls callees rest)
          (keep_decl decl) (keep_decls rest)

    pub keep_items : (is : Items) → Keeps callees Inv (visit_items callees is)
    keep_items no_items = keep_true callees Inv kept
    keep_items (stmt_item stmt rest) =
        keep_then callees Inv kept (visit_stmt callees stmt) (visit_items callees rest)
          (keep_stmt stmt) (keep_items rest)
    keep_items (decl_item decl rest) =
        keep_then callees Inv kept (visit_decl callees decl) (visit_items callees rest)
          (keep_decl decl) (keep_items rest)
