-- ===== src/Ast.antt =====
-- script/astgen: the syntax trees that the parser builds, by the descriptor from which ast.h is
-- generated. A string, an integer or a float is a reference, and so is a node that opens a scope: its
-- reference is the first field. An array of nodes is a list of its own, and NULL is `no_expr`.
use chimp.Common.{ℕ, Bool, Option, List}

mutual
  pub data Expr : Type 0 where
    expr_binop : ℕ → Expr → Expr → Expr
    expr_call expr_spawn : Expr → Exprs → Expr
    expr_getattr : Expr → ℕ → Expr
    expr_getitem : Expr → Expr → Expr
    expr_array expr_hash : Exprs → Expr
    expr_str expr_int expr_float expr_ident : ℕ → Expr
    expr_wildcard expr_nil : Expr
    expr_fn : ℕ → Decls → Items → Expr
    expr_bool : Bool → Expr
    expr_not : Expr → Expr

  -- An array of expressions
  pub data Exprs : Type 0 where
    no_exprs : Exprs
    exprs : Expr → Exprs → Exprs

  -- `stmt_if_else` has an `orelse`, in `stmt_if` it is NULL; so with the `expr` of `stmt_ret`.
  pub data Stmt : Type 0 where
    stmt_expr : Expr → Stmt
    stmt_if : Expr → Items → Stmt
    stmt_if_else : Expr → Items → Items → Stmt
    stmt_while : Expr → Items → Stmt
    stmt_break stmt_ret_nil : Stmt
    stmt_ret : Expr → Stmt
    stmt_match : Expr → Patterns → Stmt
    stmt_assign : Expr → Expr → Stmt

  -- The array of pattern nodes in a `match`, each with its test and its body
  pub data Patterns : Type 0 where
    no_patterns : Patterns
    patterns : Expr → Items → Patterns → Patterns

  pub data Decl : Type 0 where
    decl_func : ℕ → ℕ → Decls → Items → Decl
    decl_class : ℕ → ℕ → Option (List ℕ) → Decls → Decl
    decl_var : ℕ → Decl
    decl_var_value : ℕ → Expr → Decl
    decl_use : ℕ → Decl

  -- An array of declarations
  pub data Decls : Type 0 where
    no_decls : Decls
    decls : Decl → Decls → Decls

  -- An array of statements and declarations
  pub data Items : Type 0 where
    no_items : Items
    stmt_item : Stmt → Items → Items
    decl_item : Decl → Items → Items

-- The root of a file
pub data Mod : Type 0 where
  mod_root : ℕ → ℕ → Decls → Decls → Mod
