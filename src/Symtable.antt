-- ===== src/Symtable.antt =====
-- libchimp/symtable.c: the table of the scopes of a syntax tree and of the symbols in each. A reference
-- is a number, and the entries that the table refers to stand in its store. The table is the only one,
-- so an entry's field that points back at it is left out.
pub mod Visit
pub mod Stack
pub mod Opening
pub mod Keeps
pub mod Walk
pub mod Base
pub mod Scopes
pub mod Chain
mod Tests
use chimp.Common.{
  ℕ, ◌+◌, ◌*◌, ◌/◌, ◌%◌, Bool, true, false, Option, none, some, List, ◌==◌, ltb, if◌then◌else◌,
}
use chimp.Common.Runs.{Run, done, bug, ◌>>=◌}
use chimp.Compare.{CmpResult}
use chimp.Memory.{Allocator}
use chimp.Array.{Array, new, push, pop}
use chimp.Hash.{Hash, empty, put}

-- `ChimpSymtableEntry`; `symbols` leads from a name to the value of its integer.
pub record Entry : Type 0 where
  pub flags : ℕ
  pub scope : ℕ
  pub symbols : Hash ℕ ℕ
  pub parent : ℕ
  pub children : Array ℕ

-- `ChimpSymtable`, with the store
pub record Symtable : Type 0 where
  pub filename : ℕ
  pub lookup : Hash ℕ ℕ
  pub stack : Array ℕ
  pub ste : ℕ
  pub entries : ℕ → Entry

-- What symtable.c calls in other files: `chimp_object_cmp`, `realloc`, `chimp_is_builtin`, the bytes of a
-- string, whether `chimp_int_new` and `chimp_hash_new` give an object, and the cell of a new entry:
-- `none` is NULL, and `bug` is the abort where its hash cannot be made.
pub record Callees : Type 0 where
  pub nil : ℕ
  pub cmp : ℕ → ℕ → CmpResult
  pub blocks : Allocator ℕ
  pub new_int : Symtable → Bool
  pub new_entry : Symtable → Run (Option ℕ)
  pub new_hash : Bool
  pub is_builtin : ℕ → Run Bool
  pub str_data : ℕ → List ℕ

-- The flags of symtable.h, and those that tell the kind of a scope
abbrev pub sym_decl : ℕ
sym_decl = 1

abbrev pub sym_builtin : ℕ
sym_builtin = 2

abbrev pub sym_free : ℕ
sym_free = 4

abbrev pub sym_special : ℕ
sym_special = 8

abbrev pub sym_module : ℕ
sym_module = 4096

abbrev pub sym_class : ℕ
sym_class = 8192

abbrev pub sym_func : ℕ
sym_func = 32768

-- `flags & CHIMP_SYM_TYPE_MASK`, the four bits above the lowest twelve
unfoldable pub type_of : Entry → ℕ
type_of e = e.flags / 4096 % 16 * 4096

-- `CHIMP_SYMTABLE_ENTRY_IS_MODULE`
unfoldable pub is_module : Entry → Bool
unfolding type_of
is_module e = type_of e == sym_module

-- An assignment through a reference to an entry
unfoldable pub set_entry : ℕ → Entry → Symtable → Symtable
set_entry ste e self = record self { entries = λ p. if p == ste then e else self.entries p }

-- `if (!visit (self, ...)) return CHIMP_FALSE;` and what follows
unfoldable pub and_then :
    Run (Bool × Symtable) → (Symtable → Run (Bool × Symtable)) → Run (Bool × Symtable)
and_then r f = r >>= (λ (ok, self). if ok then f self else done (false, self))

module _ (callees : Callees) where
  -- `CHIMP_SYMTABLE_ENTRY (ste)`: the cast aborts at nil.
  unfoldable pub entry_at : Symtable → ℕ → Run Entry
  entry_at self ste = if ste == callees.nil then bug else done (self.entries ste)

  -- `chimp_symtable_entry_new` with `_chimp_symtable_entry_init`; `none` is NULL.
  unfoldable pub entry_new : Symtable → ℕ → ℕ → ℕ → Run (Option ℕ × Symtable)
  unfolding set_entry
  entry_new self parent scope flags =
      if callees.new_int self
      then callees.new_entry self >>= (λ r. elim r [
        | none ↦ done (none, self)
        | some ste ↦ elim (new callees.blocks) [
          | none ↦ bug
          | some children ↦
              let e : Entry = record {
                flags = flags;
                scope = scope;
                symbols = empty;
                parent = parent;
                children = children;
              } in
              done (some ste, set_entry ste e self)
        ]
      ])
      else done (none, self)

  -- The two pushes of `chimp_symtable_enter_scope`: on the stack, and on the children of the old entry
  unfoldable pub push_scope : Symtable → ℕ → ℕ → Run Symtable
  unfolding entry_at set_entry
  push_scope self ste new_ste = do
    stack ← push callees.blocks self.stack ste
    e ← entry_at self ste
    children ← push callees.blocks e.children new_ste
    done (set_entry ste (record e { children = children }) (record self { stack = stack }))

  -- `chimp_symtable_enter_scope` with the new entry
  unfoldable pub open_scope : Symtable → ℕ → ℕ → Run (Bool × Symtable)
  unfolding push_scope
  open_scope self scope new_ste =
      put callees.cmp callees.blocks callees.blocks self.lookup scope new_ste >>= (λ (ok, lookup).
        let self' : Symtable = record self { lookup = lookup } in
        if ok
        then (if self.ste == callees.nil then done self' else push_scope self' self.ste new_ste)
          >>= (λ s. done (true, record s { ste = new_ste }))
        else done (false, self'))

  -- `chimp_symtable_enter_scope`
  unfoldable pub enter_scope : Symtable → ℕ → ℕ → Run (Bool × Symtable)
  unfolding entry_new open_scope
  enter_scope self scope flags =
      entry_new self self.ste scope flags
      >>= (λ (r, s). elim r [ none ↦ done (false, s) | some new_ste ↦ open_scope s scope new_ste ])

  -- `chimp_symtable_leave_scope`
  unfoldable pub leave_scope : Symtable → Run (Bool × Symtable)
  leave_scope self =
      (if ltb 0 self.stack.size
        then pop callees.nil self.stack
          >>= (λ (ste, stack). done (record self { ste = ste; stack = stack }))
        else done self)
      >>= (λ s. done (if s.ste == callees.nil then (false, s) else (true, s)))

  -- `chimp_symtable_add`
  unfoldable pub add : Symtable → ℕ → ℕ → Run (Bool × Symtable)
  unfolding entry_at set_entry
  add self name flags = do
    e ← entry_at self self.ste
    if callees.new_int self
        then put callees.cmp callees.blocks callees.blocks e.symbols name flags
          >>= (λ (ok, symbols). done (ok, set_entry self.ste (record e { symbols = symbols }) self))
        else done (false, self)
