-- ===== src/Hash.antt =====
-- libchimp/hash.c: `ChimpHash`, two parallel blocks searched from the front. `cmp` is
-- `chimp_object_cmp`. A function that changes `*self` returns the new hash.
pub mod Refine
mod Tests
use chimp.Common.{ℕ, ◌+◌, Bool, true, false, Option, none, some, List, []}
use chimp.Common.Runs.{Run, done, ◌>>=◌}
use chimp.Compare.{CmpResult}
use chimp.Memory.{Allocator, realloc, read, write}
use chimp.Table.{Found, failed, absent, found, scan, Looked, error, missing, value}

pub record Hash (K V : Type 0) : Type 0 where
  pub keys : List K
  pub values : List V
  pub size : ℕ

module _ {K V : Type 0} where
  -- A fresh object is zeroed memory.
  abbrev pub empty : Hash K V
  empty = record { keys = []; values = []; size = 0 }

  -- `chimp_hash_put` behind its loop, where no key compares equal
  unfoldable pub append : Allocator K → Allocator V → Hash K V → K → V → Run (Bool × Hash K V)
  append mk mv self key v = elim (realloc mk self.keys (self.size + 1)) [
    | none ↦ done (false, self)
    | some keys ↦ elim (realloc mv self.values (self.size + 1)) [
      | none ↦ done (false, record self { keys = keys })
      | some values ↦ write keys self.size key >>= (λ keys'.
          write values self.size v >>= (λ values'.
            done (true, record { keys = keys'; values = values'; size = self.size + 1 })))
    ]
  ]

  module _ (cmp : K → K → CmpResult) where
    -- The loop over the keys
    unfoldable pub find : Hash K V → K → Run Found
    find self key = scan (λ k. cmp k key) self.keys self.size 0

    -- `chimp_hash_put`
    unfoldable pub put : Allocator K → Allocator V → Hash K V → K → V → Run (Bool × Hash K V)
    unfolding find append
    put mk mv self key v = do
      r ← find self key
      elim r [
        | failed ↦ done (false, self)
        | found i ↦ write self.values i v >>= λ values. done (true, record self { values = values })
        | absent ↦ append mk mv self key v
      ]

    -- `chimp_hash_get`: -1, 1 with nil, or 0 with the value
    unfoldable pub get : Hash K V → K → Run (Looked V)
    unfolding find
    get self key = do
      r ← find self key
      elim r [
        | failed ↦ done error
        | found i ↦ read self.values i >>= λ v. done (value v)
        | absent ↦ done missing
      ]
