-- ===== src/LwHash.antt =====
-- libchimp/lwhash.c: the lightweight hash, one block of key and value pairs searched from the front.
pub mod Refine
pub mod Foreach
mod Tests
use chimp.Common.{ℕ, zero, suc, ◌+◌, Bool, true, false, Option, none, some, List, []}
use chimp.Common.Runs.{Run, done, ◌>>=◌}
use chimp.Compare.{CmpResult}
use chimp.Memory.{Allocator, realloc, read, write}
use chimp.Table.{Found, failed, absent, found, scan, Looked, error, missing, value}

pub record LwHash (K V : Type 0) : Type 0 where
  pub items : List (K × V)
  pub size : ℕ

module _ {K V : Type 0} where
  -- `chimp_lwhash_new`
  abbrev pub new : LwHash K V
  new = record { items = []; size = 0 }

  -- `chimp_lwhash_put` behind `chimp_lwhash_find`, where no key compares equal
  unfoldable pub append : Allocator (K × V) → LwHash K V → K → V → Run (Bool × LwHash K V)
  append m self key v = elim (realloc m self.items (self.size + 1)) [
    | none ↦ done (false, self)
    | some items ↦
        write items self.size (key, v)
        >>= (λ items'. done (true, record { items = items'; size = self.size + 1 }))
  ]

  module _ (cmp : K → K → CmpResult) where
    -- `chimp_lwhash_find`
    unfoldable pub find : LwHash K V → K → Run Found
    find self key = scan (λ item. cmp item.0 key) self.items self.size 0

    -- `chimp_lwhash_put`
    unfoldable pub put : Allocator (K × V) → LwHash K V → K → V → Run (Bool × LwHash K V)
    unfolding find append
    put m self key v = do
      r ← find self key
      elim r [
        | failed ↦ done (false, self)
        | found i ↦ read self.items i >>= (λ item.
            write self.items i (item.0, v)
            >>= (λ items. done (true, record self { items = items })))
        | absent ↦ append m self key v
      ]

    -- `chimp_lwhash_get`: CHIMP_FALSE, the value, or NULL
    unfoldable pub get : LwHash K V → K → Run (Looked V)
    unfolding find
    get self key = do
      r ← find self key
      elim r [
        | failed ↦ done error
        | found i ↦ read self.items i >>= λ item. done (value item.1)
        | absent ↦ done missing
      ]

module _ {K V S : Type 0} (fn : K → V → S → Run S) where
  -- The loop of `chimp_lwhash_foreach`, with `k` rounds left; `fn` changes the state `S` and not the table.
  unfoldable pub foreach_from : List (K × V) → ℕ → ℕ → S → Run S
  foreach_from items zero i s = done s
  foreach_from items (suc k) i s =
      read items i >>= λ item. fn item.0 item.1 s >>= foreach_from items k (suc i)

  -- `chimp_lwhash_foreach`
  unfoldable pub foreach : LwHash K V → S → Run S
  foreach self s = foreach_from self.items self.size 0 s
