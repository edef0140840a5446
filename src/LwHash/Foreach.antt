-- ===== src/LwHash/Foreach.antt =====
-- The walk over the entries of a lightweight hash.
use chimp.Common.{
  ℕ, zero, suc, ◌+◌, ◌≤◌, ◌≡◌, refl, sym, ap, ◌∙◌, List, [], ◌∷◌, arith, length, take, drop,
  get_elem?-lt, drop-get_elem?,
}
use chimp.Common.Runs.{Run, done, ◌>>=◌}
use chimp.Memory.Laws.{read_lem}
use chimp.LwHash.{LwHash, foreach_from, foreach}
use chimp.LwHash.Refine.{IsValid, entries}

module _ {K V S : Type 0} (fn : K → V → S → Run S) where
  abbrev pub each_entry : List (K × V) → S → Run S
  each_entry [] s = done s
  each_entry ((k, v) ∷ es) s = fn k v s >>= each_entry es

  foreach_from_lem :
      (items : List (K × V)) (k i : ℕ) (s : S)
      → i + k ≤ length items
      → foreach_from fn items k i s ≡ each_entry (take k (drop i items)) s
  unfolding foreach_from
  foreach_from_lem items zero i s h = refl
  foreach_from_lem items (suc k) i s h =
      let (x, at) = get_elem?-lt items i (omega arith) in
      rw (read_lem items i x at) (
        (λ j. fn x.0 x.1 s >>= λ t. foreach_from_lem items k (suc i) t (omega arith) j)
        ∙ ap (λ d. each_entry (take (suc k) d) s) (sym (drop-get_elem? items i x at)))

  -- `chimp_lwhash_foreach` on a valid table calls the function once on each entry, in order, from the
  -- first to the last; a call that aborts or faults ends it.
  pub foreach_lem : (h : LwHash K V) (s : S) → IsValid h → foreach fn h s ≡ each_entry (entries h) s
  unfolding foreach
  foreach_lem h s v = foreach_from_lem h.items h.size 0 s (omega (arith, v.fits))
