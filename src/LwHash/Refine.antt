-- ===== src/LwHash/Refine.antt =====
-- A valid lightweight hash behaves as the association list of its items.
use chimp.Common.{
  ℕ, zero, suc, ◌+◌, ◌≤◌, ◌<◌, ◌≡◌, ap, sym, ◌∙◌, Bool, true, false, none, some, List, [], ◌∷◌,
  ◌++◌, arith, length, take, set, get_elem?, length-set, length-take, take-set_end, inl, inr, ◌⊎◌,
  get_elem?-take, set-take,
}
use native.Mathlib.Numerals.{add-one}
use chimp.Common.Runs.{Run, done}
use chimp.Compare.{CmpResult}
use chimp.Memory.{Allocator}
use chimp.Memory.Laws.{read_lem, write_lem, realloc_keeps, realloc_cases}
use chimp.Table.{Found, failed, absent, found, look, update}
use chimp.Table.Laws.{scan_list, scan_lem, Agrees, search-Agrees}
use chimp.LwHash.{LwHash, find, append, put, get}

module _ {K V : Type 0} where
  pub record IsValid (h : LwHash K V) : Type 0 where
    pub fits : h.size ≤ length h.items

  abbrev pub entries : LwHash K V → List (K × V)
  entries h = take h.size h.items

  get_elem?-bound :
      (xs : List (K × V)) (i : ℕ) (x : K × V) → get_elem? xs i ≡ some x → i < length xs
  get_elem?-bound [] i x e = absurd (cc e)
  get_elem?-bound (y ∷ xs) zero x e = omega arith
  get_elem?-bound (y ∷ xs) (suc i) x e = omega (arith, get_elem?-bound xs i x e)

module _ {K V : Type 0} (cmp : K → K → CmpResult) where
  find-Agrees :
      (h : LwHash K V) (key : K) (v : V)
      → IsValid h
      → (r : Found) × (find cmp h key ≡ done r) × Agrees cmp key v (entries h) 0 r
  unfolding find
  find-Agrees h key v valid = (
    scan_list (λ e. cmp e.0 key) (entries h) 0,
    scan_lem (λ e. cmp e.0 key) h.items h.size valid.fits,
    search-Agrees cmp key v (entries h) 0,
  )

  item_found :
      (h : LwHash K V) (n j : ℕ) (x : K × V)
      → IsValid h
      → n ≡ 0 + j
      → get_elem? (entries h) j ≡ some x
      → (n < h.size) × (get_elem? h.items n ≡ some x)
  item_found h n j x valid q at =
      let lt = get_elem?-bound (entries h) j x at in
      (
        omega (arith, length-take h.size h.items),
        ap (get_elem? h.items) {y = j} (omega arith)
            ∙ sym (get_elem?-take h.size j h.items (omega (arith, length-take h.size h.items)))
            ∙ at,
      )

  get_at :
      (h : LwHash K V) (key : K) (v : V) (r : Found)
      → IsValid h
      → find cmp h key ≡ done r
      → Agrees cmp key v (entries h) 0 r
      → get cmp h key ≡ done (look cmp key (entries h))
  unfolding get
  get_at h key v failed valid e (a, _) = rw e (ap done (sym a))
  get_at h key v absent valid e (a, _) = rw e (ap done (sym a))
  get_at h key v (found n) valid e (j, k, w, q, at, a, _) =
      let (lt, same) = item_found h n j (k, w) valid q at in
      rw e (rw (read_lem h.items n (k, w) same) (ap done (sym a)))

  -- `chimp_lwhash_get` of a valid table is the lookup in its association list, on every branch.
  pub get-entries :
      (nil : V) (h : LwHash K V) (key : K)
      → IsValid h
      → get cmp h key ≡ done (look cmp key (entries h))
  get-entries nil h key valid =
      let (r, e, a) = find-Agrees h key nil valid in get_at h key nil r valid e a

  -- What `chimp_lwhash_put` leaves: the updated list, or the table as it was.
  abbrev pub PutResult : Allocator (K × V) → LwHash K V → K → V → Run (Bool × LwHash K V) → Type 0
  PutResult m h key v run =
      ((h' : LwHash K V) × (run ≡ done (true, h'))
        × IsValid h'
        × (update cmp key v (entries h) ≡ some (entries h')))
      ⊎ ((run ≡ done (false, h))
          × ((update cmp key v (entries h) ≡ none) ⊎ (m.alloc (h.size + 1) ≡ none)))

  append_lem :
      (m : Allocator (K × V)) (h : LwHash K V) (key : K) (v : V)
      → IsValid h
      → update cmp key v (entries h) ≡ some (entries h ++ (key, v) ∷ [])
      → PutResult m h key v (append m h key v)
  unfolding append
  append_lem m h key v valid up = elim (realloc_cases m h.items (h.size + 1)) [
    | inr (q, refused) ↦ inr (rw (q, append), inr refused)
    | inl (items, q) ↦
        let (len, keep) = realloc_keeps m h.items (h.size + 1) h.size (omega arith) valid.fits q in
        inl (
          record { items = set items h.size (key, v); size = h.size + 1 },
          rw (q, append) (rw (write_lem items h.size (key, v) (omega arith))),
          record { fits = omega (arith, length-set items h.size (key, v)) },
          up
              ∙ ap some (
                  sym (
                    rw add-one (
                      take-set_end h.size items (key, v) (omega arith)
                      ∙ ap (λ t. t ++ (key, v) ∷ []) keep))),
        )
  ]

  put_at :
      (m : Allocator (K × V)) (h : LwHash K V) (key : K) (v : V) (r : Found)
      → IsValid h
      → find cmp h key ≡ done r
      → Agrees cmp key v (entries h) 0 r
      → PutResult m h key v (put cmp m h key v)
  unfolding put
  put_at m h key v failed valid e (_, b) = inr (rw e, inl b)
  put_at m h key v absent valid e (_, b) = rw e (append_lem m h key v valid b)
  put_at m h key v (found n) valid e (j, k, w, q, at, _, b) =
      let (lt, same) = item_found h n j (k, w) valid q at in
      inl (
        record h { items = set h.items n (k, v) },
        rw e (rw (read_lem h.items n (k, w) same) (rw (write_lem h.items n (k, v) (omega arith)))),
        record { fits = omega (arith, length-set h.items n (k, v)) },
        b
            ∙ ap some (
                set-take h.size j h.items (k, v)
                ∙ ap (λ p. take h.size (set h.items p (k, v))) {x = j} {y = n} (omega arith)),
      )

  -- `chimp_lwhash_put` on a valid table returns true with the association list updated and a valid
  -- table, or false with the table unchanged, where a comparison fails before a key compares equal or
  -- where memory is refused.
  pub put-entries :
      (m : Allocator (K × V)) (h : LwHash K V) (key : K) (v : V)
      → IsValid h
      → PutResult m h key v (put cmp m h key v)
  put-entries m h key v valid =
      let (r, e, a) = find-Agrees h key v valid in put_at m h key v r valid e a
