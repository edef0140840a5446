-- ===== src/Hash/Refine.antt =====
-- A valid `ChimpHash` behaves as the association list of its keys and values.
use chimp.Common.{
  ℕ, zero, suc, ◌+◌, ◌≤◌, ◌<◌, ◌≡◌, refl, ap, ap₂, sym, ◌∙◌, Bool, true, false, none, some, List,
  [], ◌∷◌, ◌++◌, arith, length, take, set, get_elem?, length-take, length-set, take-set_end, inl,
  inr, ◌⊎◌, get_elem?-take, subst, set-take,
}
use native.Mathlib.Numerals.{add-one}
use chimp.Common.Runs.{Run, done}
use chimp.Compare.{CmpResult, eq}
use chimp.Memory.{Allocator}
use chimp.Memory.Laws.{read_lem, write_lem, realloc_keeps, realloc_cases}
use chimp.Table.{Found, failed, absent, found, on_key, value, look, update}
use chimp.Table.Laws.{
  scan_list, scan_lem, Agrees, search-Agrees, Apart, look-update_self, look-update_other,
}
use chimp.Hash.{Hash, find, append, put, get}

module _ {K V : Type 0} where
  abbrev pub pairs : List K → List V → List (K × V)
  pairs [] vs = []
  pairs (k ∷ ks) [] = []
  pairs (k ∷ ks) (v ∷ vs) = (k, v) ∷ pairs ks vs

  -- Both blocks own the cells in use.
  pub record IsValid (h : Hash K V) : Type 0 where
    pub keys_fit : h.size ≤ length h.keys
    pub values_fit : h.size ≤ length h.values

  -- The association list that the hash stands for.
  abbrev pub entries : Hash K V → List (K × V)
  entries h = pairs (take h.size h.keys) (take h.size h.values)

  pairs-snoc :
      (ks : List K) (vs : List V) (k : K) (v : V)
      → length ks ≡ length vs
      → pairs (ks ++ k ∷ []) (vs ++ v ∷ []) ≡ pairs ks vs ++ (k, v) ∷ []
  pairs-snoc [] [] k v e = refl
  pairs-snoc [] (w ∷ vs) k v e = absurd (omega arith)
  pairs-snoc (j ∷ ks) [] k v e = absurd (omega arith)
  pairs-snoc (j ∷ ks) (w ∷ vs) k v e = ap (λ t. (j, w) ∷ t) (pairs-snoc ks vs k v (omega arith))

  pairs-set :
      (ks : List K) (vs : List V) (j : ℕ) (k : K) (w v : V)
      → get_elem? (pairs ks vs) j ≡ some (k, w)
      → pairs ks (set vs j v) ≡ set (pairs ks vs) j (k, v)
  pairs-set [] vs j k w v e = refl
  pairs-set (k' ∷ ks) [] j k w v e = refl
  pairs-set (k' ∷ ks) (w' ∷ vs) zero k w v e = ground arith
  pairs-set (k' ∷ ks) (w' ∷ vs) (suc j) k w v e = ap (λ t. (k', w') ∷ t) (pairs-set ks vs j k w v e)

  get_elem?-pairs :
      (ks : List K) (vs : List V) (j : ℕ) (k : K) (w : V)
      → get_elem? (pairs ks vs) j ≡ some (k, w)
      → (get_elem? vs j ≡ some w) × (j < length vs)
  get_elem?-pairs [] vs j k w e = absurd (cc e)
  get_elem?-pairs (k' ∷ ks) [] j k w e = absurd (cc e)
  get_elem?-pairs (k' ∷ ks) (w' ∷ vs) zero k w e = (ground arith, omega arith)
  get_elem?-pairs (k' ∷ ks) (w' ∷ vs) (suc j) k w e =
      let (a, b) = get_elem?-pairs ks vs j k w e in (a, omega arith)

  scan_list-pairs :
      (test : K → CmpResult) (ks : List K) (vs : List V) (i : ℕ)
      → length ks ≡ length vs
      → scan_list test ks i ≡ scan_list (λ e. test e.0) (pairs ks vs) i
  scan_list-pairs test [] vs i e = refl
  scan_list-pairs test (k ∷ ks) [] i e = absurd (omega arith)
  scan_list-pairs test (k ∷ ks) (v ∷ vs) i e =
      let h = scan_list-pairs test ks vs (suc i) (omega arith) in
      λ j. elim (on_key i (test k)) [ some r ↦ r | none ↦ h j ]

module _ {K V : Type 0} (cmp : K → K → CmpResult) where
  find-Agrees :
      (h : Hash K V) (key : K) (v : V)
      → IsValid h
      → (r : Found) × (find cmp h key ≡ done r) × Agrees cmp key v (entries h) 0 r
  unfolding find
  find-Agrees h key v valid = (
    scan_list (λ e. cmp e.0 key) (entries h) 0,
    scan_lem (λ k. cmp k key) h.keys h.size valid.keys_fit
        ∙ ap done (
            scan_list-pairs (λ k. cmp k key) (take h.size h.keys) (take h.size h.values) 0
              (omega (arith, length-take h.size h.keys, length-take h.size h.values))),
    search-Agrees cmp key v (entries h) 0,
  )

  get_at :
      (h : Hash K V) (key : K) (v : V) (r : Found)
      → IsValid h
      → find cmp h key ≡ done r
      → Agrees cmp key v (entries h) 0 r
      → get cmp h key ≡ done (look cmp key (entries h))
  unfolding get
  get_at h key v failed valid e (a, _) = rw e (ap done (sym a))
  get_at h key v absent valid e (a, _) = rw e (ap done (sym a))
  get_at h key v (found n) valid e (j, k, w, q, at, a, _) =
      let (g, lt) = get_elem?-pairs (take h.size h.keys) (take h.size h.values) j k w at in
      let same : get_elem? h.values n ≡ some w =
        ap (get_elem? h.values) {y = j} (omega arith)
        ∙ sym (get_elem?-take h.size j h.values (omega (arith, length-take h.size h.values)))
        ∙ g in
      rw e (rw (read_lem h.values n w same) (ap done (sym a)))

  -- `chimp_hash_get` of a valid hash is the lookup in its association list, on every branch: the value
  -- of the first key that compares equal, the error where a comparison fails before, or no value.
  pub get-look :
      (nil : V) (h : Hash K V) (key : K)
      → IsValid h
      → get cmp h key ≡ done (look cmp key (entries h))
  get-look nil h key valid =
      let (r, e, a) = find-Agrees h key nil valid in get_at h key nil r valid e a

  -- What `chimp_hash_put` leaves: the updated list, the old list where a comparison fails, or the old
  -- list where memory for one more entry is refused.
  abbrev pub PutResult :
      Allocator K → Allocator V → Hash K V → K → V → Run (Bool × Hash K V) → Type 0
  PutResult mk mv h key v run =
      ((h' : Hash K V) × (run ≡ done (true, h'))
        × IsValid h'
        × (update cmp key v (entries h) ≡ some (entries h')))
      ⊎ (((run ≡ done (false, h)) × (update cmp key v (entries h) ≡ none))
          ⊎ ((h' : Hash K V) × (run ≡ done (false, h'))
              × IsValid h'
              × (entries h' ≡ entries h)
              × ((mk.alloc (h.size + 1) ≡ none) ⊎ (mv.alloc (h.size + 1) ≡ none))))

  append_lem :
      (mk : Allocator K) (mv : Allocator V) (h : Hash K V) (key : K) (v : V)
      → IsValid h
      → update cmp key v (entries h) ≡ some (entries h ++ (key, v) ∷ [])
      → PutResult mk mv h key v (append mk mv h key v)
  unfolding append
  append_lem mk mv h key v valid up = elim (realloc_cases mk h.keys (h.size + 1)) [
    | inr (q, refused) ↦ inr (inr (h, rw (q, append), valid, refl, inl refused))
    | inl (ks, q) ↦
        let (kl, kk) = realloc_keeps mk h.keys (h.size + 1) h.size (omega arith) valid.keys_fit q in
        elim (realloc_cases mv h.values (h.size + 1)) [
          | inr (q', refused) ↦ inr (
              inr (
                record h { keys = ks },
                rw (q, append) (rw (q', append)),
                record { keys_fit = omega arith; values_fit = valid.values_fit },
                ap (λ t. pairs t (take h.size h.values)) kk,
                inr refused,
              ))
          | inl (vs, q') ↦
              let (vl, vk) =
                realloc_keeps mv h.values (h.size + 1) h.size (omega arith) valid.values_fit q' in
              inl (
                record { keys = set ks h.size key; values = set vs h.size v; size = h.size + 1 },
                rw (q, append)
                    (rw (q', append)
                      (rw (
                        write_lem ks h.size key (omega arith),
                        write_lem vs h.size v (omega arith),
                      ))),
                record {
                  keys_fit = omega (arith, length-set ks h.size key);
                  values_fit = omega (arith, length-set vs h.size v);
                },
                up ∙ ap some (sym (appended ks vs kl vl kk vk)),
              )
        ]
  ]
    where
      appended :
          (ks : List K) (vs : List V)
          → length ks ≡ h.size + 1
          → length vs ≡ h.size + 1
          → take h.size ks ≡ take h.size h.keys
          → take h.size vs ≡ take h.size h.values
          → pairs (take (h.size + 1) (set ks h.size key)) (take (h.size + 1) (set vs h.size v))
            ≡ entries h ++ (key, v) ∷ []
      appended ks vs kl vl kk vk = rw add-one (
          ap₂ pairs (take-set_end h.size ks key (omega arith) ∙ ap (λ t. t ++ key ∷ []) kk)
            (take-set_end h.size vs v (omega arith) ∙ ap (λ t. t ++ v ∷ []) vk)
          ∙ pairs-snoc (take h.size h.keys) (take h.size h.values) key v
              (omega (arith, length-take h.size h.keys, length-take h.size h.values)))

  put_at :
      (mk : Allocator K) (mv : Allocator V) (h : Hash K V) (key : K) (v : V) (r : Found)
      → IsValid h
      → find cmp h key ≡ done r
      → Agrees cmp key v (entries h) 0 r
      → PutResult mk mv h key v (put cmp mk mv h key v)
  unfolding put
  put_at mk mv h key v failed valid e (_, b) = inr (inl (rw e, b))
  put_at mk mv h key v absent valid e (_, b) = rw e (append_lem mk mv h key v valid b)
  put_at mk mv h key v (found n) valid e (j, k, w, q, at, _, b) =
      let (g, lt) = get_elem?-pairs (take h.size h.keys) (take h.size h.values) j k w at in
      let lt' : n < h.size = omega (arith, length-take h.size h.values) in
      inl (
        record h { values = set h.values n v },
        rw e (rw (write_lem h.values n v (omega arith))),
        record { keys_fit = omega arith; values_fit = omega (arith, length-set h.values n v) },
        b
            ∙ ap some (
                sym (pairs-set (take h.size h.keys) (take h.size h.values) j k w v at)
                ∙ ap (pairs (take h.size h.keys)) (
                    set-take h.size j h.values v
                    ∙ ap (λ p. take h.size (set h.values p v)) {x = j} {y = n} (omega arith))),
      )

  -- `chimp_hash_put` on a valid hash returns true with the association list updated, or false with the
  -- list as it was, where a comparison fails before a key compares equal or where memory is refused. The
  -- hash stays valid.
  pub put-update :
      (mk : Allocator K) (mv : Allocator V) (h : Hash K V) (key : K) (v : V)
      → IsValid h
      → PutResult mk mv h key v (put cmp mk mv h key v)
  put-update mk mv h key v valid =
      let (r, e, a) = find-Agrees h key v valid in put_at mk mv h key v r valid e a

  put-true :
      (mk : Allocator K) (mv : Allocator V) (h h' : Hash K V) (key : K) (v : V)
      → IsValid h
      → put cmp mk mv h key v ≡ done (true, h')
      → IsValid h' × (update cmp key v (entries h) ≡ some (entries h'))
  put-true mk mv h h' key v valid e = elim (put-update mk mv h key v valid) [
    | inl (g, q, w, u) ↦
        let same : g ≡ h' = cc in (subst IsValid same w, u ∙ ap (λ t. some (entries t)) same)
    | inr (inl (q, u)) ↦ cc
    | inr (inr (g, q, _, _, _)) ↦ cc
  ]

  -- After a put on a valid hash that returned true, a get of the same key, where the key compares equal
  -- to itself, returns the value put.
  pub get-put_self :
      (mk : Allocator K) (mv : Allocator V) (nil : V) (h h' : Hash K V) (key : K) (v : V)
      → IsValid h
      → cmp key key ≡ eq
      → put cmp mk mv h key v ≡ done (true, h')
      → get cmp h' key ≡ done (value v)
  get-put_self mk mv nil h h' key v valid self e =
      let (valid', u) = put-true mk mv h h' key v valid e in
      get-look nil h' key valid'
      ∙ ap done (look-update_self cmp key v (entries h) (entries h') self u)

  -- After a put on a valid hash that returned true, a get of a key that is apart from the one put
  -- returns what it returned before.
  pub get-put_other :
      (mk : Allocator K) (mv : Allocator V) (nil : V) (h h' : Hash K V) (key : K) (v : V)
      (other : K)
      → IsValid h
      → Apart cmp key v other
      → put cmp mk mv h key v ≡ done (true, h')
      → get cmp h' other ≡ get cmp h other
  get-put_other mk mv nil h h' key v other valid apart e =
      let (valid', u) = put-true mk mv h h' key v valid e in
      get-look nil h' other valid'
      ∙ ap done (look-update_other cmp key v other (entries h) (entries h') apart u)
      ∙ sym (get-look nil h other valid)
