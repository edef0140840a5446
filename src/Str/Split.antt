-- ===== src/Str/Split.antt =====
-- libchimp/str.c: `_chimp_str_split` with an empty separator.
use chimp.Common.{
  ℕ, zero, suc, ◌<◌, ◌≤◌, ◌≡◌, refl, ap, subst, some, List, [], ◌∷◌, length, inl, inr, lt→ltb,
  le→leb, some_inj, arith, get_elem?, set, Bool-cases, ◌==◌, ==_iff,
}
use chimp.Common.Runs.{done}
use chimp.Memory.{Allocator}
use chimp.Memory.Laws.{write_lem, memcpy_lem}
use chimp.Array
use chimp.Array.{Array}
use chimp.Array.Valid
use chimp.Array.Granted.{Serves, new_with_capacity_lem, push_serves}
use chimp.Str.{Str, spent, split_loop, split, strstr, c_string, find, str_new}
use chimp.Str.Append.{IsValid}

-- A block with a terminator in it is a string of C.
c_string-done :
    (bs : List ℕ) (k : ℕ) → get_elem? bs k ≡ some 0 → (hay : List ℕ) × (c_string bs ≡ done hay)
unfolding c_string
c_string-done [] k e = absurd (cc e)
c_string-done (c ∷ cs) zero e = ([], rw ((==_iff c 0).1 (some_inj e)) refl)
c_string-done (c ∷ cs) (suc k) e =
    let (hay, ih) = c_string-done cs k e in
    elim (Bool-cases (c == 0)) [ inl z ↦ ([], rw z refl) | inr nz ↦ (c ∷ hay, rw nz (rw ih refl)) ]

find_empty : (hay : List ℕ) → find [] hay ≡ some 0
unfolding find
find_empty [] = refl
find_empty (c ∷ cs) = refl

-- An empty needle is found where the search begins.
strstr_empty : (s : Str) → IsValid s → strstr s.bytes 0 [] ≡ done (some 0)
unfolding strstr
strstr_empty s v =
    let (hay, e) = c_string-done s.bytes s.size v.terminated in rw e (ap done (find_empty hay))

-- A string of no characters
str_new_empty :
    (m : Allocator ℕ) (block : List ℕ)
    → Serves m
    → (s : Str) × (str_new m block 0 0 ≡ done (some s)) × (s.size ≡ 0)
unfolding str_new
str_new_empty m block serves =
    let (b, e) = serves 1 in
    let len = m.alloc_length 1 b e in
    (
      record { bytes = set b 0 0; size = 0 },
      rw (e, str_new)
          (rw (le→leb 0 (length block) (omega arith), memcpy_lem b 0 [] (omega arith))
            (rw (write_lem b 0 0 (omega arith)) refl)),
      refl,
    )

module _ (m : Allocator ℕ) (blocks : Allocator Str) (serves : Serves m)
    (serves_blocks : Serves blocks) (self : Str) (v : IsValid self) (h : 0 < self.size) where
  split_loop_spent :
      (fuel : ℕ) (arr : Array Str)
      → Valid.IsValid arr
      → 2 ≤ arr.capacity
      → split_loop m blocks fuel self [] 0 arr ≡ done spent
  unfolding split_loop
  split_loop_spent zero arr va two = refl
  split_loop_spent (suc fuel) arr va two =
      let (ref, e, none_taken) = str_new_empty m self.bytes serves in
      let (arr', ran, holds, two') = push_serves blocks serves_blocks arr ref va two in
      rw (lt→ltb 0 self.size h) (
        rw (strstr_empty self v) (
          rw e (
            rw ran (
              subst (λ k. split_loop m blocks fuel self [] k arr' ≡ done spent) {x = 0}
                (omega arith) (split_loop_spent fuel arr' holds.valid two')))))

  -- With an empty separator, and with memory granted, the split of a valid string that is not empty does
  -- not end: it spends any number of rounds that its loop is granted.
  pub split_endless : (fuel : ℕ) → split m blocks fuel self [] ≡ done spent
  unfolding split Array.new
  split_endless fuel =
      let (arr, e, va, z, c) = new_with_capacity_lem blocks serves_blocks 10 in
      rw (e, split) (split_loop_spent fuel arr va (omega arith))
