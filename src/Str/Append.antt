-- ===== src/Str/Append.antt =====
-- libchimp/str.c: `chimp_str_append` as the concatenation of lists of bytes.
use mathlib.Core.List.{append_assoc}
use chimp.Common.{
  take-all, take-append, take-set_ge, ℕ, ◌+◌, ◌<◌, ◌≡◌, ap, sym, ◌∙◌, true, false, none, some, List,
  ◌++◌, ◌⊎◌, inl, inr, length, take, drop, le→leb, length-take, length-drop, length-append,
  length-set, arith, get_elem?, get_elem?-set_self, set,
}
use chimp.Common.Runs.{done}
use chimp.Memory.{Allocator}
use chimp.Memory.Laws.{realloc_cases, realloc_keeps, write_lem, memcpy_lem}
use chimp.Str.{Str, append}

-- The characters and the terminator behind them lie in the block.
pub record IsValid (s : Str) : Type 0 where
  pub fits : s.size < length s.bytes
  pub terminated : get_elem? s.bytes s.size ≡ some 0

abbrev pub chars : Str → List ℕ
chars s = take s.size s.bytes

-- The block that `memcpy` and the terminator leave
appended :
    (b os : List ℕ) (n k : ℕ)
    → length b ≡ n + k + 1
    → length os ≡ k
    → take (n + k) (set (take n b ++ (os ++ drop (n + length os) b)) (n + k) 0) ≡ take n b ++ os
appended b os n k lb lo =
    let lt : length (take n b ++ os) ≡ n + k =
      omega (arith, length-append (take n b) os, length-take n b) in
    take-set_ge (n + k) (n + k) (take n b ++ (os ++ drop (n + length os) b)) 0 (omega arith)
    ∙ ap (take (n + k)) (sym (append_assoc (take n b) os (drop (n + length os) b)))
    ∙ take-append (n + k) (take n b ++ os) (drop (n + length os) b) (omega arith)
    ∙ take-all (n + k) (take n b ++ os) (omega arith)

-- `chimp_str_append` of valid strings returns true with a valid string that has the characters of both,
-- or false with the string as it was, where the larger block is refused.
pub append_lem :
    (m : Allocator ℕ) (self other : Str)
    → IsValid self
    → IsValid other
    → ((s : Str) × (append m self other ≡ done (true, s))
        × IsValid s
        × (chars s ≡ chars self ++ chars other))
      ⊎ ((append m self other ≡ done (false, self)) × (m.alloc (self.size + other.size + 1) ≡ none))
unfolding append
append_lem m self other v w = elim (realloc_cases m self.bytes (self.size + other.size + 1)) [
  | inl (b, q) ↦
      let (lb, kept) =
        realloc_keeps m self.bytes (self.size + other.size + 1) self.size (omega arith)
          (omega (arith, v.fits)) q in
      let lo : length (chars other) ≡ other.size =
        omega (arith, length-take other.size other.bytes, w.fits) in
      let l₁ : length
            (take self.size b ++ (chars other ++ drop (self.size + length (chars other)) b))
          ≡ self.size + other.size + 1 =
        omega (
          arith,
          length-append (take self.size b)
              (chars other ++ drop (self.size + length (chars other)) b),
          length-append (chars other) (drop (self.size + length (chars other)) b),
          length-take self.size b,
          length-drop (self.size + length (chars other)) b,
        ) in
      inl (
        record {
          bytes =
              set (take self.size b ++ (chars other ++ drop (self.size + length (chars other)) b))
                (self.size + other.size) 0;
          size = self.size + other.size;
        },
        rw (q, le→leb other.size (length other.bytes) (omega (arith, w.fits)), append)
            (rw (memcpy_lem b self.size (chars other) (omega arith)) (
              rw (
                write_lem
                  (take self.size b ++ (chars other ++ drop (self.size + length (chars other)) b))
                  (self.size + other.size) 0 (omega arith)))),
        record {
          fits = omega (
            arith,
            length-set
                (take self.size b ++ (chars other ++ drop (self.size + length (chars other)) b))
                (self.size + other.size) 0,
          );
          terminated =
              get_elem?-set_self
                (take self.size b ++ (chars other ++ drop (self.size + length (chars other)) b))
                (self.size + other.size) 0 (omega arith);
        },
        appended b (chars other) self.size other.size lb lo ∙ ap (λ t. t ++ chars other) kept,
      )
  | inr (q, refused) ↦ inr (rw (q, append), refused)
]
