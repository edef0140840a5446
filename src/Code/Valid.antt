-- ===== src/Code/Valid.antt =====
-- The invariant of a code object, the words that it holds, and what one more word does.
use chimp.Common.{
  ℕ, ◌+◌, ◌≤◌, ◌<◌, ◌≡◌, refl, ap, ◌∙◌, true, false, none, List, [], ◌∷◌, ◌++◌, arith, length, take,
  set, ltb, length-take, length-set, take-set_end, ◌⊎◌, inl, inr, Bool-cases, ltb→lt,
}
use native.Mathlib.Numerals.{add-one}
use chimp.Common.Runs.{done}
use chimp.Memory.{Allocator}
use chimp.Memory.Laws.{write_lem, realloc_keeps, realloc_cases}
use chimp.Array.{Array}
use chimp.Array.Valid
use chimp.Code.{Code, grow, next_instr}
use chimp.Code.Emit.{emit}

module _ {A : Type 0} where
  -- An array that is valid and that no append can get stuck at.
  pub record IsReady (items : Array A) : Type 0 where
    pub valid : Valid.IsValid items
    pub room : 2 ≤ items.capacity

  pub record IsValid (c : Code A) : Type 0 where
    pub fits : c.used ≤ c.allocated
    pub words : length c.bytecode ≡ c.allocated
    pub constants : IsReady c.constants
    pub names : IsReady c.names

  -- The words that the code object holds.
  abbrev pub instrs : Code A → List ℕ
  instrs c = take c.used c.bytecode

  pub length-instrs : (c : Code A) → IsValid c → length (instrs c) ≡ c.used
  length-instrs c v = omega (arith, v.fits, v.words, length-take c.used c.bytecode)

  -- Room for one more word, and nothing else changed.
  pub record Grown (c c' : Code A) : Type 0 where
    pub valid : IsValid c'
    pub room : c'.used < c'.allocated
    pub same_used : c'.used ≡ c.used
    pub same_instrs : instrs c' ≡ instrs c
    pub same_constants : c'.constants ≡ c.constants
    pub same_names : c'.names ≡ c.names

  -- One more word at the end, and nothing else changed.
  pub record Emitted (c : Code A) (w : ℕ) (c' : Code A) : Type 0 where
    pub valid : IsValid c'
    pub next : c'.used ≡ c.used + 1
    pub appended : instrs c' ≡ instrs c ++ w ∷ []
    pub same_constants : c'.constants ≡ c.constants
    pub same_names : c'.names ≡ c.names

  pub next_instr_lem :
      (c : Code A) (w : ℕ)
      → IsValid c
      → c.used < c.allocated
      → (c' : Code A) × (next_instr c w ≡ done c') × Emitted c w c'
  unfolding next_instr
  next_instr_lem c w v lt = (
    record c { bytecode = set c.bytecode c.used w; used = c.used + 1 },
    rw (write_lem c.bytecode c.used w (omega (arith, v.words))),
    record {
      valid = record {
        fits = omega arith;
        words = length-set c.bytecode c.used w ∙ v.words;
        constants = v.constants;
        names = v.names;
      };
      next = refl;
      appended = rw add-one (take-set_end c.used c.bytecode w (omega (arith, v.words)));
      same_constants = refl;
      same_names = refl;
    },
  )

  module _ (words : Allocator ℕ) where
    abbrev pub IsRefused : Code A → Type 0
    IsRefused c = (c.used ≡ c.allocated) × (words.alloc (c.allocated + 32) ≡ none)

    pub grow_lem :
        (c : Code A)
        → IsValid c
        → ((c' : Code A) × (grow words c ≡ (true, c')) × Grown c c')
          ⊎ ((grow words c ≡ (false, c)) × IsRefused c)
    unfolding grow
    grow_lem c v = elim (Bool-cases (ltb c.used c.allocated)) [
      | inl t ↦ inl (
        c,
        rw t,
        record {
          valid = v;
          room = ltb→lt c.used c.allocated t;
          same_used = refl;
          same_instrs = refl;
          same_constants = refl;
          same_names = refl;
        },
      )
      | inr f ↦
          let full : c.used ≡ c.allocated = ground arith in
          elim (realloc_cases words c.bytecode (c.allocated + 32)) [
            | inr (q, refused) ↦ inr (rw (f, grow) (rw q), (full, refused))
            | inl (b, q) ↦
                let (len, keep) =
                  realloc_keeps words c.bytecode (c.allocated + 32) c.used (omega (arith, v.fits))
                    (omega (arith, v.fits, v.words)) q in
                inl (
                  record c { bytecode = b; allocated = c.allocated + 32 },
                  rw (f, grow) (rw q),
                  record {
                    valid = record {
                      fits = omega (arith, v.fits);
                      words = len;
                      constants = v.constants;
                      names = v.names;
                    };
                    room = omega (arith, v.fits);
                    same_used = refl;
                    same_instrs = keep;
                    same_constants = refl;
                    same_names = refl;
                  },
                )
          ]
    ]

    -- An emitter on a valid code object appends exactly its word and keeps the object valid, or it
    -- returns false and changes nothing, where the block is full and memory is refused.
    pub emit_lem :
        (c : Code A) (w : ℕ)
        → IsValid c
        → ((c' : Code A) × (emit words c w ≡ done (true, c')) × Emitted c w c')
          ⊎ ((emit words c w ≡ done (false, c)) × IsRefused c)
    unfolding emit
    emit_lem c w v = elim (grow_lem c v) [
      | inr (q, refused) ↦ inr (rw q, refused)
      | inl (c', q, g) ↦
          let (c'', e, m) = next_instr_lem c' w g.valid g.room in
          inl (
            c'',
            rw q (rw e),
            record {
              valid = m.valid;
              next = omega (arith, m.next, g.same_used);
              appended = m.appended ∙ ap (λ t. t ++ w ∷ []) g.same_instrs;
              same_constants = m.same_constants ∙ g.same_constants;
              same_names = m.same_names ∙ g.same_names;
            },
          )
    ]
