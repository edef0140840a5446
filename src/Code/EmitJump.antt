-- ===== src/Code/EmitJump.antt =====
-- The three jump emitters of code.c, to a label that is pending and to one that is in use.
use chimp.Common.{
  if◌then◌else◌, ℕ, suc, ◌+◌, ◌*◌, ◌%◌, ◌^◌, ◌<◌, ◌≡◌, refl, sym, ap, ◌∙◌, true, false, none, some,
  [], ◌∷◌, ◌++◌, arith, take, set, get_elem?, get_elem?-append_length, length-append, take-all,
  take-set_end, inl, inr, ◌⊎◌, length-set,
}
use native.Mathlib.Numerals.{add-one}
use native.Mathlib.Nat.{mod-eq_of_lt}
use chimp.Common.Runs.{done}
use chimp.Memory.{Allocator}
use chimp.Memory.Laws.{realloc_lem, realloc_cases, write_lem}
use chimp.Code.{Code, Label, grow, add_patch, get_jump_addr, next_instr}
use chimp.Code.Instr.{Opcode, opcode, instr_op, instr_addr}
use chimp.Code.Emit.{jump_instr, emit_jump}
use chimp.Code.Decode.{jump_sum, decode_sum}
use chimp.Code.Valid.{
  IsValid, IsRefused, instrs, Grown, Emitted, length-instrs, grow_lem, next_instr_lem,
}
use chimp.Code.Jumps.{Pending, Ascends-snoc, AllOpen-snoc, Emitted-Pending}

module _ {A : Type 0} (words : Allocator ℕ) where
  Emitted-after : (c g c' : Code A) (w : ℕ) → Grown c g → Emitted g w c' → Emitted c w c'
  Emitted-after c g c' w grown m = record {
    valid = m.valid;
    next = omega (arith, m.next, grown.same_used);
    appended = m.appended ∙ ap (λ t. t ++ w ∷ []) grown.same_instrs;
    same_constants = m.same_constants ∙ grown.same_constants;
    same_names = m.same_names ∙ grown.same_names;
  }

  Grown-Pending : (c g : Code A) (l : Label) → Grown c g → Pending c l → Pending g l
  Grown-Pending c g l grown p = record {
    unused = p.unused;
    owned = p.owned;
    order = rw grown.same_used p.order;
    opens = rw grown.same_instrs p.opens;
  }

  last_word :
      (g c' : Code A) (w : ℕ) → IsValid g → Emitted g w c' → get_elem? (instrs c') g.used ≡ some w
  last_word g c' w v m = rw m.appended (
      ap (get_elem? (instrs g ++ w ∷ [])) (sym (length-instrs g v))
      ∙ get_elem?-append_length (instrs g) w [])

  add_patch_lem :
      (c : Code A) (l : Label)
      → Pending c l
      → ((l' : Label) × (add_patch words c l ≡ done (some 0, l'))
          × (l'.in_use ≡ false)
          × (l'.patchlist ≡ l.patchlist ++ c.used ∷ [])
          × (l'.patchlist_size ≡ l.patchlist_size + 1))
        ⊎ ((add_patch words c l ≡ done (none, l)) × (words.alloc (l.patchlist_size + 1) ≡ none))
  unfolding add_patch
  add_patch_lem c l p = elim (realloc_cases words l.patchlist (l.patchlist_size + 1)) [
    | inr (q, refused) ↦ inr (rw (q, add_patch), refused)
    | inl (b, q) ↦
        let (len, keep) =
          realloc_lem words l.patchlist (l.patchlist_size + 1) (omega (arith, p.owned)) q in
        inl (
          record l {
            patchlist = set b l.patchlist_size c.used;
            patchlist_size = l.patchlist_size + 1;
          },
          rw (q, add_patch) (rw (write_lem b l.patchlist_size c.used (omega (arith, len)))),
          p.unused,
          sym (
                take-all (suc l.patchlist_size) (set b l.patchlist_size c.used)
                  (omega (arith, length-set b l.patchlist_size c.used, len)))
              ∙ take-set_end l.patchlist_size b c.used (omega (arith, len))
              ∙ ap (λ t. t ++ c.used ∷ []) (ap (λ n. take n b) p.owned ∙ keep),
          refl,
        )
  ]

  get_jump_addr_unused :
      (c : Code A) (l : Label) → l.in_use ≡ false → get_jump_addr words c l ≡ add_patch words c l
  unfolding get_jump_addr
  get_jump_addr_unused c l e = ap (λ b. if b then done (some l.addr, l) else add_patch words c l) e

  get_jump_addr_used :
      (c : Code A) (l : Label) → l.in_use ≡ true → get_jump_addr words c l ≡ done (some l.addr, l)
  unfolding get_jump_addr
  get_jump_addr_used c l e = ap (λ b. if b then done (some l.addr, l) else add_patch words c l) e

  emit_jump_room :
      (op : Opcode) (c g : Code A) (l : Label)
      → grow words c ≡ (true, g)
      → emit_jump words op c l ≡ jump_instr words op g l
  unfolding emit_jump
  emit_jump_room op c g l q = rw q

  emit_jump_full :
      (op : Opcode) (c : Code A) (l : Label)
      → grow words c ≡ (false, c)
      → emit_jump words op c l ≡ done (false, (c, l))
  unfolding emit_jump
  emit_jump_full op c l q = rw q

  jump_instr_refused :
      (op : Opcode) (g : Code A) (l : Label)
      → get_jump_addr words g l ≡ done (none, l)
      → jump_instr words op g l ≡ done (false, (g, record l { patchlist = [] }))
  unfolding jump_instr
  jump_instr_refused op g l e = rw e

  jump_instr_given :
      (op : Opcode) (g c' : Code A) (l l' : Label) (a : ℕ)
      → get_jump_addr words g l ≡ done (some a, l')
      → next_instr g (opcode op * 2 ^ 24 + a % 2 ^ 24) ≡ done c'
      → jump_instr words op g l ≡ done (true, (c', l'))
  unfolding jump_instr
  jump_instr_given op g c' l l' a e n = rw e (rw (jump_sum op a) (rw n))

  -- A jump to a pending label, on a valid code object, appends the operation with the address 0, puts
  -- its position at the end of the label's patch list and leaves the label pending, or it returns false
  -- where memory for the word or for the patch list is refused.
  pub emit_jump-Pending :
      (op : Opcode) (c : Code A) (l : Label)
      → IsValid c
      → Pending c l
      → ((c' : Code A) × (l' : Label) × (emit_jump words op c l ≡ done (true, (c', l')))
          × Emitted c (opcode op * 2 ^ 24) c'
          × Pending c' l'
          × (l'.patchlist ≡ l.patchlist ++ c.used ∷ []))
        ⊎ ((r : Code A × Label) × (emit_jump words op c l ≡ done (false, r))
            × (IsRefused words c ⊎ (words.alloc (l.patchlist_size + 1) ≡ none)))
  emit_jump-Pending op c l v p = elim (grow_lem words c v) [
    | inr (q, refused) ↦ inr ((c, l), emit_jump_full op c l q, inl refused)
    | inl (g, q, grown) ↦
        let p' = Grown-Pending c g l grown p in
        elim (add_patch_lem g l p') [
          | inr (e, refused) ↦ inr (
            (g, record l { patchlist = [] }),
            emit_jump_room op c g l q
                ∙ jump_instr_refused op g l (get_jump_addr_unused g l p'.unused ∙ e),
            inr refused,
          )
          | inl (l', e, unused, list, size) ↦
              let (c', n, m) = next_instr_lem g (opcode op * 2 ^ 24) grown.valid grown.room in
              let emitted = Emitted-after c g c' (opcode op * 2 ^ 24) grown m in
              let kept = Emitted-Pending c c' (opcode op * 2 ^ 24) l emitted p in
              inl (
                c',
                l',
                emit_jump_room op c g l q
                    ∙ jump_instr_given op g c' l l' 0 (get_jump_addr_unused g l p'.unused ∙ e)
                        (ap (next_instr g) (omega arith) ∙ n),
                emitted,
                record {
                  unused = unused;
                  owned =
                      size
                      ∙ rw list (omega (arith, p.owned, length-append l.patchlist (g.used ∷ [])));
                  order =
                      rw list (rw m.next (rw add-one (Ascends-snoc 0 g.used l.patchlist p'.order)));
                  opens = rw list (
                      AllOpen-snoc (instrs c') l.patchlist g.used op kept.opens
                        (last_word g c' (opcode op * 2 ^ 24) grown.valid m));
                },
                list ∙ ap (λ n. l.patchlist ++ n ∷ []) grown.same_used,
              )
        ]
  ]

  -- A jump to a label in use, on a valid code object, appends a word that decodes to the operation and
  -- the label's address, if that is below 2^24, and keeps the label as it is, or it returns false where
  -- memory for the word is refused.
  pub emit_jump-in_use :
      (op : Opcode) (c : Code A) (l : Label)
      → IsValid c
      → l.in_use ≡ true
      → l.addr < 2 ^ 24
      → ((c' : Code A) × (w : ℕ) × (emit_jump words op c l ≡ done (true, (c', l)))
          × Emitted c w c'
          × (instr_op w ≡ opcode op)
          × (instr_addr w ≡ l.addr))
        ⊎ ((emit_jump words op c l ≡ done (false, (c, l))) × IsRefused words c)
  emit_jump-in_use op c l v used small = elim (grow_lem words c v) [
    | inr (q, refused) ↦ inr (emit_jump_full op c l q, refused)
    | inl (g, q, grown) ↦
        let w = opcode op * 2 ^ 24 + l.addr % 2 ^ 24 in
        let (c', n, m) = next_instr_lem g w grown.valid grown.room in
        let (d, a) = decode_sum op (l.addr % 2 ^ 24) (omega arith) in
        inl (
          c',
          w,
          emit_jump_room op c g l q
              ∙ jump_instr_given op g c' l l l.addr (get_jump_addr_used g l used) n,
          Emitted-after c g c' w grown m,
          d,
          a ∙ mod-eq_of_lt small,
        )
  ]
