-- ===== src/Code/Consts.antt =====
-- The constants and the names of a code object, and the emitters that index them.
use chimp.Common.{
  ℕ, suc, ◌-◌, ◌<◌, ◌≡◌, ◌^◌, refl, sym, ap, ◌∙◌, Bool, true, false, none, some, List, [], ◌∷◌,
  ◌++◌, arith, length, length-append, ◌⊎◌, inl, inr,
}
use chimp.Common.Int.{ℤ, pos, negsuc, int32, int32-eq-pos}
use chimp.Common.Runs.{Run, done, bug}
use chimp.Compare.{CmpResult, eq}
use chimp.Memory.{Allocator}
use chimp.Array.{Array, push}
use chimp.Array.Valid.{contents, length-contents, IsStuck}
use chimp.Array.Valid
use chimp.Array.Ends.{Holds, push_lem, push-capacity}
use chimp.Array.Methods.Search.{FirstAt, FirstAt-lt, find_lem}
use chimp.Code.{Code}
use chimp.Code.Instr.{Opcode, opcode_pushconst, make_instr1}
use chimp.Code.Emit.{
  add_at, add_item, add_const, add_name, indexed, pushconst, emit_name, found_index,
}
use chimp.Code.Valid.{IsReady, IsValid, IsRefused, instrs, grow_lem, next_instr_lem}

found_index-some : (i : ℕ) → i < 2 ^ 31 → found_index (some i) ≡ pos i
unfolding found_index
found_index-some i h = int32-eq-pos i h

found_index-none : found_index none ≡ negsuc 0
unfolding found_index
found_index-none = refl

module _ {A : Type 0} (cmp : A → A → CmpResult) (nil : A) (words : Allocator ℕ)
    (objects : Allocator A) where
  -- Index `i` is that of the first item that compares equal to `value`, or of `value` itself, appended.
  abbrev pub Interned : A → List A → List A → ℕ → Type 0
  Interned value old new i =
      (FirstAt cmp value eq old i × (new ≡ old)) ⊎ ((i ≡ length old) × (new ≡ old ++ value ∷ []))

  appended :
      (items items' : Array A) (value : A)
      → IsReady items
      → items.size < 2 ^ 31
      → push objects items value ≡ done items'
      → Holds (contents items ++ value ∷ []) items'
      → IsReady items' × (int32 (items'.size - 1) ≡ pos items.size)
  appended items items' value v small e h =
      let size : items'.size ≡ suc items.size = omega (
        arith,
        length-contents items' h.valid,
        ap length h.holds,
        length-append (contents items) (value ∷ []),
        length-contents items v.valid,
      ) in
      (
        record {
          valid = h.valid;
          room = omega (arith, v.room, push-capacity objects items items' value e);
        },
        ap (λ n. int32 n) (omega (arith, size)) ∙ int32-eq-pos items.size small,
      )

  add_item_lem :
      (items : Array A) (value : A)
      → IsReady items
      → items.size < 2 ^ 31
      → ((i : ℕ) × (items' : Array A) × (add_item words cmp nil objects items value
            ≡ done (pos i, items'))
          × IsReady items'
          × Interned value (contents items) (contents items') i)
        ⊎ ((add_item words cmp nil objects items value ≡ bug) × Valid.IsRefused objects items)
  unfolding add_item add_at found_index
  add_item_lem items value v small = elim (find_lem nil cmp value items v.valid (omega arith)) [
    | inl (i, e, first) ↦
        let lt : i < 2 ^ 31 = omega (
          arith,
          FirstAt-lt cmp value eq (contents items) i first,
          length-contents items v.valid,
        ) in
        inl (i, items, rw e (at (found_index-some i lt)), v, inl (first, refl))
    | inr (e, _) ↦ elim (push_lem objects items value v.valid free) [
      | inl (items', q, h) ↦
          let (v', index) = appended items items' value v small q h in
          inl (
            items.size,
            items',
            rw e (at found_index-none ∙ rw q (rw index)),
            v',
            inr (sym (length-contents items v.valid), h.holds),
          )
      | inr (q, refused) ↦ inr (rw e (rw q), refused)
    ]
  ]
    where
      at :
          {n n' : ℤ}
          → n ≡ n'
          → add_at words cmp nil objects items value n ≡ add_at words cmp nil objects items value n'
      at e = ap (add_at words cmp nil objects items value) e

      free : ¬ (IsStuck items)
      free (a, b) = absurd (omega (arith, v.room))

  -- What an emitter with an index leaves: its word at the end with the index of the item, an unchanged
  -- code object where there is no memory for the word, or an abort where there is none for the item.
  abbrev pub Named :
      Opcode → (Code A → Array A) → (Code A → Array A) → Code A → A → Run (Bool × Code A) → Type 0
  Named op items others c value run =
      ((i : ℕ) × (c' : Code A) × (run ≡ done (true, c'))
        × IsValid c'
        × (instrs c' ≡ instrs c ++ make_instr1 op i ∷ [])
        × Interned value (contents (items c)) (contents (items c')) i
        × (others c' ≡ others c))
      ⊎ (((run ≡ done (false, c)) × IsRefused words c)
          ⊎ ((run ≡ bug) × Valid.IsRefused objects (items c)))

  -- `chimp_code_pushconst` on a valid code object with less than 2^31 constants: the word appended has
  -- the index of the first constant that compares equal, or of the value as a new constant, and the
  -- object stays valid; it returns false or aborts only where memory is refused.
  pub pushconst_lem :
      (c : Code A) (value : A)
      → IsValid c
      → c.constants.size < 2 ^ 31
      → Named opcode_pushconst
          (λ c. c.constants)
          (λ c. c.names)
          c
          value
          (pushconst words cmp nil objects c value)
  unfolding pushconst add_const indexed
  pushconst_lem c value v small = elim (grow_lem words c v) [
    | inr (q, refused) ↦ inr (inl (rw q, refused))
    | inl (g, q, grown) ↦
        let same = grown.same_constants in
        elim (add_item_lem c.constants value v.constants small) [
          | inr (e, refused) ↦ inr (inr (rw q (rw same (rw e)), refused))
          | inl (i, items, e, ready, interned) ↦
              let valid : IsValid (record g { constants = items }) = record {
                fits = grown.valid.fits;
                words = grown.valid.words;
                constants = ready;
                names = grown.valid.names;
              } in
              let (c', n, m) =
                next_instr_lem (record g { constants = items }) (make_instr1 opcode_pushconst i)
                  valid grown.room in
              inl (
                i,
                c',
                rw q (rw same (rw e (rw n))),
                m.valid,
                m.appended ∙ ap (λ t. t ++ make_instr1 opcode_pushconst i ∷ []) grown.same_instrs,
                rw m.same_constants interned,
                m.same_names ∙ grown.same_names,
              )
        ]
  ]

  -- The emitters of a name (PUSHNAME, STORENAME, GETATTR) on a valid code object with less than 2^31
  -- names: the word appended has the index of the first name that compares equal, or of the new name,
  -- and the object stays valid; they return false or abort only where memory is refused.
  pub emit_name_lem :
      (op : Opcode) (c : Code A) (id : A)
      → IsValid c
      → c.names.size < 2 ^ 31
      → Named op (λ c. c.names) (λ c. c.constants) c id (emit_name words cmp nil objects op c id)
  unfolding emit_name add_name indexed
  emit_name_lem op c id v small = elim (grow_lem words c v) [
    | inr (q, refused) ↦ inr (inl (rw q, refused))
    | inl (g, q, grown) ↦
        let same = grown.same_names in
        elim (add_item_lem c.names id v.names small) [
          | inr (e, refused) ↦ inr (inr (rw q (rw same (rw e)), refused))
          | inl (i, items, e, ready, interned) ↦
              let valid : IsValid (record g { names = items }) = record {
                fits = grown.valid.fits;
                words = grown.valid.words;
                constants = grown.valid.constants;
                names = ready;
              } in
              let (c', n, m) =
                next_instr_lem (record g { names = items }) (make_instr1 op i) valid grown.room in
              inl (
                i,
                c',
                rw q (rw same (rw e (rw n))),
                m.valid,
                m.appended ∙ ap (λ t. t ++ make_instr1 op i ∷ []) grown.same_instrs,
                rw m.same_names interned,
                m.same_constants ∙ grown.same_constants,
              )
        ]
  ]
