-- ===== src/Code/Jumps.antt =====
-- Jumps to labels: what emitting one leaves pending, and what `chimp_code_use_label` resolves.
use chimp.Common.{
  ℕ, zero, suc, ◌+◌, ◌*◌, ◌%◌, ◌^◌, ◌≤◌, ◌<◌, ◌≡◌, refl, ◌∙◌, true, false, some, List, [], ◌∷◌,
  ◌++◌, arith, length, take, get_elem?,
}
use native.Mathlib.Nat.{mod-eq_of_lt}
use chimp.Common.Members.{elem}
use chimp.Common.Runs.{done}
use chimp.Code.{Code, Label, use_label}
use chimp.Code.Instr.{Opcode, opcode, instr_op, instr_addr}
use chimp.Code.Decode.{decode_sum}
use chimp.Code.Valid.{IsValid, instrs, Emitted}
use chimp.Code.Labels.{
  resolved, Ascends, AllOpen, patch_lem, take-resolved, length-resolved, get_elem?-resolved,
}

-- The label is not in use, and its patch list has the positions of words that wait for its address.
pub record Pending {A : Type 0} (c : Code A) (l : Label) : Type 0 where
  pub unused : l.in_use ≡ false
  pub owned : l.patchlist_size ≡ length l.patchlist
  pub order : Ascends 0 c.used l.patchlist
  pub opens : AllOpen (instrs c) l.patchlist

Ascends-later : (lo hi hi' : ℕ) (ps : List ℕ) → hi ≤ hi' → Ascends lo hi ps → Ascends lo hi' ps
Ascends-later lo hi hi' [] le h = omega arith
Ascends-later lo hi hi' (p ∷ ps) le (a, b) = (a, Ascends-later (suc p) hi hi' ps le b)

pub Ascends-snoc :
    (lo hi : ℕ) (ps : List ℕ) → Ascends lo hi ps → Ascends lo (suc hi) (ps ++ hi ∷ [])
Ascends-snoc lo hi [] h = (h, omega arith)
Ascends-snoc lo hi (p ∷ ps) (a, b) = (a, Ascends-snoc (suc p) hi ps b)

AllOpen-append : (ws more ps : List ℕ) → AllOpen ws ps → AllOpen (ws ++ more) ps
AllOpen-append ws more [] o = tt
AllOpen-append ws more (p ∷ ps) ((op, e), o) = ((op, found ws p e), AllOpen-append ws more ps o)
  where
    found :
        (ws : List ℕ) (p : ℕ) {w : ℕ} → get_elem? ws p ≡ some w → get_elem? (ws ++ more) p ≡ some w
    found [] p e = cc
    found (x ∷ ws) zero e = e
    found (x ∷ ws) (suc p) e = found ws p e

AllOpen-take : (n : ℕ) (ws ps : List ℕ) → AllOpen (take n ws) ps → AllOpen ws ps
AllOpen-take n ws [] o = tt
AllOpen-take n ws (p ∷ ps) ((op, e), o) = ((op, found n ws p e), AllOpen-take n ws ps o)
  where
    found :
        (n : ℕ) (ws : List ℕ) (p : ℕ) {w : ℕ}
        → get_elem? (take n ws) p ≡ some w
        → get_elem? ws p ≡ some w
    found zero ws p e = cc
    found (suc n) [] p e = cc
    found (suc n) (x ∷ ws) zero e = e
    found (suc n) (x ∷ ws) (suc p) e = found n ws p e

pub AllOpen-snoc :
    (ws ps : List ℕ) (q : ℕ) (op : Opcode)
    → AllOpen ws ps
    → get_elem? ws q ≡ some (opcode op * 2 ^ 24)
    → AllOpen ws (ps ++ q ∷ [])
AllOpen-snoc ws [] q op o e = ((op, e), tt)
AllOpen-snoc ws (p ∷ ps) q op (a, o) e = (a, AllOpen-snoc ws ps q op o e)

module _ {A : Type 0} where
  -- An emitter of any word leaves a pending label pending.
  pub Emitted-Pending :
      (c c' : Code A) (w : ℕ) (l : Label) → Emitted c w c' → Pending c l → Pending c' l
  Emitted-Pending c c' w l e p = record {
    unused = p.unused;
    owned = p.owned;
    order = Ascends-later 0 c.used c'.used l.patchlist (omega (arith, e.next)) p.order;
    opens = rw e.appended (AllOpen-append (instrs c) (w ∷ []) l.patchlist p.opens);
  }

  -- What `chimp_code_use_label` leaves of the words: the address at each position of the patch list.
  pub record Resolved (c : Code A) (l : Label) (c' : Code A) (l' : Label) : Type 0 where
    pub valid : IsValid c'
    pub same_used : c'.used ≡ c.used
    pub words : instrs c' ≡ resolved l.patchlist (c.used % 2 ^ 24) 0 (instrs c)
    pub in_use : l'.in_use ≡ true
    pub addr : l'.addr ≡ c.used

  -- Using a pending label on a valid code object returns: the address of the next word is filled in at
  -- exactly the positions of the label's patch list, every other word is as before, the object is
  -- valid, and the label is in use at that address.
  pub use_label_lem :
      (c : Code A) (l : Label)
      → IsValid c
      → Pending c l
      → (c' : Code A) × (l' : Label) × (use_label c l ≡ done (c', l')) × Resolved c l c' l'
  unfolding use_label
  use_label_lem c l v p = (
    record c { bytecode = resolved l.patchlist (c.used % 2 ^ 24) 0 c.bytecode },
    record l { patchlist = []; addr = c.used; in_use = true },
    rw p.unused (
        rw
          (patch_lem l.patchlist c.used 0 l.patchlist_size 0 c.used l.patchlist c.bytecode refl
            p.owned (omega (arith, v.fits, v.words)) p.order
            (AllOpen-take c.used c.bytecode l.patchlist p.opens))
          refl),
    record {
      valid = record {
        fits = v.fits;
        words = length-resolved l.patchlist (c.used % 2 ^ 24) 0 c.bytecode ∙ v.words;
        constants = v.constants;
        names = v.names;
      };
      same_used = refl;
      words = take-resolved c.used l.patchlist (c.used % 2 ^ 24) 0 c.bytecode;
      in_use = refl;
      addr = refl;
    },
  )

  -- A jump that waits for a label at position `p` decodes, once the label is used, to its operation and
  -- to the address where the label was used, if that address is below 2^24.
  pub jump-use_label :
      (c : Code A) (l : Label) (op : Opcode) (p : ℕ)
      → IsValid c
      → Pending c l
      → elem p l.patchlist ≡ true
      → get_elem? (instrs c) p ≡ some (opcode op * 2 ^ 24)
      → c.used < 2 ^ 24
      → (c' : Code A) × (l' : Label) × (w : ℕ) × (use_label c l ≡ done (c', l'))
        × (get_elem? (instrs c') p ≡ some w)
        × (instr_op w ≡ opcode op)
        × (instr_addr w ≡ c.used)
  jump-use_label c l op p v pending has at small =
      let (c', l', e, r) = use_label_lem c l v pending in
      let (d, a) = decode_sum op (c.used % 2 ^ 24) (omega arith) in
      (
        c',
        l',
        opcode op * 2 ^ 24 + c.used % 2 ^ 24,
        e,
        rw r.words (
            get_elem?-resolved l.patchlist (c.used % 2 ^ 24) 0 p p (opcode op * 2 ^ 24) (instrs c)
              (omega arith) at has),
        d,
        a ∙ mod-eq_of_lt small,
      )
