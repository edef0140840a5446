-- ===== src/Code/Tests.antt =====
-- Runs of the emitters and labels at small code objects.
use chimp.Common.{
  ℕ, ◌+◌, ◌*◌, ◌%◌, ◌^◌, ◌≡◌, refl, true, false, none, some, [], ◌∷◌, ◌++◌, arith, get_elem?, ◌⊎◌,
}
use chimp.Common.Runs.{done}
use chimp.Samples.{granting, compare}
use chimp.Array.{Array}
use chimp.Code.{Code, Label, use_label}
use chimp.Code.Instr.{
  opcode, opcode_pushconst, opcode_jump, make_instr1, instr_op, instr_addr, instr_arg1,
}
use chimp.Code.Emit.{pushconst, emit_jump}
use chimp.Code.Decode.{decode_instr1}
use chimp.Code.Valid.{IsReady, IsValid, IsRefused, instrs, Emitted}
use chimp.Code.Consts.{Named, pushconst_lem}
use chimp.Code.Jumps.{Pending, Resolved, use_label_lem, jump-use_label}
use chimp.Code.EmitJump.{emit_jump-Pending}

abbrev items : Array ℕ
items = record { items = 5 ∷ 0 ∷ []; size = 1; capacity = 2 }

items-IsReady : IsReady items
items-IsReady = record {
  valid = record { fits = omega arith; allocated = refl };
  room = omega arith;
}

-- One jump to a label that is not in use yet, in a block of two words.
abbrev waiting : Code ℕ
waiting = record {
  constants = items;
  names = items;
  bytecode = opcode opcode_jump * 2 ^ 24 ∷ 0 ∷ [];
  used = 1;
  allocated = 2;
}

waiting-IsValid : IsValid waiting
waiting-IsValid = record {
  fits = omega arith;
  words = refl;
  constants = items-IsReady;
  names = items-IsReady;
}

abbrev ahead : Label
ahead = record { patchlist = 0 ∷ []; patchlist_size = 1; addr = 0; in_use = false }

ahead-Pending : Pending waiting ahead
ahead-Pending = record {
  unused = refl;
  owned = refl;
  order = (omega arith, omega arith);
  opens = ((opcode_jump, refl), tt);
}

abbrev behind : Label
behind = record { patchlist = []; patchlist_size = 0; addr = 0; in_use = true }

decode_instr1_example :
    (instr_op (make_instr1 opcode_pushconst 256) ≡ opcode opcode_pushconst)
    × (instr_arg1 (make_instr1 opcode_pushconst 256) ≡ 256 % 2 ^ 8)
decode_instr1_example = decode_instr1 opcode_pushconst 256

pushconst_lem_example :
    Named compare 0
      (granting 0)
      (granting 0)
      opcode_pushconst
      (λ c. c.constants)
      (λ c. c.names)
      waiting
      7
      (pushconst (granting 0) compare 0 (granting 0) waiting 7)
pushconst_lem_example =
    pushconst_lem compare 0 (granting 0) (granting 0) waiting 7 waiting-IsValid (omega arith)

use_label_lem_example :
    (c' : Code ℕ) × (l' : Label) × (use_label waiting ahead ≡ done (c', l'))
    × Resolved waiting ahead c' l'
use_label_lem_example = use_label_lem waiting ahead waiting-IsValid ahead-Pending

jump-use_label_example :
    (c' : Code ℕ) × (l' : Label) × (w : ℕ) × (use_label waiting ahead ≡ done (c', l'))
    × (get_elem? (instrs c') 0 ≡ some w)
    × (instr_op w ≡ opcode opcode_jump)
    × (instr_addr w ≡ 1)
jump-use_label_example =
    jump-use_label waiting ahead opcode_jump 0 waiting-IsValid ahead-Pending refl refl (omega arith)

emit_jump-Pending_example :
    ((c' : Code ℕ) × (l' : Label) × (emit_jump (granting 0) opcode_jump waiting ahead
        ≡ done (true, (c', l')))
      × Emitted waiting (opcode opcode_jump * 2 ^ 24) c'
      × Pending c' l'
      × (l'.patchlist ≡ ahead.patchlist ++ 1 ∷ []))
    ⊎ ((r : Code ℕ × Label) × (emit_jump (granting 0) opcode_jump waiting ahead ≡ done (false, r))
        × (IsRefused (granting 0) waiting
            ⊎ ((granting {A = ℕ} 0).alloc (ahead.patchlist_size + 1) ≡ none)))
emit_jump-Pending_example =
    emit_jump-Pending (granting 0) opcode_jump waiting ahead waiting-IsValid ahead-Pending
