-- ===== src/Code/Labels.antt =====
-- Labels of code objects: the words that wait for an address, and what `chimp_code_use_label` makes
-- of them.
use Prim.Native.Nat.{bit_or}
use chimp.Common.{
  ℕ, zero, suc, ◌+◌, ◌*◌, ◌%◌, ◌^◌, ◌≤◌, ◌<◌, ◌≡◌, refl, sym, ap, ◌∙◌, true, false, some, List, [],
  ◌∷◌, arith, length, take, drop, set, get_elem?, ◌==◌, if◌then◌else◌, length-set, get_elem?-set_ne,
  some_inj, ==_iff,
}
use chimp.Common.Bits.{bit_or_apart}
use chimp.Common.Members.{elem}
use chimp.Common.Runs.{done}
use chimp.Memory.Laws.{read_lem, write_lem}
use chimp.Code.{patch}
use chimp.Code.Instr.{Opcode, opcode}

-- The words from index `i` on, with the address `a` filled in at the positions `ps`.
abbrev pub resolved : List ℕ → ℕ → ℕ → List ℕ → List ℕ
resolved ps a i [] = []
resolved ps a i (w ∷ ws) = (if elem i ps then w + a else w) ∷ resolved ps a (suc i) ws

-- The positions increase from `lo` on and lie below `hi`.
abbrev pub Ascends : ℕ → ℕ → List ℕ → Type 0
Ascends lo hi [] = lo ≤ hi
Ascends lo hi (p ∷ ps) = (lo ≤ p) × Ascends (suc p) hi ps

-- The word at each position is an instruction whose address is still 0.
abbrev pub AllOpen : List ℕ → List ℕ → Type 0
AllOpen ws [] = Unit
AllOpen ws (p ∷ ps) = ((op : Opcode) × (get_elem? ws p ≡ some (opcode op * 2 ^ 24))) × AllOpen ws ps

pub Ascends-le : (lo hi : ℕ) (ps : List ℕ) → Ascends lo hi ps → lo ≤ hi
Ascends-le lo hi [] h = h
Ascends-le lo hi (p ∷ ps) (a, b) = omega (arith, Ascends-le (suc p) hi ps b)

elem_below : (q lo hi : ℕ) (ps : List ℕ) → q < lo → Ascends lo hi ps → elem q ps ≡ false
elem_below q lo hi [] lt h = refl
elem_below q lo hi (p ∷ ps) lt (a, b) =
    let rest = elem_below q (suc p) hi ps (omega arith) b in ground (arith, rest)

AllOpen-set :
    (ws ps : List ℕ) (q v lo hi : ℕ)
    → q < lo
    → Ascends lo hi ps
    → AllOpen ws ps
    → AllOpen (set ws q v) ps
AllOpen-set ws [] q v lo hi lt h o = tt
AllOpen-set ws (p ∷ ps) q v lo hi lt (a, b) ((op, e), o) = (
  (op, get_elem?-set_ne ws v (λ s. absurd (omega arith)) ∙ e),
  AllOpen-set ws ps q v (suc p) hi (omega arith) b o,
)

resolved_none : (a i : ℕ) (ws : List ℕ) → resolved [] a i ws ≡ ws
resolved_none a i [] = refl
resolved_none a i (w ∷ ws) = ap (λ t. w ∷ t) (resolved_none a (suc i) ws)

resolved_before :
    (j : ℕ) (ps : List ℕ) (a i : ℕ) (ws : List ℕ)
    → j < i
    → resolved (j ∷ ps) a i ws ≡ resolved ps a i ws
resolved_before j ps a i [] lt = refl
resolved_before j ps a i (w ∷ ws) lt =
    let rest = resolved_before j ps a (suc i) ws (omega arith) in
    let same : elem i (j ∷ ps) ≡ elem i ps = ground arith in
    λ k. (if same k then w + a else w) ∷ rest k

resolved-set :
    (ps : List ℕ) (a i j q w : ℕ) (ws : List ℕ)
    → j ≡ i + q
    → get_elem? ws q ≡ some w
    → elem j ps ≡ false
    → resolved ps a i (set ws q (w + a)) ≡ resolved (j ∷ ps) a i ws
resolved-set ps a i j q w [] e at out = cc
resolved-set ps a i j zero w (x ∷ ws) e at out =
    let rest = resolved_before j ps a (suc i) ws (omega arith) in
    let here : elem i ps ≡ false = ap (λ n. elem n ps) {x = i} {y = j} (omega arith) ∙ out in
    let there : (i == j) ≡ true = (==_iff i j).1 (omega arith) in
    let same : x ≡ w = some_inj at in rw here (rw there (rw (same, sym rest)))
resolved-set ps a i j (suc q) w (x ∷ ws) e at out =
    let rest = resolved-set ps a (suc i) j q w ws (omega arith) at out in
    let same : elem i ps ≡ elem i (j ∷ ps) = ground arith in
    λ k. (if same k then x + a else x) ∷ rest k

pub take-resolved :
    (n : ℕ) (ps : List ℕ) (a i : ℕ) (ws : List ℕ)
    → take n (resolved ps a i ws) ≡ resolved ps a i (take n ws)
take-resolved zero ps a i ws = refl
take-resolved (suc n) ps a i [] = refl
take-resolved (suc n) ps a i (w ∷ ws) =
    ap (λ t. (if elem i ps then w + a else w) ∷ t) (take-resolved n ps a (suc i) ws)

pub length-resolved :
    (ps : List ℕ) (a i : ℕ) (ws : List ℕ) → length (resolved ps a i ws) ≡ length ws
length-resolved ps a i [] = refl
length-resolved ps a i (w ∷ ws) = ap suc (length-resolved ps a (suc i) ws)

pub get_elem?-resolved :
    (ps : List ℕ) (a i j p w : ℕ) (ws : List ℕ)
    → j ≡ i + p
    → get_elem? ws p ≡ some w
    → elem j ps ≡ true
    → get_elem? (resolved ps a i ws) p ≡ some (w + a)
get_elem?-resolved ps a i j p w [] e at has = cc
get_elem?-resolved ps a i j zero w (x ∷ ws) e at has =
    let here : elem i ps ≡ true = ap (λ n. elem n ps) {x = i} {y = j} (omega arith) ∙ has in
    let same : x ≡ w = some_inj at in rw here (ap (λ t. some (t + a)) same)
get_elem?-resolved ps a i j (suc p) w (x ∷ ws) e at has =
    get_elem?-resolved ps a (suc i) j p w ws (omega arith) at has

drop-cons :
    (xs : List ℕ) (i p : ℕ) (ps : List ℕ)
    → drop i xs ≡ p ∷ ps
    → (get_elem? xs i ≡ some p) × (drop (suc i) xs ≡ ps)
drop-cons [] zero p ps d = cc
drop-cons [] (suc i) p ps d = cc
drop-cons (x ∷ xs) zero p ps d = (cc, cc)
drop-cons (x ∷ xs) (suc i) p ps d = drop-cons xs i p ps d

-- The loop of `chimp_code_use_label` fills the address in at each position that waits for it.
pub patch_lem :
    (all : List ℕ) (a i k lo hi : ℕ) (ps ws : List ℕ)
    → drop i all ≡ ps
    → k ≡ length ps
    → hi ≤ length ws
    → Ascends lo hi ps
    → AllOpen ws ps
    → patch all a k i ws ≡ done (resolved ps (a % 2 ^ 24) 0 ws)
unfolding patch
patch_lem all a i zero lo hi [] ws d n b asc opens = ap done (sym (resolved_none (a % 2 ^ 24) 0 ws))
patch_lem all a i (suc k) lo hi [] ws d n b asc opens = absurd (omega arith)
patch_lem all a i zero lo hi (p ∷ ps) ws d n b asc opens = absurd (omega arith)
patch_lem all a i (suc k) lo hi (p ∷ ps) ws d n b (low, asc) ((op, at), opens) =
    let (here, behind) = drop-cons all i p ps d in
    let word = opcode op * 2 ^ 24 in
    let filled = word + a % 2 ^ 24 in
    let bit : bit_or word (a % 2 ^ 24) ≡ filled =
      bit_or_apart 24 (opcode op) (a % 2 ^ 24) (omega arith) in
    let in_block : p < length ws = omega (arith, Ascends-le (suc p) hi ps asc) in
    rw (read_lem all i p here) (
      rw (read_lem ws p word at) (
        rw bit (
          rw (write_lem ws p filled in_block) (
            patch_lem all a (suc i) k (suc p) hi ps (set ws p filled) behind (omega arith)
              (omega (arith, length-set ws p filled)) asc
              (AllOpen-set ws ps p filled (suc p) hi (omega arith) asc opens)
            ∙ ap done (
                resolved-set ps (a % 2 ^ 24) 0 p p word ws (omega arith) at
                  (elem_below p (suc p) hi ps (omega arith) asc))))))
