-- ===== src/Array/Tests.antt =====
-- Runs of the array's functions at concrete arrays.
use chimp.Common.{
  ap, sym, ℕ, Option, zero, suc, ◌*◌, ◌≤◌, ◌≡◌, ◌^◌, refl, true, false, none, some, [], ◌∷◌, ◌++◌,
  arith, ◌==◌, ◌⊎◌, replicate, get_elem?,
}
use chimp.Common.Int.{negsuc}
use chimp.Common.Runs.{Run, done, bug, fault, ◌>>=◌}
use chimp.Compare.{cmp_error, eq}
use chimp.Samples.{granting, compare}
use chimp.Array.{Array, push, insert}
use chimp.Array.Valid.{IsValid, contents, IsStuck, IsRefused}
use chimp.Array.Ends.{Holds, push_lem, push_stuck}
use chimp.Array.Take.{erase_at}
use chimp.Array.Index.{insert_before, insert_position, insert_lem}
use chimp.Array.Methods.{each, Callback, map, filter, remove, remove_position, remove_at}
use chimp.Array.Methods.Walk.{map_list, filter_list}
use chimp.Array.Methods.Live.{LeavesArray, seen_live, ended, map_lem, filter_lem}
use chimp.Array.Granted.{Serves}
use chimp.Array.Methods.Search.{FirstAt, AllPass, remove_lem}
use chimp.Array.Methods.Remove.{Means, IsOutside, remove_at_lem}

-- Three items in a block of three: the next append grows it.
abbrev full : Array ℕ
full = record { items = 4 ∷ 7 ∷ 9 ∷ []; size = 3; capacity = 3 }

full-IsValid : IsValid full
full-IsValid = record { fits = omega arith; allocated = refl }

full-IsFree : ¬ (IsStuck full)
full-IsFree (a, b) = absurd (omega arith)

full-IsSmall : full.size ≤ 2 ^ 31
full-IsSmall = omega arith

-- One item in a block of one, as the arguments of a call with one argument are.
abbrev single : Array ℕ
single = record { items = 5 ∷ []; size = 1; capacity = 1 }

single-IsValid : IsValid single
single-IsValid = record { fits = omega arith; allocated = refl }

granting-Serves : Serves (granting {A = ℕ} 0)
granting-Serves n = (replicate n 0, refl)

-- A function that doubles its argument and counts its calls, and returns NULL at 0. The state is the array
-- that is walked and the count.
abbrev double : Callback ℕ (Array ℕ × ℕ)
double (zero ∷ xs) (arr, n) = done (none, (arr, suc n))
double (suc x ∷ xs) (arr, n) = done (some (suc x * 2), (arr, suc n))
double [] s = bug

abbrev walked : Array ℕ × ℕ → Array ℕ
walked (arr, n) = arr

double-Leaves : LeavesArray (granting 0) granting-Serves 0 walked double
double-Leaves (zero ∷ xs) (arr, n) s' o e = let q : (arr, suc n) ≡ s' = cc e in ap walked (sym q)
double-Leaves (suc x ∷ xs) (arr, n) s' o e = let q : (arr, suc n) ≡ s' = cc e in ap walked (sym q)
double-Leaves [] s s' o e = absurd (cc e)

-- A function that empties the array that is walked: no second round comes.
abbrev clear : Callback ℕ (Array ℕ × ℕ)
clear args (arr, n) = done (some n, (record arr { size = 0 }, suc n))

calls_of : Run (Option (Option ℕ × (Array ℕ × ℕ))) → ℕ
calls_of (done (some (r, (arr, n)))) = n
calls_of _ = 100

push_lem_example :
    ((arr' : Array ℕ) × (push (granting 0) full 11 ≡ done arr')
      × Holds (contents full ++ 11 ∷ []) arr')
    ⊎ ((push (granting 0) full 11 ≡ bug) × IsRefused (granting 0) full)
push_lem_example = push_lem (granting 0) full 11 full-IsValid full-IsFree

push_stuck_example : push (granting 0) single 6 ≡ fault
push_stuck_example = push_stuck (granting 0) single 6 (0 ∷ []) single-IsValid (refl, refl) refl

insert_lem_example :
    ((i : ℕ) × (arr' : Array ℕ) × (insert_position full.size (negsuc 0) ≡ some i)
      × (insert (granting 0) full (negsuc 0) 11 ≡ done arr')
      × Holds (insert_before i 11 (contents full)) arr')
    ⊎ ((insert (granting 0) full (negsuc 0) 11 ≡ bug)
        × ((insert_position full.size (negsuc 0) ≡ none) ⊎ IsRefused (granting 0) full))
insert_lem_example = insert_lem (granting 0) full (negsuc 0) 11 full-IsValid full-IsFree

remove_lem_example :
    ((i : ℕ) × (arr' : Array ℕ) × FirstAt compare 7 eq (contents full) i
      × (remove 0 compare full 7 ≡ done (some true, arr'))
      × Holds (erase_at i (contents full)) arr')
    ⊎ (((remove 0 compare full 7 ≡ done (none, full))
          × ((i : ℕ) × FirstAt compare 7 cmp_error (contents full) i))
        ⊎ ((remove 0 compare full 7 ≡ done (some false, full)) × AllPass compare 7 (contents full)))
remove_lem_example = remove_lem 0 compare 7 full full-IsValid full-IsSmall

remove_at_lem_example :
    ((i : ℕ) × (x : ℕ) × (arr' : Array ℕ) × Means (negsuc 0) full.size i
      × (get_elem? (contents full) i ≡ some x)
      × (remove_at 0 full (negsuc 0) ≡ done (x, arr'))
      × Holds (erase_at i (contents full)) arr')
    ⊎ (IsOutside (negsuc 0) full.size × (remove_at 0 full (negsuc 0) ≡ bug))
remove_at_lem_example = remove_at_lem 0 full (negsuc 0) full-IsValid full-IsSmall

cleared : calls_of (each (granting 0) 0 walked clear 4 (full, 0)) ≡ 1
unfolding calls_of each chimp.Array.Methods.new_var push chimp.Array.new chimp.Array.grow
    chimp.Array.item chimp.Array.get chimp.Array.real_index chimp.Memory.read chimp.Memory.write
cleared = refl

map_lem_example :
    (map (granting 0) 0 walked double 4 (full, 0) >>= seen_live)
    ≡ (map_list double (contents full) (full, 0) >>= ended)
map_lem_example =
    map_lem (granting 0) granting-Serves 0 walked double double-Leaves (full, 0) full-IsValid
      full-IsSmall 4 (omega arith)

filter_lem_example :
    (filter (granting 0) 0 walked double (λ y. y == 14) 4 (full, 0) >>= seen_live)
    ≡ (filter_list double (λ y. y == 14) (contents full) (full, 0) >>= ended)
filter_lem_example =
    filter_lem (granting 0) granting-Serves 0 walked double double-Leaves (full, 0) full-IsValid
      full-IsSmall 4 (omega arith) (λ y. y == 14)
