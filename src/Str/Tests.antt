-- ===== src/Str/Tests.antt =====
-- Strings of a few bytes.
use chimp.Common.{
  replicate, ℕ, ◌+◌, ◌≡◌, refl, true, false, none, some, [], ◌∷◌, ◌++◌, ◌⊎◌, arith, ◌==◌, Bool,
}
use chimp.Common.Runs.{done}
use chimp.Array.{Array}
use chimp.Samples.{granting}
use chimp.Str.{spent, Str, append, trim, upper, index, split, pieces}
use chimp.Str.Append.{IsValid, chars, append_lem}
use chimp.Str.Split.{split_endless}

abbrev no_str : Str
no_str = record { bytes = 0 ∷ []; size = 0 }

-- "ab" and " c "
abbrev ab : Str
ab = record { bytes = 97 ∷ 98 ∷ 0 ∷ []; size = 2 }

abbrev spaced : Str
spaced = record { bytes = 32 ∷ 99 ∷ 32 ∷ 0 ∷ []; size = 3 }

abbrev is_space : ℕ → Bool
is_space c = c == 32

trimmed : trim (granting 7) is_space spaced ≡ done (some (record { bytes = 99 ∷ 0 ∷ []; size = 1 }))
unfolding trim chimp.Memory.read chimp.Memory.memcpy chimp.Memory.write
trimmed = refl

-- The trim of an empty string has the terminator as its one character.
trimmed_empty :
    trim (granting 7) is_space no_str ≡ done (some (record { bytes = 0 ∷ 0 ∷ []; size = 1 }))
unfolding trim chimp.Memory.memcpy chimp.Memory.write
trimmed_empty = refl

in_capitals : upper (granting 7) ab ≡ done (record { bytes = 65 ∷ 66 ∷ 0 ∷ []; size = 2 })
unfolding upper chimp.Memory.read chimp.Memory.memcpy chimp.Memory.write
in_capitals = refl

index_b : index (granting 7) ab (98 ∷ []) ≡ done (some 1)
unfolding index
index_b = refl

split_once :
    split (granting 7) (granting no_str) 3 ab (98 ∷ [])
    ≡ done (
        pieces (record {
          items =
              record { bytes = 97 ∷ 0 ∷ []; size = 1 }
              ∷ no_str
              ∷ no_str
              ∷ no_str
              ∷ no_str
              ∷ no_str
              ∷ no_str
              ∷ no_str
              ∷ no_str
              ∷ no_str
              ∷ [];
          size = 1;
          capacity = 10;
        }))
unfolding split chimp.Array.new chimp.Array.push chimp.Array.grow chimp.Memory.memcpy
    chimp.Memory.write
split_once = refl

append_lem_example :
    ((s : Str) × (append (granting 7) ab spaced ≡ done (true, s))
      × IsValid s
      × (chars s ≡ chars ab ++ chars spaced))
    ⊎ ((append (granting 7) ab spaced ≡ done (false, ab))
        × ((granting {A = ℕ} 7).alloc (ab.size + spaced.size + 1) ≡ none))
append_lem_example =
    append_lem (granting 7) ab spaced (record { fits = omega arith; terminated = refl })
      (record { fits = omega arith; terminated = refl })

split_endless_example : split (granting 7) (granting no_str) 100 ab [] ≡ done spent
split_endless_example =
    split_endless (granting 7) (granting no_str) (λ n. (replicate n 7, refl))
      (λ n. (replicate n no_str, refl)) ab (record { fits = omega arith; terminated = refl })
      (omega arith) 100
