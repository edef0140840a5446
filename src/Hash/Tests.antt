-- ===== src/Hash/Tests.antt =====
-- Runs of the hash's functions at a concrete hash.
use chimp.Common.{ℕ, ◌≡◌, refl, true, [], ◌∷◌, arith}
use chimp.Common.Runs.{done}
use chimp.Samples.{granting, compare}
use chimp.Table.{Looked, value, look}
use chimp.Table.Laws.{Apart}
use chimp.Hash.{Hash, put, get}
use chimp.Hash.Refine.{
  IsValid, entries, PutResult, get-look, put-update, get-put_self, get-put_other,
}

abbrev ages : Hash ℕ ℕ
ages = record { keys = 1 ∷ 2 ∷ []; values = 30 ∷ 40 ∷ []; size = 2 }

ages-IsValid : IsValid ages
ages-IsValid = record { keys_fit = omega arith; values_fit = omega arith }

abbrev longer : Hash ℕ ℕ
longer = record { keys = 1 ∷ 2 ∷ 3 ∷ []; values = 30 ∷ 40 ∷ 50 ∷ []; size = 3 }

put_three : put compare (granting 0) (granting 0) ages 3 50 ≡ done (true, longer)
unfolding put chimp.Table.scan chimp.Memory.read chimp.Memory.realloc chimp.Memory.write
put_three = refl

three-Apart : Apart {V = ℕ} compare 3 50 1
three-Apart = record {
  passed = (λ e. cc, λ e. cc);
  apart = λ k e. (λ f. ground arith, λ f. ground arith);
}

get-look_example : get compare ages 2 ≡ done (look compare 2 (entries ages))
get-look_example = get-look compare 0 ages 2 ages-IsValid

put-update_example :
    PutResult compare
      (granting 0)
      (granting 0)
      ages
      3
      50
      (put compare (granting 0) (granting 0) ages 3 50)
put-update_example = put-update compare (granting 0) (granting 0) ages 3 50 ages-IsValid

get-put_self_example : get compare longer 3 ≡ done (value 50)
get-put_self_example =
    get-put_self compare (granting 0) (granting 0) 0 ages longer 3 50 ages-IsValid refl put_three

get-put_other_example : get compare longer 1 ≡ get compare ages 1
get-put_other_example =
    get-put_other compare (granting 0) (granting 0) 0 ages longer 3 50 1 ages-IsValid three-Apart
      put_three
