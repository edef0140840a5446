-- ===== src/Object/Dispatch.antt =====
-- Which class carries out an operator, a call or an access.
use chimp.Common.{ℕ, ◌<◌, ◌≡◌, refl, Option, none, some, List, length}
use chimp.Common.Runs.{Run, done, bug, fault, ◌>>=◌}
use chimp.Object.{
  Class, Classes, found, no_slot, out_of_fuel, operate, object_add, object_sub, object_mul,
  object_div, div_slot, access, object_call, object_getattr, object_getitem,
}
use chimp.Object.Chain.{Ancestors, first, walked, walk_lem}

module _ {S : Type 0} (classes : Classes S) where
  abbrev pub Method : Type 0
  Method = ℕ → ℕ → S → Run (ℕ × S)

  -- An operator's outcome: the first method found, or an abort.
  abbrev pub operated : Option Method → ℕ → ℕ → S → Run (Option (ℕ × S))
  operated none left right s = bug
  operated (some f) left right s = f left right s >>= (λ r. done (some r))

  -- A call's or an access's: the first method found, or NULL.
  abbrev pub accessed : Option Method → ℕ → ℕ → S → Run (Option (ℕ × S))
  accessed none self arg s = done (some (0, s))
  accessed (some f) self arg s = f self arg s >>= (λ r. done (some r))

  -- A division's: the `div` of the first class that has `mul`, a call of NULL, or an abort.
  abbrev pub divided : Option (Option Method) → ℕ → ℕ → S → Run (Option (ℕ × S))
  divided none left right s = bug
  divided (some none) left right s = fault
  divided (some (some f)) left right s = f left right s >>= (λ r. done (some r))

  operate_lem :
      (slot : Class S → Option Method) (cs : List ℕ) (fuel left right : ℕ) (s : S)
      → Ancestors classes cs (classes.class_of left)
      → length cs < fuel
      → operate classes fuel slot left right s ≡ operated (first classes slot cs) left right s
  unfolding operate
  operate_lem slot cs fuel left right s a enough =
      rw (operate, walk_lem classes slot cs (classes.class_of left) fuel a enough)
        (at (first classes slot cs))
    where
      at :
          (o : Option Method)
          → (elim (walked classes o) as (λ x. Run (Option (ℕ × S))) [
            | found f ↦ f left right s >>= (λ r. done (some r))
            | no_slot ↦ bug
            | out_of_fuel ↦ done none
          ])
            ≡ operated o left right s
      at none = refl
      at (some f) = refl

  -- The operators `+`, `-` and `*` call the method of the first class that has one, from the class of the
  -- left operand up, with the operands in order, and abort where no class has it. They return where that
  -- method does.
  pub operators_lem :
      (cs : List ℕ) (fuel left right : ℕ) (s : S)
      → Ancestors classes cs (classes.class_of left)
      → length cs < fuel
      → (object_add classes fuel left right s
          ≡ operated (first classes (λ c. c.add) cs) left right s)
        × (object_sub classes fuel left right s
            ≡ operated (first classes (λ c. c.sub) cs) left right s)
        × (object_mul classes fuel left right s
            ≡ operated (first classes (λ c. c.mul) cs) left right s)
  unfolding object_add object_sub object_mul
  operators_lem cs fuel left right s a enough = (
    operate_lem (λ c. c.add) cs fuel left right s a enough,
    operate_lem (λ c. c.sub) cs fuel left right s a enough,
    operate_lem (λ c. c.mul) cs fuel left right s a enough,
  )

  -- The operator `/` goes by `*`: it calls the `div` of the first class that has a `mul`, from the class of
  -- the left operand up, jumps to NULL if that class has no `div`, and aborts where no class has a `mul`,
  -- even if one has a `div`.
  pub object_div_lem :
      (cs : List ℕ) (fuel left right : ℕ) (s : S)
      → Ancestors classes cs (classes.class_of left)
      → length cs < fuel
      → object_div classes fuel left right s
        ≡ divided
            (first classes (λ c. elim c.mul [ some f ↦ some c.div | none ↦ none ]) cs)
            left
            right
            s
  unfolding object_div
  object_div_lem cs fuel left right s a enough =
      rw
        (
          object_div,
          walk_lem classes (div_slot classes fuel) cs (classes.class_of left) fuel a enough,
        )
        (at (first classes (div_slot classes fuel) cs))
    where
      at :
          (o : Option (Option Method))
          → (elim (walked classes o) as (λ x. Run (Option (ℕ × S))) [
            | found (some f) ↦ f left right s >>= (λ r. done (some r))
            | found none ↦ fault
            | no_slot ↦ bug
            | out_of_fuel ↦ done none
          ])
            ≡ divided o left right s
      at none = refl
      at (some none) = refl
      at (some (some f)) = refl

  access_lem :
      (slot : Class S → Option Method) (cs : List ℕ) (fuel self arg : ℕ) (s : S)
      → Ancestors classes cs (classes.class_of self)
      → length cs < fuel
      → access classes fuel slot self arg s ≡ accessed (first classes slot cs) self arg s
  unfolding access
  access_lem slot cs fuel self arg s a enough =
      rw (access, walk_lem classes slot cs (classes.class_of self) fuel a enough)
        (at (first classes slot cs))
    where
      at :
          (o : Option Method)
          → (elim (walked classes o) as (λ x. Run (Option (ℕ × S))) [
            | found f ↦ f self arg s >>= (λ r. done (some r))
            | no_slot ↦ done (some (0, s))
            | out_of_fuel ↦ done none
          ])
            ≡ accessed o self arg s
      at none = refl
      at (some f) = refl

  -- A call, an attribute and an item are those of the first class that has the method, from the object's
  -- class up, and NULL where no class has it.
  pub accesses_lem :
      (cs : List ℕ) (fuel self arg : ℕ) (s : S)
      → Ancestors classes cs (classes.class_of self)
      → length cs < fuel
      → (object_call classes fuel self arg s ≡ accessed (first classes (λ c. c.call) cs) self arg s)
        × (object_getattr classes fuel self arg s
            ≡ accessed (first classes (λ c. c.getattr) cs) self arg s)
        × (object_getitem classes fuel self arg s
            ≡ accessed (first classes (λ c. c.getitem) cs) self arg s)
  unfolding object_call object_getattr object_getitem
  accesses_lem cs fuel self arg s a enough = (
    access_lem (λ c. c.call) cs fuel self arg s a enough,
    access_lem (λ c. c.getattr) cs fuel self arg s a enough,
    access_lem (λ c. c.getitem) cs fuel self arg s a enough,
  )
