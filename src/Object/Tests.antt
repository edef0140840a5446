-- ===== src/Object/Tests.antt =====
-- A class 11 below a class 12, which has `+` and `*` but no `/`.
use chimp.Common.{◌+◌, ◌*◌, ◌≡◌, refl, none, some, [], ◌∷◌, arith, ◌==◌, if◌then◌else◌}
use chimp.Common.Runs.{done, fault}
use chimp.Object.{Class, Classes, object_add, object_sub, object_mul, object_div, div_slot}
use chimp.Object.Chain.{Ancestors, first}
use chimp.Object.Dispatch.{operated, divided, operators_lem, object_div_lem}

abbrev bare : Class (Unit {0})
bare = record {
  super = 12;
  cmp = none;
  str = none;
  add = none;
  sub = none;
  mul = none;
  div = none;
  call = none;
  getattr = none;
  getitem = none;
}

abbrev number : Class (Unit {0})
number = record bare {
  super = 0;
  add = some (λ l r s. done (l + r, s));
  mul = some (λ l r s. done (l * r, s));
}

abbrev classes : Classes (Unit {0})
classes = record { class_of = λ r. 11; class = λ c. if c == 11 then bare else number }

chain : Ancestors classes (11 ∷ 12 ∷ []) (classes.class_of 5)
chain = (refl, omega arith, (refl, omega arith, refl))

operators_lem_example :
    (object_add classes 3 5 6 tt
      ≡ operated classes (first classes (λ c. c.add) (11 ∷ 12 ∷ [])) 5 6 tt)
    × (object_sub classes 3 5 6 tt
        ≡ operated classes (first classes (λ c. c.sub) (11 ∷ 12 ∷ [])) 5 6 tt)
    × (object_mul classes 3 5 6 tt
        ≡ operated classes (first classes (λ c. c.mul) (11 ∷ 12 ∷ [])) 5 6 tt)
operators_lem_example = operators_lem classes (11 ∷ 12 ∷ []) 3 5 6 tt chain (omega arith)

object_div_lem_example :
    object_div classes 3 5 6 tt
    ≡ divided classes
        (first classes (λ c. elim c.mul [ some f ↦ some c.div | none ↦ none ]) (11 ∷ 12 ∷ []))
        5
        6
        tt
object_div_lem_example = object_div_lem classes (11 ∷ 12 ∷ []) 3 5 6 tt chain (omega arith)

-- The division above is a call of NULL.
division_faults : divided classes (first classes (div_slot classes 3) (11 ∷ 12 ∷ [])) 5 6 tt ≡ fault
division_faults = refl
