-- ===== src/Meter/Totals.antt =====
-- A gas meter that is taken when others are in the store (workspaces/src/types/gas_meter.rs).
use near_workspaces_rs.Prelude.{
  ℕ, ◌<◌, ◌≡◌, refl, false, Option, none, some, List, [], ◌∷◌, ◌++◌, length, arith,
}
use near_workspaces_rs.Primitives.{u64_mod}
use near_workspaces_rs.Meter.{Cell, Meters, cell_at}
use near_workspaces_rs.Meter.Laws.{times, Sound}

-- Every hook of the worker belongs to a meter that is in the store.
abbrev pub AllBelow : ℕ → List ℕ → Type 0
AllBelow n [] = Unit {0}
AllBelow n (i ∷ is) = (i < n) × AllBelow n is

pub times_fresh : (n : ℕ) (is : List ℕ) → AllBelow n is → times n (is ++ n ∷ []) ≡ 1
times_fresh n [] b = ground arith
times_fresh n (i ∷ is) b = ground (arith, times_fresh n is)

pub cell_at-append : (m : Meters) (o : Option Cell) → cell_at (length m) (m ++ o ∷ []) ≡ o
cell_at-append [] o = refl
cell_at-append (d ∷ m) o = cell_at-append m o

pub Sound-append :
    (m : Meters) (c : Cell)
    → Sound m
    → c.poisoned ≡ false
    → c.gas < u64_mod
    → Sound (m ++ some c ∷ [])
Sound-append [] c s p q = (p, q, tt)
Sound-append (none ∷ m) c s p q = Sound-append m c s p q
Sound-append (some d ∷ m) c s p q = (s.0, s.1, Sound-append m c s.2 p q)

abbrev pub fresh : Cell
fresh = record { gas = 0; poisoned = false }
