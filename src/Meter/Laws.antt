-- ===== src/Meter/Laws.antt =====
-- What gas meters read after transactions (workspaces/src/types/gas_meter.rs).
use near_workspaces_rs.Prelude.{
  ℕ, zero, suc, ◌+◌, ◌*◌, ◌%◌, ◌<◌, ◌≡◌, refl, false, Option, none, some, List, [], ◌∷◌, map,
  Bool-cases, inl, inr, ◌∙◌, arith, ◌==◌, nat_eq, if◌then◌else◌,
}
use near_workspaces_rs.Result.{ok, pure, ◌>>=◌, ◌>>◌}
use near_workspaces_rs.Primitives.{u64_mod}
use near_workspaces_rs.Meter.{Cell, Meters, cell_at, set_cell, add_gas, meter_hook, run_callbacks}

-- How often a meter is among the hooks of a worker.
abbrev pub times : ℕ → List ℕ → ℕ
times j [] = 0
times j (i ∷ is) = (if i == j then 1 else 0) + times j is

-- No mutex is poisoned, and every cell holds a 64-bit word.
abbrev pub Sound : Meters → Type 0
Sound [] = Unit {0}
Sound (none ∷ cs) = Sound cs
Sound (some c ∷ cs) = (c.poisoned ≡ false) × (c.gas < u64_mod) × Sound cs

abbrev pub charge : ℕ → Option Cell → Option Cell
charge gas none = none
charge gas (some c) = some (record c { gas = (c.gas + gas) % u64_mod })

pub Sound-cell :
    (i : ℕ) (m : Meters) (c : Cell)
    → Sound m
    → cell_at i m ≡ some c
    → (c.poisoned ≡ false) × (c.gas < u64_mod)
Sound-cell i [] c s e = cc
Sound-cell zero (none ∷ cs) c s e = cc
Sound-cell zero (some d ∷ cs) c s e = ground arith
Sound-cell (suc i) (none ∷ cs) c s e = Sound-cell i cs c s e
Sound-cell (suc i) (some d ∷ cs) c s e = Sound-cell i cs c s.2 e

cell_at-set_cell :
    (i j : ℕ) (c : Cell) (new : Option Cell) (m : Meters)
    → cell_at i m ≡ some c
    → cell_at j (set_cell i new m) ≡ (if i == j then new else cell_at j m)
cell_at-set_cell i j c new [] e = cc
cell_at-set_cell zero zero c new (d ∷ cs) e = refl
cell_at-set_cell zero (suc j) c new (d ∷ cs) e = ground arith
cell_at-set_cell (suc i) zero c new (d ∷ cs) e = ground arith
cell_at-set_cell (suc i) (suc j) c new (d ∷ cs) e = ground (arith, cell_at-set_cell i j c new cs)

set_cell-Sound :
    (i : ℕ) (c : Cell) (m : Meters)
    → c.poisoned ≡ false
    → c.gas < u64_mod
    → Sound m
    → Sound (set_cell i (some c) m)
set_cell-Sound i c [] p q s = tt
set_cell-Sound zero c (none ∷ cs) p q s = (p, q, s)
set_cell-Sound zero c (some d ∷ cs) p q s = (p, q, s.2)
set_cell-Sound (suc i) c (none ∷ cs) p q s = set_cell-Sound i c cs p q s
set_cell-Sound (suc i) c (some d ∷ cs) p q s = (s.0, s.1, set_cell-Sound i c cs p q s.2)

-- One hook of a meter, alive or dropped.
meter_hook_lem :
    (i j gas : ℕ) (m : Meters)
    → Sound m
    → ((meter_hook i gas m).0 ≡ ok tt)
      × Sound (meter_hook i gas m).1
      × (cell_at j (meter_hook i gas m).1
          ≡ (if i == j then charge gas (cell_at j m) else cell_at j m))
unfolding meter_hook add_gas
meter_hook_lem i j gas m s = from (cell_at i m) refl
  where
    from :
        (o : Option Cell)
        → cell_at i m ≡ o
        → ((add_gas i gas o m).0 ≡ ok tt)
          × Sound (add_gas i gas o m).1
          × (cell_at j (add_gas i gas o m).1
              ≡ (if i == j then charge gas (cell_at j m) else cell_at j m))
    from none e = (refl, s, ground arith)
    from (some c) e =
        let fine : (c.poisoned ≡ false) × (c.gas < u64_mod) = Sound-cell i m c s e in
        (
          ground (arith, fine),
          ground (
            arith,
            fine,
            set_cell-Sound i (record c { gas = (c.gas + gas) % u64_mod }) m fine.0 (omega arith) s,
          ),
          ground (
            arith,
            fine,
            cell_at-set_cell i j c (some (record c { gas = (c.gas + gas) % u64_mod })) m e,
          ),
        )

-- All hooks of a worker whose hooks are meters' report the gas, each to its meter: a cell gains the
-- gas as often as its meter is among the hooks, modulo 2^64, and no callback fails.
pub run_meters :
    (is : List ℕ) (j gas : ℕ) (m : Meters) (c : Cell)
    → Sound m
    → cell_at j m ≡ some c
    → ((run_callbacks (map meter_hook is) gas m).0 ≡ ok tt)
      × Sound (run_callbacks (map meter_hook is) gas m).1
      × (cell_at j (run_callbacks (map meter_hook is) gas m).1
          ≡ some (record c { gas = (c.gas + times j is * gas) % u64_mod }))
unfolding run_callbacks pure ◌>>=◌ ◌>>◌
run_meters [] j gas m c s e = (refl, s, ground (arith, e, Sound-cell j m c s e))
run_meters (i ∷ is) j gas m c s e =
    let one : ((meter_hook i gas m).0 ≡ ok tt)
        × Sound (meter_hook i gas m).1
        × (cell_at j (meter_hook i gas m).1
            ≡ (if i == j then charge gas (cell_at j m) else cell_at j m)) =
      meter_hook_lem i j gas m s in
    elim (Bool-cases (i == j)) [
      | inl same ↦
          let rest : _ =
            run_meters is j gas (meter_hook i gas m).1 (record c { gas = (c.gas + gas) % u64_mod })
              one.1 (one.2 ∙ rw (same, e)) in
          (
            ground (arith, one.0, rest.0),
            ground (arith, one.0, rest.1),
            ground (arith, one.0, same, rest.2),
          )
      | inr differs ↦
          let rest : _ =
            run_meters is j gas (meter_hook i gas m).1 c one.1 (one.2 ∙ rw (differs, e)) in
          (
            ground (arith, one.0, rest.0),
            ground (arith, one.0, rest.1),
            ground (arith, one.0, differs, rest.2),
          )
    ]
