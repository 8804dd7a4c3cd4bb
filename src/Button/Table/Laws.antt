-- ===== src/Button/Table/Laws.antt =====
-- Every board's buttons begin at rest.
use ugreen_frontpanel.Base.{
  ℕ, ◌<◌, ◌≤◌, ◌≡◌, ◌≢◌, refl, subst, Bool, true, false, List, [], ◌∷◌, some-injective, some, arith,
}
use ugreen_frontpanel.Button.Monitor.{Key, key_f20, key_f24, Button}
use ugreen_frontpanel.Button.Cycle.{press_tick, All}
use ugreen_frontpanel.Button.Reports.{IsValid}
use ugreen_frontpanel.Button.Table.{power_button, reset_button, first_match, boards, board_buttons}

-- A button that has not been pressed, with nothing told, and whose pin last read as up.
pub record IsAtRest (gt : Bool) (b : Button) : Type 0 where
  pub valid : IsValid gt b
  pub fresh : b.seen ≡ 0
  pub silent : b.last_report ≡ 0
  pub pin_range : b.active < 2
  pub is_up : b.prestate ≢ b.active

-- What holds of every row of a chain holds of the one that is chosen.
first_match-All :
    {A : Type 0} (P : A → Type 0) (rows : List (Bool × A)) {a : A}
    → All (λ row. P row.1) rows
    → first_match rows ≡ some a
    → P a
first_match-All P [] h e = cc
first_match-All P ((true, x) ∷ rest) h e = subst P (some-injective _ _ e) h.0
first_match-All P ((false, x) ∷ rest) h e = first_match-All P rest h.1 e

abbrev Begins : Bool → Button × Button → Type 0
Begins gt (power, reset) =
    IsAtRest gt power × IsAtRest gt reset × (power.code ≡ key_f20) × (reset.code ≡ key_f24)

late : (gt : Bool) (k : Key) → press_tick gt k ≤ 0 → ⊥
late true key_f20 h = omega arith
late false key_f20 h = omega arith
late gt key_f24 h = omega arith

power-IsAtRest :
    (gt : Bool) (phyaddr shift active prestate : ℕ)
    → active < 2
    → prestate ≢ active
    → IsAtRest gt (power_button phyaddr shift active prestate)
power-IsAtRest gt phyaddr shift active prestate range up = record {
  valid = record { seen_bound = omega arith; was_told = λ p. absurd (late gt key_f20 p) };
  fresh = refl;
  silent = refl;
  pin_range = range;
  is_up = up;
}

reset-IsAtRest : (gt : Bool) (phyaddr shift : ℕ) → IsAtRest gt (reset_button phyaddr shift)
reset-IsAtRest gt phyaddr shift = record {
  valid = record { seen_bound = omega arith; was_told = λ p. absurd (late gt key_f24 p) };
  fresh = refl;
  silent = refl;
  pin_range = omega arith;
  is_up = omega arith;
}

row-Begins :
    (gt : Bool) (p s a u q t : ℕ)
    → a < 2
    → u ≢ a
    → Begins gt (power_button p s a u, reset_button q t)
row-Begins gt p s a u q t range up =
    (power-IsAtRest gt p s a u range up, reset-IsAtRest gt q t, refl, refl)

-- On every board that is known, whatever kind of power key it has, the first button is the power
-- key and the second the reset key, and both begin at rest in a valid state.
pub board_buttons-IsAtRest :
    (gt : Bool) (product : List ℕ) (power reset : Button)
    → board_buttons product ≡ some (power, reset)
    → IsAtRest gt power × IsAtRest gt reset × (power.code ≡ key_f20) × (reset.code ≡ key_f24)
unfolding board_buttons
board_buttons-IsAtRest gt product power reset h =
    first_match-All (Begins gt) (boards product) rows h
  where
    ordinary : (p q : ℕ) → Begins gt (power_button p 1 1 0, reset_button q 1)
    ordinary p q = row-Begins gt p 1 1 0 q 1 (omega arith) (omega arith)

    last_two :
        Begins gt (power_button 0xfed81526 0 1 0, reset_button 0xfed81522 0)
        × (Begins gt (power_button 0xfed81510 16 0 1, reset_button 0xfed8150c 16) × Unit {0})
    last_two = (
      row-Begins gt _ 0 1 0 _ 0 (omega arith) (omega arith),
      (row-Begins gt _ 16 0 1 _ 16 (omega arith) (omega arith), tt),
    )

    rows : All (λ row. Begins gt row.1) (boards product)
    rows = (
      ordinary _ _,
      (
        ordinary _ _,
        (ordinary _ _, (ordinary _ _, (ordinary _ _, (ordinary _ _, (ordinary _ _, last_two))))),
      ),
    )
