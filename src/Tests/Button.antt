-- ===== src/Tests/Button.antt =====
-- Runs of the button handler.
use ugreen_frontpanel.Base.{
  ℕ, ◌/◌, ◌%◌, ◌^◌, ◌≡◌, ◌≢◌, refl, arith, ◌==◌, ◌||◌, if◌then◌else◌, true, false, [], ◌∷◌, some,
  codes, strcmp_eq, strncmp_eq,
}
use ugreen_frontpanel.Button.Monitor.{Button, pin, key_f20, monitor_all}
use ugreen_frontpanel.Button.Device.{Registers, as_input, hwinit}
use ugreen_frontpanel.Button.Device.Laws.{mapped, hwinit-pins}
use ugreen_frontpanel.Button.Cycle.{press_cycle}
use ugreen_frontpanel.Button.Reports.{IsValid, FollowsPress, monitor_all-FollowsPress}
use ugreen_frontpanel.Button.Table.{power_button, reset_button, board_buttons}

-- A power button whose pin reads 1 while it is down.
abbrev power : Button
power = record (power_button 0xfd6a0980 1 1 0) { base = true }

-- A press of three ticks: it is reported, and its release is not.
press_cycle_example :
    let (c, out) = monitor_all false (2 ∷ 2 ∷ 2 ∷ 0 ∷ []) power in
    (c.seen ≡ 0) × (out ≡ record { key = key_f20; value = 1 } ∷ [])
press_cycle_example =
    press_cycle false 2 (2 ∷ 2 ∷ []) 0 power refl refl (refl, (refl, (refl, tt))) (omega arith)

abbrev power-IsValid : IsValid false power
power-IsValid = record { seen_bound = omega arith; was_told = λ p. absurd (omega arith) }

monitor_all-FollowsPress_example :
    let (c, out) = monitor_all false (0 ∷ 2 ∷ 0 ∷ 2 ∷ []) power in
    IsValid false c × FollowsPress 0 out
monitor_all-FollowsPress_example =
    monitor_all-FollowsPress false (0 ∷ 2 ∷ 0 ∷ 2 ∷ []) power power-IsValid

gt_buttons :
    board_buttons (codes "DXP2800 GT")
    ≡ some (power_button 0xfed81510 16 0 1, reset_button 0xfed8150c 16)
unfolding board_buttons strcmp_eq strncmp_eq
gt_buttons = refl

-- The buttons of the DXP2800 GT; their registers read as all ones.
abbrev gt_power : Button
gt_power = power_button 0xfed81510 16 0 1

abbrev gt_reset : Button
gt_reset = reset_button 0xfed8150c 16

apart : gt_power.phyaddr ≢ gt_reset.phyaddr
apart e = absurd (omega arith)

hwinit-pins_example :
    (m' : Registers) × (hwinit
        (λ a. true)
        (codes "DXP2800 GT")
        (gt_power ∷ gt_reset ∷ [])
        (λ a. 0xffffffff)
      ≡ some (mapped gt_power ∷ mapped gt_reset ∷ [], m'))
    × (m' 0xfed81510 / 2 ^ 23 % 2 ≡ 0)
    × (m' 0xfed8150c / 2 ^ 23 % 2 ≡ 0)
    × (pin gt_power (m' 0xfed81510) ≡ 1)
    × (pin gt_reset (m' 0xfed8150c) ≡ 1)
    × ((a : ℕ)
        → m' a ≡ (if a == 0xfed81510 || a == 0xfed8150c then as_input 0xffffffff else 0xffffffff))
hwinit-pins_example =
    hwinit-pins (λ a. true) gt_power gt_reset (λ a. 0xffffffff) refl refl refl refl apart
