-- ===== src/Tests/Leds.antt =====
-- Runs of the LED driver on a bus that fails now and then.
use ugreen_frontpanel.Base.{
  ltb, inr, get_elem?, ◌≢◌, ℕ, ◌-◌, ◌^◌, ◌≤◌, ◌<◌, ◌≡◌, ◌⊎◌, inl, refl, arith, true, false, List,
  [], ◌∷◌, Option, none, some, ◌==◌, if◌then◌else◌, pos, negsuc, codes, strcmp_eq, ok, err, ebusy,
  get_or, set, length, replicate,
}
use ugreen_frontpanel.Leds.Bus.{Smbus}
use ugreen_frontpanel.Leds.Frame.{request, is_intact}
use ugreen_frontpanel.Leds.Frame.Laws.{AreBytes, request-is_intact, is_intact-set}
use ugreen_frontpanel.Leds.Wire.{i2c_idx601x_write_led}
use ugreen_frontpanel.Leds.Wire.Laws.{i2c_idx601x_write_led_retries, i2c_idx601x_write_led_gives_up}
use ugreen_frontpanel.Leds.Device.{LedStatus, Blink}
use ugreen_frontpanel.Leds.Device.Coalesce.{set_each, run_scheduled, run_scheduled-set_each}
use ugreen_frontpanel.Leds.Boards.{led_count, led_names, is_supported, leds_ugreen_probe, running}
use ugreen_frontpanel.Leds.Boards.Laws.{led_count-led_names, leds_ugreen_probe-running}
use ugreen_frontpanel.Leds.Scan.{Adapter, scan}
use ugreen_frontpanel.Leds.Scan.Laws.{Finds, scan-Finds}
use ugreen_frontpanel.Tests.Sio.{decimal}

-- The writes and the reads of the flag that are still to fail, and the blocks that were written.
pub record Line : Type 0 where
  pub failures : ℕ
  pub waits : ℕ
  pub blocks : List (ℕ × List ℕ)

abbrev pub line : Smbus
line = record {
  World = Line;
  write_block_data = λ command values w.
      if w.failures == 0
      then (pos 0, record w { blocks = (command, values) ∷ w.blocks })
      else (negsuc 5, record w { failures = w.failures - 1 });
  read_byte_data =
      λ command w. if w.waits == 0 then (pos 1, w) else (pos 0, record w { waits = w.waits - 1 });
  read_i2c_block_data = λ command n w. (pos 11, replicate 11 0, w);
  msleep = λ ms w. w;
}

abbrev pub with_faults : ℕ → ℕ → Line
with_faults n m = record { failures = n; waits = m; blocks = [] }

request-is_intact_example :
    (length (request 4 (1 ∷ 244 ∷ 0 ∷ 250 ∷ [])) ≡ 11)
    × AreBytes (request 4 (1 ∷ 244 ∷ 0 ∷ 250 ∷ []))
    × (is_intact (request 4 (1 ∷ 244 ∷ 0 ∷ 250 ∷ [])) ≡ true)
request-is_intact_example = request-is_intact 4 1 244 0 250 (omega arith)

abbrev answer : List ℕ
answer = 1 ∷ 200 ∷ 100 ∷ 0 ∷ 0 ∷ 0 ∷ 0 ∷ 0 ∷ 0 ∷ 1 ∷ 45 ∷ []

is_intact-set_example : is_intact (set answer 1 201) ≡ false
unfolding is_intact
is_intact-set_example =
    is_intact-set 1 201 answer refl (omega arith) (omega arith) (omega arith) (omega arith) refl

i2c_idx601x_write_led_retries_example :
    i2c_idx601x_write_led line 2 1 (255 ∷ 0 ∷ 0 ∷ 0 ∷ []) (with_faults 2 1) ≡ (
      ok 1,
      record { failures = 0; waits = 0; blocks = (2, request 1 (255 ∷ 0 ∷ 0 ∷ 0 ∷ [])) ∷ [] },
    )
i2c_idx601x_write_led_retries_example =
    i2c_idx601x_write_led_retries line 2 1 2 1 (255 ∷ 0 ∷ 0 ∷ 0 ∷ []) (with_faults 2 1)
      (omega arith) (omega arith) (refl, (refl, tt)) refl (refl, tt) refl

i2c_idx601x_write_led_gives_up_example :
    ((i2c_idx601x_write_led line 2 1 (255 ∷ 0 ∷ 0 ∷ 0 ∷ []) (with_faults 5 0)).0 ≡ err ebusy)
    × (((i2c_idx601x_write_led line 2 1 (255 ∷ 0 ∷ 0 ∷ 0 ∷ []) (with_faults 5 0)).1
          ≡ with_faults 2 0)
        ⊎ ((i2c_idx601x_write_led line 2 1 (255 ∷ 0 ∷ 0 ∷ 0 ∷ []) (with_faults 5 0)).1
            ≡ with_faults 4 0))
i2c_idx601x_write_led_gives_up_example =
    i2c_idx601x_write_led_gives_up line 0 2 1 (255 ∷ 0 ∷ 0 ∷ 0 ∷ []) (with_faults 5 0)
      (inl (refl, (refl, (refl, tt))))

abbrev pub status : ℕ → LedStatus
status i = record {
  led_addr = i;
  mode = 0;
  status_data = 0;
  light = 128;
  red = 0;
  green = 0;
  blue = 0;
  work = false;
}

abbrev pub two_leds : List LedStatus
two_leds = status 0 ∷ status 1 ∷ []

abbrev blink : ℕ → ℕ → Blink
blink on off = record { leds = two_leds; delay_on = on; delay_off = off; brightness = 0 }

-- Three brightnesses, the first and the last for the second LED.
abbrev brightnesses : List (ℕ × ℕ)
brightnesses = (1, 200) ∷ (0, 7) ∷ (1, 1) ∷ []

run_scheduled-set_each_example :
    let leds = set_each brightnesses two_leds in
    let (after, w) = run_scheduled line 1 leds (with_faults 0 0) in
    (get_elem? after 1 ≡ some (record (status 1) { light = 255; work = false }))
    × (w ≡ (i2c_idx601x_write_led line 1 1 (255 ∷ 0 ∷ 0 ∷ 0 ∷ []) (with_faults 0 0)).1)
    × (run_scheduled line 1 after w ≡ (after, w))
    × ((j : ℕ) → 1 ≢ j → get_elem? after j ≡ get_elem? leds j)
run_scheduled-set_each_example =
    run_scheduled-set_each line brightnesses 1 (status 1) two_leds (with_faults 0 0) refl refl
      (omega arith, (omega arith, (omega arith, tt)))

decimal_bound : (text : List ℕ) (n : ℕ) → decimal text ≡ some n → n < 2 ^ 64
decimal_bound text n h = ground arith

led_count-led_names_example :
    (led_count (codes "iDX6011 Pro") 0 ≡ length (led_names (codes "iDX6011 Pro")))
    × (4 ≤ length (led_names (codes "iDX6011 Pro")))
    × (length (led_names (codes "iDX6011 Pro")) ≤ 9)
unfolding is_supported strcmp_eq
led_count-led_names_example = led_count-led_names (codes "iDX6011 Pro") 0 refl

-- The kernel refuses the third device.
leds_ugreen_probe-running_example :
    leds_ugreen_probe (codes "DXP4800 GT") 3 true true true (λ i. ltb i 2)
    ≡ running (
        record { name = some (codes "power"); led_addr = 0 }
        ∷ record { name = some (codes "network_stat"); led_addr = 1 }
        ∷ [])
unfolding is_supported led_names strcmp_eq
leds_ugreen_probe-running_example =
    leds_ugreen_probe-running (codes "DXP4800 GT") 3 2 (λ i. ltb i 2) refl (λ j h. ground arith)
      (inr refl) (omega arith)

-- A gap, an adapter of another kind, one whose chip does not answer, and one that does.
abbrev adapters : ℕ → Option Adapter
adapters i =
    get_or
      (none
        ∷ some record { name = codes "i915 gmbus dpa"; client = true; detects = true }
        ∷ some record { name = codes "SMBus I801"; client = true; detects = false }
        ∷ some record { name = codes "Synopsys DesignWare"; client = true; detects = true }
        ∷ [])
      i none

scan-Finds_example : Finds 0 99 adapters (scan adapters)
scan-Finds_example = scan-Finds adapters
