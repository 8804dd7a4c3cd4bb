-- ===== src/Leds/Device/Laws.antt =====
-- What the LED operations put on the wire and into the statuses.
use ugreen_frontpanel.Base.{
  ℕ, ◌+◌, ◌-◌, ◌*◌, ◌%◌, ◌^◌, ◌≤◌, ◌<◌, ◌≡◌, ◌≢◌, ◌↔◌, inl, inr, refl, Bool, true, false, List, [],
  ◌∷◌, Option, none, some, arith, ltb, leb, ◌&&◌, ◌||◌, ◌==◌, if◌then◌else◌, bit_or-shift, codes,
  strcmp_eq, length, get_elem?, get_or, set, get_elem?-none, get_elem?-none_le, Option-cases,
}
use ugreen_frontpanel.Leds.Bus.{Smbus}
use ugreen_frontpanel.Leds.Wire.{i2c_idx601x_write_led}
use ugreen_frontpanel.Leds.Device.{
  LedStatus, Blink, done, fault, u32, u64, pack_delays, split_word, plan, plan_breath, plan_timer2,
  send_plan, to_ret, leds_blink_set, color_set, led_mode_breath, led_mode_blink, led_color_table,
}

-- The two 16-bit numbers in four bytes.
abbrev pub high_half : List ℕ → ℕ
high_half bytes = get_or bytes 0 0 * 256 + get_or bytes 1 0

abbrev pub low_half : List ℕ → ℕ
low_half bytes = get_or bytes 2 0 * 256 + get_or bytes 3 0

shifted : (n : ℕ) → n < 2 ^ 64 → u32 (u64 (u64 n * 65536)) ≡ n % 65536 * 65536
shifted n h = omega arith

split_halves :
    (a low : ℕ)
    → a < 65536
    → low < 65536
    → let bytes = split_word (u32 (a * 65536 + low)) in
      (high_half bytes ≡ a) × (low_half bytes ≡ low)
split_halves a low h k = omega arith

-- For delays whose sum fits an `unsigned long`, and `low` of 16 bits.
pub pack_delays_halves :
    (on off low : ℕ)
    → on + off < 2 ^ 64
    → low < 65536
    → let bytes = split_word (pack_delays on off low) in
      (high_half bytes ≡ (on + off) % 65536) × (low_half bytes ≡ low)
unfolding pack_delays
pack_delays_halves on off low sum_fits low_fits =
    let a = (on + off) % 65536 in
    rw (shifted (on + off) sum_fits, bit_or-shift 16 a low low_fits)
      (split_halves a low (omega arith) low_fits)

-- A delay of a LED trigger, once the branch for `breath` has raised it.
abbrev pub at_least : ℕ → ℕ → ℕ
at_least low n = if ltb n low then low else n

-- The halves of a word that is 0 where a test holds.
high_of_if :
    (t : Bool) (word n : ℕ)
    → high_half (split_word word) ≡ n
    → high_half (split_word (if t then 0 else word)) ≡ (if t then 0 else n)
high_of_if true word n h = refl
high_of_if false word n h = h

low_of_if :
    (t : Bool) (word n : ℕ)
    → low_half (split_word word) ≡ n
    → low_half (split_word (if t then 0 else word)) ≡ (if t then 0 else n)
low_of_if true word n h = refl
low_of_if false word n h = h

module _ (bus : Smbus) where
  open bus use {World}

  -- With trigger `breath`, on an LED of the driver: where the raised delays' sum fits an `unsigned
  -- long` and the raised on-time 16 bits, leds_blink_set makes one transfer, in breath mode to that
  -- LED, of four bytes that hold the sum of the two delays modulo 2 ^ 16 and the on-time; its result
  -- is 0 or -EBUSY as the transfer succeeds or not; and the caller's delays are the raised ones.
  pub leds_blink_set-breath :
      (cdev : ℕ) (s : LedStatus) (b : Blink) (w : World)
      → get_elem? b.leds cdev ≡ some s
      → at_least 1000 b.delay_on + at_least 500 b.delay_off < 2 ^ 64
      → at_least 1000 b.delay_on < 65536
      → let on = at_least 1000 b.delay_on in
        let off = at_least 500 b.delay_off in
        let bytes = split_word (pack_delays on off on) in
        let (r, w') = i2c_idx601x_write_led bus s.led_addr led_mode_breath bytes w in
        let b' = record b {
          leds = set b.leds cdev (plan_breath s b).0;
          delay_on = on;
          delay_off = off;
          brightness = s.light;
        } in
        (leds_blink_set bus (some (codes "breath")) cdev b w ≡ (done (to_ret r) b', w'))
        × (high_half bytes ≡ (on + off) % 65536)
        × (low_half bytes ≡ on)
  unfolding leds_blink_set send_plan plan strcmp_eq
  leds_blink_set-breath cdev s b w found sum_fits on_fits =
      let on = at_least 1000 b.delay_on in
      let off = at_least 500 b.delay_off in
      let halves = pack_delays_halves on off on sum_fits on_fits in
      (rw (found, leds_blink_set), halves.0, halves.1)

  -- With trigger `timer2`, on an LED of the driver: where the sum of the delays fits an `unsigned
  -- long` and the off-time 16 bits, leds_blink_set makes one transfer, in blink mode to that LED, of
  -- four bytes that hold the sum of the two delays modulo 2 ^ 16 and the off-time, or 0 and 0 where
  -- either delay is 0; its result is 0 or -EBUSY as the transfer succeeds or not; and the caller's
  -- delays are as they were.
  pub leds_blink_set-timer2 :
      (cdev : ℕ) (s : LedStatus) (b : Blink) (w : World)
      → get_elem? b.leds cdev ≡ some s
      → b.delay_on + b.delay_off < 2 ^ 64
      → b.delay_off < 65536
      → let word = (plan_timer2 s b).0.status_data in
        let (r, w') = i2c_idx601x_write_led bus s.led_addr led_mode_blink (split_word word) w in
        let b' = record b { leds = set b.leds cdev (plan_timer2 s b).0 } in
        (leds_blink_set bus (some (codes "timer2")) cdev b w ≡ (done (to_ret r) b', w'))
        × (high_half (split_word word) ≡ (
            if b.delay_on == 0 || b.delay_off == 0 then 0 else (b.delay_on + b.delay_off) % 65536))
        × (low_half (split_word word)
            ≡ (if b.delay_on == 0 || b.delay_off == 0 then 0 else b.delay_off))
  unfolding leds_blink_set send_plan plan strcmp_eq
  leds_blink_set-timer2 cdev s b w found sum_fits off_fits =
      let halves = pack_delays_halves b.delay_on b.delay_off b.delay_off sum_fits off_fits in
      (
        rw (found, leds_blink_set),
        high_of_if (b.delay_on == 0 || b.delay_off == 0)
            (pack_delays b.delay_on b.delay_off b.delay_off) ((b.delay_on + b.delay_off) % 65536)
            halves.0,
        low_of_if (b.delay_on == 0 || b.delay_off == 0)
            (pack_delays b.delay_on b.delay_off b.delay_off) b.delay_off halves.1,
      )

  -- leds_blink_set writes past its array exactly where the device has a trigger with a name and is
  -- none of the driver's.
  pub leds_blink_set-fault_iff :
      (trigger : Option (List ℕ)) (cdev : ℕ) (b : Blink) (w : World)
      → ((leds_blink_set bus trigger cdev b w).0 ≡ fault)
        ↔ ((trigger ≢ none) × (length b.leds ≤ cdev))
  unfolding leds_blink_set
  leds_blink_set-fault_iff none cdev b w = (λ e. cc, λ h. absurd (h.0 refl))
  leds_blink_set-fault_iff (some trigger) cdev b w = elim (Option-cases (get_elem? b.leds cdev)) [
    | inl missing ↦
        (λ e. (λ n. cc, get_elem?-none_le b.leds cdev missing), λ h. rw (missing, leds_blink_set))
    | inr (s, found) ↦
        (λ e. cc (rw (found, leds_blink_set) at e), λ h. cc (found, get_elem?-none b.leds cdev h.1))
  ]

  -- What color_set does for a number that is a row of the table, counted from 1, and for one that is
  -- none.
  abbrev pub recolor : ℕ → LedStatus → ℕ → ℕ → List LedStatus → World → ℕ × List LedStatus × World
  recolor n s cdev size leds w =
      let rgb = get_or led_color_table (n - 1) [] in
      let red = get_or rgb 0 0 in
      let green = get_or rgb 1 0 in
      let blue = get_or rgb 2 0 in
      if leb 1 n && leb n 5
      then (
        size,
        set leds cdev (record s { red = red; green = green; blue = blue }),
        (i2c_idx601x_write_led bus s.led_addr 2 (red ∷ green ∷ blue ∷ 0 ∷ []) w).1,
      )
      else (size, leds, w)

  -- The row that color_set computes with wrap-around, against the number counted from 1.
  row_of_number :
      (n : ℕ)
      → n < 2 ^ 64
      → (1 ≤ n → u64 (n + 2 ^ 64 - 1) ≡ n - 1) × (n ≡ 0 → 4 < u64 (n + 2 ^ 64 - 1))
  row_of_number n bound = ground arith

  -- With a number parser whose numbers fit an `unsigned long`, color_set returns the size that it
  -- was given in every case, an unknown device, no number and a number out of range too. For an LED
  -- of the driver and a number from 1 to 5 it makes one transfer in colour mode with the row of the
  -- table at that number, counted from 1, and records it in the status; otherwise neither the
  -- statuses nor the world change.
  pub color_set_lem :
      (kstrtoul : List ℕ → Option ℕ) (cdev : ℕ) (buf : List ℕ) (size : ℕ) (leds : List LedStatus)
      (w : World)
      → ((text : List ℕ) (n : ℕ) → kstrtoul text ≡ some n → n < 2 ^ 64)
      → color_set bus kstrtoul cdev buf size leds w ≡ (elim (get_elem? leds cdev) [
        | none ↦ (size, leds, w)
        | some s ↦ elim (kstrtoul buf) [
          | none ↦ (size, leds, w)
          | some n ↦ recolor n s cdev size leds w
        ]
      ])
  unfolding color_set
  color_set_lem kstrtoul cdev buf size leds w range = elim (Option-cases (get_elem? leds cdev)) [
    | inl missing ↦ rw (missing, color_set)
    | inr (s, found) ↦ elim (Option-cases (kstrtoul buf)) [
      | inl no_number ↦ rw (found, no_number, color_set)
      | inr (n, parsed) ↦
          let bound : n < 2 ^ 64 = range buf n parsed in
          rw (found, parsed, color_set) (ground (arith, row_of_number n bound))
    ]
  ]
