-- ===== src/Leds/Device/Coalesce.antt =====
-- Several brightnesses given to one LED before its work runs: leds_brightness_set of
-- packages/ugreen-leds-mcu/leds-mcu.c keeps them, and schedule_work has no effect on a work that
-- waits already.
use ugreen_frontpanel.Base.{
  ℕ, ◌%◌, ◌≤◌, ◌<◌, ◌≡◌, ◌≢◌, inl, inr, refl, true, false, List, [], ◌∷◌, Option, none, some, arith,
  ltb, Bool-cases, ◌==◌, if◌then◌else◌, length, get_elem?, set, get_elem?-set_self,
  get_elem?-set_ne, get_elem?-none, Option-cases,
}
use ugreen_frontpanel.Leds.Bus.{Smbus}
use ugreen_frontpanel.Leds.Wire.{i2c_idx601x_write_led}
use ugreen_frontpanel.Leds.Device.{LedStatus, leds_brightness_set, brightness_work}

-- Calls of leds_brightness_set one after the other, each with its device and its brightness.
abbrev pub set_each : List (ℕ × ℕ) → List LedStatus → List LedStatus
set_each [] leds = leds
set_each ((cdev, brightness) ∷ calls) leds =
    set_each calls (leds_brightness_set cdev brightness leds)

-- The brightness that the last of the calls for a device gives.
abbrev pub last_set : ℕ → List (ℕ × ℕ) → Option ℕ
last_set cdev [] = none
last_set cdev ((c, brightness) ∷ calls) = elim (last_set cdev calls) [
  | some later ↦ some later
  | none ↦ if c == cdev then some brightness else none
]

abbrev pub AreBrightnesses : List (ℕ × ℕ) → Type 0
AreBrightnesses [] = Unit
AreBrightnesses ((c, brightness) ∷ calls) = (brightness ≤ 255) × AreBrightnesses calls

abbrev pub shown : ℕ → ℕ
shown brightness = if brightness == 1 then 255 else brightness

abbrev waiting : LedStatus → Option ℕ → LedStatus
waiting s none = s
waiting s (some brightness) = record s { light = shown brightness; work = true }

waiting-some :
    (s : LedStatus) (earlier : Option ℕ) (brightness : ℕ)
    → waiting (waiting s earlier) (some brightness) ≡ waiting s (some brightness)
waiting-some s none brightness = refl
waiting-some s (some earlier) brightness = refl

within : {A : Type 0} (xs : List A) (i : ℕ) (a : A) → get_elem? xs i ≡ some a → i < length xs
within xs i a found = elim (Bool-cases (ltb i (length xs))) [
  | inl inside ↦ ground arith
  | inr outside ↦ cc (found, get_elem?-none xs i (ground arith))
]

-- The status that one call leaves at its own device, and at another.
set_own :
    (brightness cdev : ℕ) (s : LedStatus) (leds : List LedStatus)
    → get_elem? leds cdev ≡ some s
    → brightness ≤ 255
    → get_elem? (leds_brightness_set cdev brightness leds) cdev ≡ some (waiting s (some brightness))
unfolding leds_brightness_set
set_own brightness cdev s leds found range =
    let kept : brightness % 65536 ≡ brightness = omega arith in
    let s' = record s {
      light = if brightness == 1 then 255 else brightness % 65536;
      work = true;
    } in
    let stored = get_elem?-set_self leds cdev s' (within leds cdev s found) in
    rw (found, leds_brightness_set) (rw kept (rw kept at stored))

set_other :
    (c brightness cdev : ℕ) (leds : List LedStatus)
    → c ≢ cdev
    → get_elem? (leds_brightness_set c brightness leds) cdev ≡ get_elem? leds cdev
unfolding leds_brightness_set
set_other c brightness cdev leds other = elim (Option-cases (get_elem? leds c)) [
  | inl missing ↦ rw (missing, leds_brightness_set)
  | inr (s, found) ↦
      rw (found, leds_brightness_set)
        (get_elem?-set_ne leds c cdev
          (record s { light = if brightness == 1 then 255 else brightness % 65536; work = true })
          other)
]

set_one :
    (c brightness cdev : ℕ) (s : LedStatus) (leds : List LedStatus)
    → get_elem? leds cdev ≡ some s
    → brightness ≤ 255
    → get_elem? (leds_brightness_set c brightness leds) cdev
      ≡ some (waiting s (if c == cdev then some brightness else none))
set_one c brightness cdev s leds found range = elim (Bool-cases (c == cdev)) [
  | inl same ↦
      let e : c ≡ cdev = ground arith in rw (same, e) (set_own brightness cdev s leds found range)
  | inr other ↦
      let n : c ≢ cdev = λ e. ground arith in rw (other, set_other c brightness cdev leds n) found
]

set_each-get :
    (calls : List (ℕ × ℕ)) (cdev : ℕ) (s : LedStatus) (leds : List LedStatus)
    → get_elem? leds cdev ≡ some s
    → AreBrightnesses calls
    → get_elem? (set_each calls leds) cdev ≡ some (waiting s (last_set cdev calls))
set_each-get [] cdev s leds found range = found
set_each-get ((c, brightness) ∷ calls) cdev s leds found range =
    let s' = waiting s (if c == cdev then some brightness else none) in
    let rest =
      set_each-get calls cdev s' (leds_brightness_set c brightness leds)
        (set_one c brightness cdev s leds found range.0) range.1 in
    elim (Option-cases (last_set cdev calls)) [
      | inl no_more ↦ rw no_more (rw no_more at rest)
      | inr (later, more) ↦
          rw more
            (rw (more, waiting-some s (if c == cdev then some brightness else none) later) at rest)
    ]

module _ (bus : Smbus) where
  open bus use {World}

  -- The kernel's work queue runs the work of a device once if it waits.
  abbrev pub run_scheduled : ℕ → List LedStatus → World → List LedStatus × World
  run_scheduled cdev leds w = elim (get_elem? leds cdev) [
    | none ↦ (leds, w)
    | some s ↦
        let (s', w') = brightness_work bus cdev s w in
        if s.work then (set leds cdev s', w') else (leds, w)
  ]

  -- The work of a device whose status is `s`, when it runs: nothing without a brightness, else the
  -- one transfer of the last brightness.
  abbrev pub carried_out : LedStatus → Option ℕ → World → LedStatus × World
  carried_out s none w = (s, w)
  carried_out s (some brightness) w = (
    record s { light = shown brightness; work = false },
    (i2c_idx601x_write_led bus s.led_addr 1 (shown brightness ∷ 0 ∷ 0 ∷ 0 ∷ []) w).1,
  )

  -- When a brightness is waiting, the work sends it.
  run_waiting :
      (brightness cdev : ℕ) (s : LedStatus) (w : World)
      → brightness ≤ 255
      → brightness_work bus cdev (waiting s (some brightness)) w ≡ carried_out s (some brightness) w
  unfolding brightness_work
  run_waiting brightness cdev s w range =
      let same : (if shown brightness == 1 then 255 else shown brightness) ≡ shown brightness =
        ground arith in
      let byte : shown brightness % 256 ≡ shown brightness = ground arith in rw same (rw byte)

  last_set_range :
      (cdev : ℕ) (calls : List (ℕ × ℕ)) (brightness : ℕ)
      → AreBrightnesses calls
      → last_set cdev calls ≡ some brightness
      → brightness ≤ 255
  last_set_range cdev [] brightness range e = cc
  last_set_range cdev ((c, b) ∷ calls) brightness range e =
      elim (Option-cases (last_set cdev calls)) [
        | inl no_more ↦ ground (arith, rw no_more at e)
        | inr (later, more) ↦ last_set_range cdev calls brightness range.1 (rw more (rw more at e))
      ]

  run_idle :
      (cdev : ℕ) (s : LedStatus) (leds : List LedStatus) (w : World)
      → get_elem? leds cdev ≡ some s
      → s.work ≡ false
      → run_scheduled cdev leds w ≡ (leds, w)
  run_idle cdev s leds w found idle = rw (found, run_scheduled) (rw idle)

  run_busy :
      (brightness cdev : ℕ) (s : LedStatus) (leds : List LedStatus) (w : World)
      → get_elem? leds cdev ≡ some (waiting s (some brightness))
      → brightness ≤ 255
      → run_scheduled cdev leds w ≡ (
        set leds cdev (carried_out s (some brightness) w).0,
        (carried_out s (some brightness) w).1,
      )
  run_busy brightness cdev s leds w found range =
      rw (found, run_scheduled) (rw (run_waiting brightness cdev s w range))

  run_status :
      (cdev : ℕ) (s : LedStatus) (last : Option ℕ) (leds : List LedStatus) (w : World)
      → get_elem? leds cdev ≡ some (waiting s last)
      → s.work ≡ false
      → ((brightness : ℕ) → last ≡ some brightness → brightness ≤ 255)
      → let (after, w') = run_scheduled cdev leds w in
        (get_elem? after cdev ≡ some (carried_out s last w).0)
        × (w' ≡ (carried_out s last w).1)
        × (run_scheduled cdev after w' ≡ (after, w'))
        × ((j : ℕ) → cdev ≢ j → get_elem? after j ≡ get_elem? leds j)
  run_status cdev s none leds w found idle range =
      rw (run_idle cdev s leds w found idle)
        (found, refl, run_idle cdev s leds w found idle, λ j other. refl)
  run_status cdev s (some brightness) leds w found idle range =
      let s' = (carried_out s (some brightness) w).0 in
      let stored =
        get_elem?-set_self leds cdev s' (within leds cdev (waiting s (some brightness)) found) in
      rw (run_busy brightness cdev s leds w found (range brightness refl)) (
        stored,
        refl,
        run_idle cdev s' (set leds cdev s') (carried_out s (some brightness) w).1 stored refl,
        λ j other. get_elem?-set_ne leds cdev j s' other,
      )

  -- Whatever brightnesses of at most 255 are given to the LEDs, in any order, to an LED of the
  -- driver whose work does not wait and to others: when its work then runs, it makes no transfer
  -- where none was given to this LED, and else exactly one, in light mode, of the brightness given
  -- last, where 1 stands for 255, which the status keeps; run again it makes none, and it changes
  -- no other LED.
  pub run_scheduled-set_each :
      (calls : List (ℕ × ℕ)) (cdev : ℕ) (s : LedStatus) (leds : List LedStatus) (w : World)
      → get_elem? leds cdev ≡ some s
      → s.work ≡ false
      → AreBrightnesses calls
      → let leds' = set_each calls leds in
        let (after, w') = run_scheduled cdev leds' w in
        let expected = carried_out s (last_set cdev calls) w in
        (get_elem? after cdev ≡ some expected.0)
        × (w' ≡ expected.1)
        × (run_scheduled cdev after w' ≡ (after, w'))
        × ((j : ℕ) → cdev ≢ j → get_elem? after j ≡ get_elem? leds' j)
  run_scheduled-set_each calls cdev s leds w found idle range =
      run_status cdev s (last_set cdev calls) (set_each calls leds) w
        (set_each-get calls cdev s leds found range) idle
        (λ brightness e. last_set_range cdev calls brightness range e)
