-- ===== src/Leds/Boards/Laws.antt =====
-- Every supported product gets as many LEDs as its table has names.
use ugreen_frontpanel.Base.{
  ℕ, zero, suc, ◌+◌, ◌≤◌, ◌<◌, ◌≡◌, ◌⊎◌, inl, inr, take, ◌∙◌, sym, refl, ap, Bool, true, false,
  ◌||◌, ◌&&◌, List, [], ◌∷◌, some, arith, codes, strcmp_eq, strcmp_eq_same, length, get_elem?,
}
use ugreen_frontpanel.Leds.Boards.{
  is_supported, led_count, led_names, Registered, statuses_from, ug_led_cdev_register, fault,
  running, leds_ugreen_probe,
}

-- What a supported product gets.
abbrev Fits : List ℕ → ℕ → Type 0
Fits product old =
    (led_count product old ≡ length (led_names product))
    × (4 ≤ length (led_names product))
    × (length (led_names product) ≤ 9)

-- Equal texts get the same count and the same names.
count_of_equal : (p x : List ℕ) (old : ℕ) → strcmp_eq p x ≡ true → led_count p old ≡ led_count x old
unfolding led_count
count_of_equal p x old h = cc (
  strcmp_eq_same p x (codes "DXP2800") h,
  strcmp_eq_same p x (codes "DXP6800") h,
  strcmp_eq_same p x (codes "DXP6800S") h,
  strcmp_eq_same p x (codes "iDX6011") h,
  strcmp_eq_same p x (codes "iDX6012") h,
  strcmp_eq_same p x (codes "iDX6011 Pro") h,
  strcmp_eq_same p x (codes "DXP4800 GT") h,
)

names_of_equal : (p x : List ℕ) → strcmp_eq p x ≡ true → led_names p ≡ led_names x
unfolding led_names
names_of_equal p x h = cc (
  strcmp_eq_same p x (codes "DXP2800") h,
  strcmp_eq_same p x (codes "DXP6800") h,
  strcmp_eq_same p x (codes "DXP6800S") h,
  strcmp_eq_same p x (codes "iDX6011") h,
  strcmp_eq_same p x (codes "iDX6012") h,
  strcmp_eq_same p x (codes "iDX6011 Pro") h,
  strcmp_eq_same p x (codes "DXP4800 GT") h,
)

equal-Fits : (p x : List ℕ) (old : ℕ) → strcmp_eq p x ≡ true → Fits x old → Fits p old
equal-Fits p x old h fits = rw (count_of_equal p x old h, names_of_equal p x h) fits

either : {P : Type 0} (a b : Bool) → (a ≡ true → P) → (b ≡ true → P) → (a || b) ≡ true → P
either true b f g h = f refl
either false b f g h = g h

-- The seven products.
known_fit :
    (old : ℕ)
    → Fits (codes "iDX6011") old
      × Fits (codes "DXP2800") old
      × Fits (codes "iDX6012") old
      × Fits (codes "DXP6800") old
      × Fits (codes "DXP6800S") old
      × Fits (codes "iDX6011 Pro") old
      × Fits (codes "DXP4800 GT") old
unfolding led_count led_names strcmp_eq
known_fit old = (
  (refl, omega arith, omega arith),
  (refl, omega arith, omega arith),
  (refl, omega arith, omega arith),
  (refl, omega arith, omega arith),
  (refl, omega arith, omega arith),
  (refl, omega arith, omega arith),
  (refl, omega arith, omega arith),
)

-- Whatever the count was before, a product that the driver supports gets exactly as many LEDs as
-- the table that its names come from has, and these are from 4 to 9.
pub led_count-led_names :
    (product : List ℕ) (old : ℕ)
    → is_supported product ≡ true
    → (led_count product old ≡ length (led_names product))
      × (4 ≤ length (led_names product))
      × (length (led_names product) ≤ 9)
unfolding is_supported
led_count-led_names product old h =
    let known = known_fit old in
    let equal = λ (x : List ℕ) (fits : Fits x old) (e : strcmp_eq product x ≡ true).
      equal-Fits product x old e fits in
    either _ _
      (either _ _
        (either _ _
          (either _ _
            (either _ _ (either _ _ (equal _ known.0) (equal _ known.1)) (equal _ known.2))
            (equal _ known.3))
          (equal _ known.4))
        (equal _ known.5))
      (equal _ known.6) h

-- Names with their positions, as devices.
abbrev pub numbered : ℕ → List (List ℕ) → List Registered
numbered i [] = []
numbered i (name ∷ names) = record { name = some name; led_addr = i } ∷ numbered (i + 1) names

-- The loop, where the names that are left are those of the table from position `i` on.
statuses_numbered :
    (n i : ℕ) (product : List ℕ) (names : List (List ℕ))
    → ((k : ℕ) → get_elem? (led_names product) (i + k) ≡ get_elem? names k)
    → n ≡ length names
    → statuses_from n i product ≡ numbered i names
unfolding statuses_from
statuses_numbered zero i product [] same h = refl
statuses_numbered zero i product (name ∷ names) same h = absurd (omega arith)
statuses_numbered (suc n) i product [] same h = absurd (omega arith)
statuses_numbered (suc n) i product (name ∷ names) same h =
    let here : i + 0 ≡ i = omega arith in
    let first : get_elem? (led_names product) i ≡ some name = rw here at (same 0) in
    let later : (k : ℕ) → get_elem? (led_names product) (i + 1 + k) ≡ get_elem? names k =
      λ k. let shift : i + 1 + k ≡ i + suc k = omega arith in rw shift (same (suc k)) in
    rw (first, statuses_numbered n (i + 1) product names later (omega arith))

-- The devices before the first one that is refused.
register_prefix :
    (register : ℕ → Bool) (k i : ℕ) (ds : List Registered)
    → ((j : ℕ) → j < k → register (i + j) ≡ true)
    → (k ≡ length ds) ⊎ (register (i + k) ≡ false)
    → k ≤ length ds
    → ug_led_cdev_register register i ds ≡ take k ds
unfolding ug_led_cdev_register
register_prefix register zero i [] taken ends fits = refl
register_prefix register (suc k) i [] taken ends fits = absurd (omega arith)
register_prefix register zero i (d ∷ ds) taken (inl all) fits = absurd (omega arith)
register_prefix register zero i (d ∷ ds) taken (inr stops) fits =
    let here : i + 0 ≡ i = omega arith in let e : register i ≡ false = rw here at stops in rw e refl
register_prefix register (suc k) i (d ∷ ds) taken ends fits =
    let here : i + 0 ≡ i = omega arith in
    let e : register i ≡ true = rw here at (taken 0 (omega arith)) in
    let later : (j : ℕ) → j < k → register (i + 1 + j) ≡ true = λ j h.
      let shift : i + 1 + j ≡ i + suc j = omega arith in rw shift (taken (suc j) (omega arith)) in
    rw e (ap (λ l. d ∷ l) (register_prefix register k (i + 1) ds later (next ends) (omega arith)))
  where
    next :
        (suc k ≡ suc (length ds)) ⊎ (register (i + suc k) ≡ false)
        → (k ≡ length ds) ⊎ (register (i + 1 + k) ≡ false)
    next (inl all) = inl (omega arith)
    next (inr stops) = inr (let shift : i + 1 + k ≡ i + suc k = omega arith in rw shift stops)

length-numbered : (i : ℕ) (names : List (List ℕ)) → length (numbered i names) ≡ length names
length-numbered i [] = refl
length-numbered i (name ∷ names) = ap suc (length-numbered (i + 1) names)

-- Of a supported product, whatever the count of LEDs was before: once the reboot notifier is
-- registered and both allocations succeed, the probe registers one device for each name of the
-- product's table, in order, each at the address of its position, up to the first one that the kernel
-- refuses, if any. Where the device at `k` is refused and those before it are not, the first `k` are
-- registered and the later ones are not, though the probe goes on as if all were.
pub leds_ugreen_probe-running :
    (product : List ℕ) (old k : ℕ) (register : ℕ → Bool)
    → is_supported product ≡ true
    → ((j : ℕ) → j < k → register j ≡ true)
    → (k ≡ length (led_names product)) ⊎ (register k ≡ false)
    → k ≤ length (led_names product)
    → leds_ugreen_probe product old true true true register
      ≡ running (take k (numbered 0 (led_names product)))
unfolding leds_ugreen_probe
leds_ugreen_probe-running product old k register supported taken ends small =
    let fits = led_count-led_names product old supported in
    let names = led_names product in
    let all =
      statuses_numbered (led_count product old) 0 product names
        (λ j. let e : 0 + j ≡ j = omega arith in rw e) fits.0 in
    let size = length-numbered 0 names in
    let at : (j : ℕ) → 0 + j ≡ j = λ j. omega arith in
    let taken' : (j : ℕ) → j < k → register (0 + j) ≡ true = λ j h. rw (at j) (taken j h) in
    let ends' : (k ≡ length (numbered 0 names)) ⊎ (register (0 + k) ≡ false) = elim ends [
      | inl whole ↦ inl (whole ∙ sym size)
      | inr stops ↦ inr (rw (at k) stops)
    ] in
    rw supported (
      ap running (
        ap (ug_led_cdev_register register 0) all
        ∙ register_prefix register k 0 (numbered 0 names) taken' ends' (omega (arith, size))))

-- Of a supported product, with the reboot notifier registered: where either allocation of
-- iDX601x_led_init fails, its failure is ignored and the registration writes through a NULL
-- pointer.
pub leds_ugreen_probe_unallocated :
    (product : List ℕ) (old : ℕ) (cdev_allocated status_allocated : Bool) (register : ℕ → Bool)
    → is_supported product ≡ true
    → (cdev_allocated && status_allocated) ≡ false
    → leds_ugreen_probe product old true cdev_allocated status_allocated register ≡ fault
unfolding leds_ugreen_probe
leds_ugreen_probe_unallocated product old cdev_allocated status_allocated register supported
      missing =
    ground arith
