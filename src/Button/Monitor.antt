-- ===== src/Button/Monitor.antt =====
-- `struct btn_info` and btn_monitor of packages/ugreen-sio/ug_gpio_btn.c. The registers that the
-- handler reads are its input, one number for each button, and what it hands to the input layer is
-- its output.
use ugreen_frontpanel.Base.{
  ℕ, ◌+◌, ◌/◌, ◌%◌, ◌^◌, Bool, true, ◌&&◌, ◌||◌, not, List, [], ◌∷◌, ◌++◌, ltb, leb, ◌==◌,
  if◌then◌else◌, codes, strcmp_eq,
}

-- The codes that the table uses.
pub data Key : Type 0 where
  key_f20 key_f24 : Key

-- `base` holds for `base != NULL`.
pub record Button : Type 0 where
  pub code : Key
  pub phyaddr : ℕ
  pub shift : ℕ
  pub active : ℕ
  pub base : Bool
  pub seen : ℕ
  pub prestate : ℕ
  pub last_report : ℕ

-- `input_report_key(ug_key, code, value); input_sync(ug_key)`
pub record Report : Type 0 where
  pub key : Key
  pub value : ℕ

abbrev pub is_gt : List ℕ → Bool
is_gt product = strcmp_eq product (codes "DXP2800 GT")

abbrev pub is_f24 : Key → Bool
is_f24 key_f24 = true
is_f24 key_f20 = not true

-- `val`: the button's bit.
abbrev pub pin : Button → ℕ → ℕ
pin b reg = reg / 2 ^ b.shift % 2

-- Whether a press is reported, once `seen` has been raised.
unfoldable pub reports_press : Bool → Key → ℕ → Bool
reports_press gt key_f24 seen = seen == 260
reports_press gt key_f20 seen = seen == 1 && not gt || seen == 100 && gt

-- The branch for `val == active`.
unfoldable pub pressed : Bool → Button → Button × List Report
unfolding reports_press
pressed gt b =
    if ltb b.seen 1200
    then (let seen = b.seen + 1 in
        if reports_press gt b.code seen
        then (record b { seen = seen; last_report = 1 }, record { key = b.code; value = 1 } ∷ [])
        else (record b { seen = seen }, []))
    else (b, [])

-- Whether the other branch reports a release.
unfoldable pub reports_release : Key → ℕ → ℕ → ℕ → Bool
reports_release key_f24 seen val prestate = ltb 260 seen
reports_release key_f20 seen val prestate = leb 100 seen && not (val == prestate)

-- The branch for `val != active`.
unfoldable pub released : ℕ → Button → Button × List Report
unfolding reports_release
released val b =
    if reports_release b.code b.seen val b.prestate
    then (record b { seen = 0; last_report = 0 }, record { key = b.code; value = 0 } ∷ [])
    else (record b { seen = 0 }, [])

-- One round of the loop of btn_monitor.
unfoldable pub monitor : Bool → ℕ → Button → Button × List Report
unfolding pressed released
monitor gt reg b =
    if b.base
    then (let val = pin b reg in
        let (b', out) = if val == b.active then pressed gt b else released val b in
        (record b' { prestate = val }, out))
    else (b, [])

-- btn_monitor: both buttons, in order.
unfoldable pub btn_monitor : List ℕ → ℕ × ℕ → Button × Button → Button × Button × List Report
unfolding monitor
btn_monitor product (reg0, reg1) (b0, b1) =
    let (b0', out0) = monitor (is_gt product) reg0 b0 in
    let (b1', out1) = monitor (is_gt product) reg1 b1 in (b0', b1', out0 ++ out1)

-- The timer's successive calls, for one button.
unfoldable pub monitor_all : Bool → List ℕ → Button → Button × List Report
monitor_all gt [] b = (b, [])
monitor_all gt (reg ∷ regs) b =
    let (b', out) = monitor gt reg b in
    let (b'', rest) = monitor_all gt regs b' in (b'', out ++ rest)
