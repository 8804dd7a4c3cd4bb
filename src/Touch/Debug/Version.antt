-- ===== src/Touch/Debug/Version.antt =====
-- axs_driverversion_show and axs_hw_reset_show of packages/axs-touch/src/axs_debug.c.
use ugreen_frontpanel.Base.{
  ℕ, zero, suc, ◌*◌, ◌/◌, ◌%◌, ◌≤◌, ◌<◌, ◌≡◌, List, [], ◌∷◌, ◌++◌, ltb, if◌then◌else◌, Option, none,
  some, codes, arith,
}
use ugreen_frontpanel.Touch.Bus.{TouchHw}
use ugreen_frontpanel.Touch.Registers.{Commands, axs_read_fw_version}
use ugreen_frontpanel.Touch.Upgrade.{axs_reset_proc}
use ugreen_frontpanel.Touch.Debug.Hex.{digit_char}
use ugreen_frontpanel.Touch.Debug.Text.{Page, page_of, snprintf}

-- `%x`, for a number of at most `k` digits.
unfoldable pub hex_text : ℕ → ℕ → List ℕ
hex_text zero n = []
hex_text (suc k) n =
    let front = hex_text k (n / 16) in
    if ltb n 16 then digit_char n ∷ [] else front ++ (digit_char (n % 16) ∷ [])

-- `val[0]<<8|val[1]`: only `val[0]` is read, and both are 0 where that fails.
abbrev pub shown_version : Option ℕ → ℕ
shown_version none = 0
shown_version (some v) = v * 256

module _ (hw : TouchHw) where
  open hw use {World}

  -- The page, and what it leaves; `stack` and `stack2` are what axs_read_fw_version has on its stack.
  unfoldable pub axs_driverversion_show : ℕ → ℕ → Commands × World → Page × (Commands × World)
  axs_driverversion_show stack stack2 s =
      let (version, s') = axs_read_fw_version hw stack stack2 s in
      let text =
        codes "driver version = V2.1.7 firmware version = 0x"
        ++ hex_text 4 (shown_version version) in
      (snprintf (text ++ (10 ∷ [])) (page_of []), s')

  unfoldable pub axs_hw_reset_show : World → Page × World
  axs_hw_reset_show w = (snprintf (codes "hw reset!\n") (page_of []), axs_reset_proc hw 20 w)

-- A version is shown with two zeros after its digits.
pub hex_text-shown_version :
    (v : ℕ)
    → 1 ≤ v
    → v < 256
    → hex_text 4 (shown_version (some v)) ≡ hex_text 2 v ++ (b'0' ∷ b'0' ∷ [])
unfolding hex_text
hex_text-shown_version v some_bit small = ground arith
