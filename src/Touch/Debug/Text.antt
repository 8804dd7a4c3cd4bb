-- ===== src/Touch/Debug/Text.antt =====
-- The page of a file of packages/axs-touch/src/axs_debug.c, and what is printed into it.
use ugreen_frontpanel.Base.{
  ℕ, zero, suc, ◌+◌, ◌-◌, ◌/◌, ◌%◌, List, [], ◌∷◌, ◌++◌, ltb, ◌==◌, if◌then◌else◌, length, take,
  get_elem?, Option, none, some,
}
use ugreen_frontpanel.Touch.Debug.Hex.{digit_char}

abbrev pub page_size : ℕ
page_size = 4096

-- What stands in the page before the NUL, and `total_count`.
pub record Page : Type 0 where
  pub text : List ℕ
  pub total : ℕ

abbrev pub page_of : List ℕ → Page
page_of text = record { text = text; total = length text }

-- `count = snprintf(buf+total_count, (PAGE_SIZE-total_count), ...)` and `total_count += count`, for what
-- the format gives. The kernel gives 0 for a size that has wrapped.
unfoldable pub snprintf : List ℕ → Page → Page
snprintf item p =
    if ltb page_size p.total
    then p
    else record { text = take (page_size - 1) (p.text ++ item); total = p.total + length item }

-- `0x%2x,`
unfoldable pub cell : ℕ → List ℕ
cell b =
    b'0' ∷ b'x' ∷ (if ltb b 16 then b' ' else digit_char (b / 16)) ∷ digit_char (b % 16) ∷ b',' ∷ []

abbrev pub newline : List ℕ
newline = 10 ∷ []

-- The loop over `j`, for the bytes of `debug_rx_buf` from `k` on; `none` is a read after its end.
unfoldable pub show_cells : ℕ → ℕ → List ℕ → Page → Option Page
show_cells zero k rx p = some p
show_cells (suc left) k rx p = elim (get_elem? rx k) [
  | none ↦ none
  | some b ↦ show_cells left (k + 1) rx (snprintf (cell b) p)
]

-- `%s` of a buffer; `none` is a read after its end.
unfoldable pub c_string : List ℕ → Option (List ℕ)
c_string [] = none
c_string (c ∷ buf) =
    if c == 0 then some [] else elim (c_string buf) [ none ↦ none | some rest ↦ some (c ∷ rest) ]

-- The cells of some bytes.
abbrev pub cells : List ℕ → List ℕ
cells [] = []
cells (b ∷ bs) = cell b ++ cells bs
