-- ===== src/Touch/Debug/Table.antt =====
-- A square table that fits in the page is shown row by row.
use ugreen_frontpanel.Base.{
  ℕ, suc, ◌+◌, ◌-◌, ◌*◌, ◌<◌, ◌≡◌, refl, ap, sym, ◌∙◌, subst, false, List, [], ◌∷◌, ◌++◌, ltb,
  if◌then◌else◌, length, length-append, take, drop, get_elem?, some, pos, arith,
}
use mathlib.Core.List.{append_assoc}
use ugreen_frontpanel.Touch.Debug.Lists.{append_empty, take-short}
use ugreen_frontpanel.Touch.Bus.{TouchHw, axs_write_bytes_read_bytes}
use ugreen_frontpanel.Touch.Debug.{DebugState}
use ugreen_frontpanel.Touch.Debug.Text.{
  Page, page_size, page_of, snprintf, newline, cell, cells, show_cells,
}
use ugreen_frontpanel.Touch.Debug.Show.{show_rows, read_command, show_table, print_table}

-- The text for a table with its rows apart.
abbrev pub table_text : List (List ℕ) → List ℕ
table_text [] = []
table_text (row ∷ rows) = cells row ++ (newline ++ table_text rows)

-- The rows one after the other, as they are read.
abbrev pub flat : List (List ℕ) → List ℕ
flat [] = []
flat (row ∷ rows) = row ++ flat rows

abbrev pub RowsOf : ℕ → List (List ℕ) → Type 0
RowsOf m [] = Unit {0}
RowsOf m (row ∷ rows) = (length row ≡ m) × RowsOf m rows

snprintf-fits :
    (item text : List ℕ)
    → length (text ++ item) < page_size
    → snprintf item (page_of text) ≡ page_of (text ++ item)
unfolding snprintf
snprintf-fits item text fits =
    let sum = length-append text item in
    let inside : ltb page_size (length text) ≡ false = ground arith in
    ap
      (λ b. if b then page_of text else record {
        text = take (page_size - 1) (text ++ item);
        total = length text + length item;
      })
      inside
    ∙ ap (λ t. record { text = t; total = length text + length item })
        (take-short (page_size - 1) (text ++ item) (omega (arith, fits)))
    ∙ ap (λ n. record { text = text ++ item; total = n }) (sym sum)

show_cells_step :
    (left k b : ℕ) (rx : List ℕ) (p : Page)
    → get_elem? rx k ≡ some b
    → show_cells (suc left) k rx p ≡ show_cells left (k + 1) rx (snprintf (cell b) p)
unfolding show_cells
show_cells_step left k b rx p at = rw (at, show_cells) refl

at_end : (pre rest : List ℕ) (b : ℕ) → get_elem? (pre ++ (b ∷ rest)) (length pre) ≡ some b
at_end [] rest b = refl
at_end (x ∷ pre) rest b = at_end pre rest b

show_cells-cells :
    (bs pre post text : List ℕ) (k : ℕ)
    → k ≡ length pre
    → length (text ++ cells bs) < page_size
    → show_cells (length bs) k (pre ++ (bs ++ post)) (page_of text)
      ≡ some (page_of (text ++ cells bs))
unfolding show_cells
show_cells-cells [] pre post text k place fits =
    ap (λ t. some (page_of t)) (sym (append_empty text))
show_cells-cells (b ∷ bs) pre post text k place fits =
    let rx = pre ++ ((b ∷ bs) ++ post) in
    let at : get_elem? rx k ≡ some b = ap (get_elem? rx) place ∙ at_end pre (bs ++ post) b in
    let joined : text ++ cells (b ∷ bs) ≡ (text ++ cell b) ++ cells bs =
      sym (append_assoc text (cell b) (cells bs)) in
    let sum = length-append (text ++ cell b) (cells bs) in
    let fits' : length ((text ++ cell b) ++ cells bs) < page_size =
      subst (λ t. length t < page_size) joined fits in
    show_cells_step (length bs) k b rx (page_of text) at
    ∙ ap (show_cells (length bs) (k + 1) rx)
        (snprintf-fits (cell b) text (omega (arith, sum, fits')))
    ∙ ap (λ l. show_cells (length bs) (k + 1) l (page_of (text ++ cell b)))
        (sym (append_assoc pre (b ∷ []) (bs ++ post)))
    ∙ show_cells-cells bs (pre ++ (b ∷ [])) post (text ++ cell b) (k + 1)
        (omega (arith, place, length-append pre (b ∷ []))) fits'
    ∙ ap (λ t. some (page_of t)) (sym joined)

show_rows_step :
    (left i tx cols : ℕ) (rx : List ℕ) (p p' : Page)
    → show_cells cols (i * tx) rx p ≡ some p'
    → show_rows (suc left) i tx cols rx p ≡ show_rows left (i + 1) tx cols rx (snprintf newline p')
unfolding show_rows
show_rows_step left i tx cols rx p p' shown = rw (shown, show_rows) refl

next_row : (i m : ℕ) → (i + 1) * m ≡ i * m + m
next_row i m = grind arith

show_rows-table_text :
    (rows : List (List ℕ)) (pre post text : List ℕ) (i m : ℕ)
    → RowsOf m rows
    → i * m ≡ length pre
    → length (text ++ table_text rows) < page_size
    → show_rows (length rows) i m m (pre ++ (flat rows ++ post)) (page_of text)
      ≡ some (page_of (text ++ table_text rows))
unfolding show_rows
show_rows-table_text [] pre post text i m wide place fits =
    ap (λ t. some (page_of t)) (sym (append_empty text))
show_rows-table_text (row ∷ rows) pre post text i m wide place fits =
    let rx = pre ++ (flat (row ∷ rows) ++ post) in
    let split : rx ≡ pre ++ (row ++ (flat rows ++ post)) =
      ap (λ l. pre ++ l) (append_assoc row (flat rows) post) in
    let regroup : rx ≡ (pre ++ row) ++ (flat rows ++ post) =
      split ∙ sym (append_assoc pre row (flat rows ++ post)) in
    let line = (text ++ cells row) ++ newline in
    let joined : text ++ table_text (row ∷ rows) ≡ line ++ table_text rows =
      sym (append_assoc text (cells row) (newline ++ table_text rows))
      ∙ sym (append_assoc (text ++ cells row) newline (table_text rows)) in
    let fits' : length (line ++ table_text rows) < page_size =
      subst (λ t. length t < page_size) joined fits in
    let sum = length-append line (table_text rows) in
    let sum2 = length-append (text ++ cells row) newline in
    let printed : show_cells m (i * m) rx (page_of text) ≡ some (page_of (text ++ cells row)) =
      ap (λ l. show_cells m (i * m) l (page_of text)) split
      ∙ ap (λ n. show_cells n (i * m) (pre ++ (row ++ (flat rows ++ post))) (page_of text))
          (sym wide.0)
      ∙ show_cells-cells row pre (flat rows ++ post) text (i * m) place
          (omega (arith, sum, sum2, fits')) in
    show_rows_step (length rows) i m m rx (page_of text) (page_of (text ++ cells row)) printed
    ∙ ap (show_rows (length rows) (i + 1) m m rx)
        (snprintf-fits newline (text ++ cells row) (omega (arith, sum, fits')))
    ∙ ap (λ l. show_rows (length rows) (i + 1) m m l (page_of line)) regroup
    ∙ show_rows-table_text rows (pre ++ row) post line (i + 1) m wide.1
        (next_row i m ∙ omega (arith, place, wide.0, length-append pre row)) fits'
    ∙ ap (λ t. some (page_of t)) (sym joined)

module _ (hw : TouchHw) where
  open hw use {World}

  print_table-page_of :
      (n : ℕ) (text : List ℕ) (d : DebugState) (w : World)
      → show_rows n 0 n n d.rx (page_of []) ≡ some (page_of text)
      → print_table hw n n (d, w) ≡ some (pos (length text), text, (d, w))
  print_table-page_of n text d w printed = rw (printed, print_table) refl

  -- A square table whose text fits in the page is shown row by row, if both transfers give what was
  -- asked for.
  pub show_table-table_text :
      (reg : ℕ) (rows : List (List ℕ)) (d : DebugState) (w w1 w2 : World) (got : ℕ)
      → RowsOf (length rows) rows
      → length (table_text rows) < page_size
      → (let n = length rows in
          axs_write_bytes_read_bytes hw (read_command 0x03) (0 ∷ 0 ∷ []) w ≡ (pos 2, n ∷ n ∷ [], w1)
          → axs_write_bytes_read_bytes hw (read_command reg) (take (n * n) d.rx) w1
            ≡ (pos got, flat rows, w2)
          → show_table hw reg (d, w)
            ≡ some (
              pos (length (table_text rows)),
              table_text rows,
              (record d { rx = flat rows ++ drop (n * n) d.rx }, w2),
            ))
  unfolding show_table
  show_table-table_text reg rows d w w1 w2 got wide fits counted read =
      let n = length rows in
      let rest = drop (n * n) d.rx in
      let printed : show_rows n 0 n n (flat rows ++ rest) (page_of [])
          ≡ some (page_of (table_text rows)) =
        show_rows-table_text rows [] rest [] 0 n wide (omega arith) fits in
      rw (counted, read, show_table)
        (print_table-page_of n (table_text rows) (record d { rx = flat rows ++ rest }) w2 printed)
