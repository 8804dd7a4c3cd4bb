-- ===== src/Touch/Debug/Laws.antt =====
-- What is sent for a text that was printed from bytes.
use ugreen_frontpanel.Base.{
  ℕ, suc, ◌+◌, ◌*◌, ◌/◌, ◌%◌, ◌≤◌, ◌<◌, ◌≡◌, refl, ap, sym, ◌∙◌, false, List, [], ◌∷◌, ◌++◌, ltb,
  if◌then◌else◌, length, length-append, get_elem?, take, drop, set, some, arith,
}
use mathlib.Core.List.{append_assoc}
use ugreen_frontpanel.Touch.Bus.{TouchHw, axs_write_bytes, axs_write_bytes_read_bytes}
use ugreen_frontpanel.Touch.Registers.Form.{set_after}
use ugreen_frontpanel.Touch.Debug.Hex.{
  hex_to_u8, hex_to_u8-hex_byte, hex_byte, hex_bytes, digit_char,
}
use ugreen_frontpanel.Touch.Debug.{
  DebugState, fill_tx, read_register, write_register, axs_tprwreg_store,
}

abbrev pub AllBytes : List ℕ → Type 0
AllBytes [] = Unit {0}
AllBytes (b ∷ bs) = (b < 256) × AllBytes bs

get_elem?-after :
    (pre buf : List ℕ) (i : ℕ) → get_elem? (pre ++ buf) (length pre + i) ≡ get_elem? buf i
get_elem?-after [] buf i = let e : 0 + i ≡ i = omega arith in rw e refl
get_elem?-after (x ∷ pre) buf i =
    let e : suc (length pre) + i ≡ suc (length pre + i) = omega arith in
    rw e (get_elem?-after pre buf i)

-- A printed byte is read back where it stands.
hex_at :
    (pre rest : List ℕ) (b k : ℕ)
    → b < 256
    → k ≡ length pre
    → hex_to_u8 k (pre ++ hex_byte b rest) ≡ some b
hex_at pre rest b k h e =
    let at0 : k ≡ length pre + 0 = omega arith in
    let at1 : k + 1 ≡ length pre + 1 = omega arith in
    hex_to_u8-hex_byte b k (pre ++ hex_byte b rest) h
      (ap (get_elem? (pre ++ hex_byte b rest)) at0 ∙ get_elem?-after pre (hex_byte b rest) 0)
      (ap (get_elem? (pre ++ hex_byte b rest)) at1 ∙ get_elem?-after pre (hex_byte b rest) 1)

hex_bytes-append : (bs rest tail : List ℕ) → hex_bytes bs rest ++ tail ≡ hex_bytes bs (rest ++ tail)
hex_bytes-append [] rest tail = refl
hex_bytes-append (b ∷ bs) rest tail =
    ap (λ l. digit_char (b / 16) ∷ digit_char (b % 16) ∷ l) (hex_bytes-append bs rest tail)

fill_tx_step :
    (left i offset byte : ℕ) (buf tx : List ℕ)
    → hex_to_u8 (offset + i * 2) buf ≡ some byte
    → fill_tx (suc left) i offset buf tx ≡ fill_tx left (i + 1) offset buf (set tx i byte)
unfolding fill_tx
fill_tx_step left i offset byte buf tx h = rw (h, fill_tx) refl

-- The loop takes the bytes that the text was printed from.
fill_tx-hex_bytes :
    (bs pre rest done room : List ℕ) (i offset : ℕ)
    → AllBytes bs
    → i ≡ length done
    → offset + i * 2 ≡ length pre
    → length bs ≤ length room
    → fill_tx (length bs) i offset (pre ++ hex_bytes bs rest) (done ++ room)
      ≡ some (done ++ (bs ++ drop (length bs) room))
unfolding fill_tx
fill_tx-hex_bytes [] pre rest done room i offset bytes at place fits = refl
fill_tx-hex_bytes (b ∷ bs) pre rest done [] i offset bytes at place fits = absurd (omega arith)
fill_tx-hex_bytes (b ∷ bs) pre rest done (x ∷ room) i offset bytes at place fits =
    let digits = digit_char (b / 16) ∷ digit_char (b % 16) ∷ [] in
    let text = pre ++ hex_bytes (b ∷ bs) rest in
    let at0 : i ≡ length done + 0 = omega (arith, at) in
    let stored : set (done ++ (x ∷ room)) i b ≡ (done ++ (b ∷ [])) ++ room =
      ap (λ k. set (done ++ (x ∷ room)) k b) at0
      ∙ set_after done (x ∷ room) 0 b
      ∙ sym (append_assoc done (b ∷ []) room) in
    let split : text ≡ (pre ++ digits) ++ hex_bytes bs rest =
      sym (append_assoc pre digits (hex_bytes bs rest)) in
    fill_tx_step (length bs) i offset b text (done ++ (x ∷ room))
      (hex_at pre (hex_bytes bs rest) b (offset + i * 2) bytes.0 place)
    ∙ ap (fill_tx (length bs) (i + 1) offset text) stored
    ∙ ap (λ t. fill_tx (length bs) (i + 1) offset t ((done ++ (b ∷ [])) ++ room)) split
    ∙ fill_tx-hex_bytes bs (pre ++ digits) rest (done ++ (b ∷ [])) room (i + 1) offset bytes.1
        (omega (arith, at, length-append done (b ∷ [])))
        (omega (arith, place, length-append pre digits)) (omega arith)
    ∙ ap some (append_assoc done (b ∷ []) (bs ++ drop (length bs) room))

take_self : (bs room : List ℕ) → take (length bs) (bs ++ room) ≡ bs
take_self [] room = refl
take_self (b ∷ bs) room = ap (λ l. b ∷ l) (take_self bs room)

module _ (hw : TouchHw) where
  open hw use {World}

  write_register_lem :
      (n : ℕ) (buf tx : List ℕ) (d : DebugState) (w : World)
      → hex_to_u8 1 buf ≡ some n
      → fill_tx n 0 3 buf d.tx ≡ some tx
      → write_register hw buf (d, w)
        ≡ some (record d { tx = tx; rd_len = 0 }, (axs_write_bytes hw (take n tx) w).1)
  unfolding write_register
  write_register_lem n buf tx d w count filled = rw (count, filled, write_register) refl

  read_register_lem :
      (n m : ℕ) (buf tx : List ℕ) (d : DebugState) (w : World)
      → hex_to_u8 1 buf ≡ some n
      → hex_to_u8 3 buf ≡ some m
      → fill_tx n 0 5 buf d.tx ≡ some tx
      → (let r = axs_write_bytes_read_bytes hw (take n tx) (take m d.rx) w in
          read_register hw buf (d, w)
          ≡ some (record d { tx = tx; rx = r.1 ++ drop m d.rx; rd_len = m }, r.2))
  unfolding read_register
  read_register_lem n m buf tx d w count wanted filled =
      rw (count, wanted, filled, read_register) refl

  -- Bytes that are printed after `w` and their count are sent, and nothing is left to show.
  write_printed :
      (bs rest : List ℕ) (d : DebugState) (w : World)
      → AllBytes bs
      → length bs < 256
      → length bs ≤ length d.tx
      → axs_tprwreg_store hw (b'w' ∷ hex_byte (length bs) (hex_bytes bs rest)) (d, w)
        ≡ some
            (record d { tx = bs ++ drop (length bs) d.tx; rd_len = 0 }, (axs_write_bytes hw bs w).1)
  unfolding axs_tprwreg_store
  write_printed bs rest d w bytes small room =
      let text = b'w' ∷ hex_byte (length bs) (hex_bytes bs rest) in
      let buf = text ++ (0 ∷ []) in
      let count : hex_to_u8 1 buf ≡ some (length bs) =
        hex_at (b'w' ∷ []) (hex_bytes bs rest ++ (0 ∷ [])) (length bs) 1 small refl in
      let head = b'w' ∷ digit_char (length bs / 16) ∷ digit_char (length bs % 16) ∷ [] in
      let tx = bs ++ drop (length bs) d.tx in
      let filled : fill_tx (length bs) 0 3 buf d.tx ≡ some tx =
        ap (λ t. fill_tx (length bs) 0 3 (head ++ t) d.tx) (hex_bytes-append bs rest (0 ∷ []))
        ∙ fill_tx-hex_bytes bs head (rest ++ (0 ∷ [])) [] d.tx 0 3 bytes refl refl room in
      let long : ltb (length text) 3 ≡ false = ground arith in
      ap (λ b. if b then some (d, w) else write_register hw buf (d, w)) long
      ∙ write_register_lem (length bs) buf tx d w count filled
      ∙ ap (λ l. some (record d { tx = tx; rd_len = 0 }, (axs_write_bytes hw l w).1))
          (take_self bs (drop (length bs) d.tx))

  read_printed :
      (m : ℕ) (bs rest : List ℕ) (d : DebugState) (w : World)
      → AllBytes bs
      → m < 256
      → length bs < 256
      → length bs ≤ length d.tx
      → (let r = axs_write_bytes_read_bytes hw bs (take m d.rx) w in
          axs_tprwreg_store hw (b'r' ∷ hex_byte (length bs) (hex_byte m (hex_bytes bs rest))) (d, w)
          ≡ some (
            record d { tx = bs ++ drop (length bs) d.tx; rx = r.1 ++ drop m d.rx; rd_len = m },
            r.2,
          ))
  unfolding axs_tprwreg_store
  read_printed m bs rest d w bytes wanted small room =
      let text = b'r' ∷ hex_byte (length bs) (hex_byte m (hex_bytes bs rest)) in
      let buf = text ++ (0 ∷ []) in
      let count : hex_to_u8 1 buf ≡ some (length bs) =
        hex_at (b'r' ∷ []) (hex_byte m (hex_bytes bs rest ++ (0 ∷ []))) (length bs) 1 small refl in
      let head = b'r' ∷ digit_char (length bs / 16) ∷ digit_char (length bs % 16) ∷ [] in
      let asked : hex_to_u8 3 buf ≡ some m =
        hex_at head (hex_bytes bs rest ++ (0 ∷ [])) m 3 wanted refl in
      let head' = head ++ hex_byte m [] in
      let tx = bs ++ drop (length bs) d.tx in
      let filled : fill_tx (length bs) 0 5 buf d.tx ≡ some tx =
        ap (λ t. fill_tx (length bs) 0 5 (head' ++ t) d.tx) (hex_bytes-append bs rest (0 ∷ []))
        ∙ fill_tx-hex_bytes bs head' (rest ++ (0 ∷ [])) [] d.tx 0 5 bytes refl refl room in
      let long : ltb (length text) 3 ≡ false = ground arith in
      let longer : ltb (length text) 5 ≡ false = ground arith in
      let go = read_register hw buf (d, w) in
      ap (λ b. if b then some (d, w) else if ltb (length text) 5 then some (d, w) else go) long
      ∙ ap (λ b. if b then some (d, w) else go) longer
      ∙ read_register_lem (length bs) m buf tx d w count asked filled
      ∙ ap
          (λ l.
            let r = axs_write_bytes_read_bytes hw l (take m d.rx) w in
            some (record d { tx = tx; rx = r.1 ++ drop m d.rx; rd_len = m }, r.2))
          (take_self bs (drop (length bs) d.tx))

  -- A text in the form of the comment above axs_tprwreg_store has the bytes that it was printed from
  -- sent. `w`, the count of the bytes and the bytes: they are sent, and nothing is left to show. `r`,
  -- the count of the bytes, the count `m` of bytes to read and the bytes: they are sent, and what is
  -- received is the start of debug_rx_buf, with `m` bytes to show. What follows in the text is left
  -- alone. The bytes are fewer than 256, fit in debug_tx_buf, and each is below 256.
  pub axs_tprwreg_store-hex_bytes :
      (m : ℕ) (bs rest : List ℕ) (d : DebugState) (w : World)
      → AllBytes bs
      → m < 256
      → length bs < 256
      → length bs ≤ length d.tx
      → (let r = axs_write_bytes_read_bytes hw bs (take m d.rx) w in
          let tx = bs ++ drop (length bs) d.tx in
          (axs_tprwreg_store hw (b'w' ∷ hex_byte (length bs) (hex_bytes bs rest)) (d, w)
            ≡ some (record d { tx = tx; rd_len = 0 }, (axs_write_bytes hw bs w).1))
          × (axs_tprwreg_store hw
                (b'r' ∷ hex_byte (length bs) (hex_byte m (hex_bytes bs rest)))
                (d, w)
              ≡ some (record d { tx = tx; rx = r.1 ++ drop m d.rx; rd_len = m }, r.2)))
  axs_tprwreg_store-hex_bytes m bs rest d w bytes wanted small room = (
    write_printed bs rest d w bytes small room,
    read_printed m bs rest d w bytes wanted small room,
  )
