-- ===== src/Touch/Flash/Check.antt =====
-- What the read-back of axs_fwupg_flash_read_check finds.
use ugreen_frontpanel.Base.{
  ℕ, zero, suc, ◌+◌, ◌-◌, ◌*◌, ◌≤◌, ◌<◌, ◌≡◌, refl, ap, subst, sym, ◌∙◌, ◌↔◌, Bool, true, false,
  List, [], ◌∷◌, ◌++◌, arith, ltb, if◌then◌else◌, length, length-append, get_or, take, drop,
  replicate, Bool-cases, inl, inr,
}
use ugreen_frontpanel.Touch.Bus.{TouchHw}
use ugreen_frontpanel.Touch.Bus.Laws.{asked}
use ugreen_frontpanel.Touch.Packet.{total_packets, current_size}
use ugreen_frontpanel.Touch.Packet.Laws.{
  current_size-IsPacket, cursor, cursor_next, cursor_start, drop-get_or, memcmp_eq-Agree,
  Agree-memcmp_eq, length-take, length-drop,
}
use ugreen_frontpanel.Touch.Flash.{
  read_page, check_packet, check_packets, axs_fwupg_flash_read_check,
}
use ugreen_frontpanel.Touch.Flash.Device.{Memory, IsFlash}
use ugreen_frontpanel.Touch.Flash.Laws.{transfer}

-- The memory has the firmware's bytes from `from` up to `to`.
abbrev pub Matches : List ℕ → ℕ → ℕ → Memory → Type 0
Matches fw from to m = (b : ℕ) → from ≤ b → b < to → m b ≡ get_or fw b 0

append-get_or : (xs ys : List ℕ) (i : ℕ) → i < length xs → get_or (xs ++ ys) i 0 ≡ get_or xs i 0
append-get_or [] ys i h = absurd (omega arith)
append-get_or (x ∷ xs) ys zero h = refl
append-get_or (x ∷ xs) ys (suc i) h = append-get_or xs ys i (omega arith)

module _ (hw : TouchHw) (flash : IsFlash hw) where
  open hw use {World}
  open flash use {memory, busy}

  -- A packet is found to be the same exactly where the memory has its bytes.
  record IsChecked (fw : List ℕ) (from to : ℕ) (w : World) (r : Bool × List ℕ × World)
      : Type 0 where
    sound : r.0 ≡ true → Matches fw from to (memory w)
    complete : Matches fw from to (memory w) → r.0 ≡ true
    same_length : length r.1 ≡ 257
    same_memory : memory r.2 ≡ memory w
    idle : busy r.2 ≡ 0

  check_packet-IsChecked :
      (num : ℕ) (fw tmpbuf : List ℕ) (w : World)
      → let total = total_packets (length fw) in
        let size = current_size num total (length fw) in
        length fw ≤ 16777216
        → 1 ≤ num
        → num ≤ total
        → length tmpbuf ≡ 257
        → busy w ≡ 0
        → IsChecked fw
            ((num - 1) * 256)
            ((num - 1) * 256 + size)
            w
            (check_packet hw num total fw (length fw) tmpbuf w)
  unfolding check_packet
  check_packet-IsChecked num fw tmpbuf w small first within room idle =
      let total = total_packets (length fw) in
      let size = current_size num total (length fw) in
      let addr = (num - 1) * 256 in
      let packet = current_size-IsPacket num (length fw) first within in
      let asked_w = asked hw (read_page size addr) w in
      let buf0 = take (size + 1) tmpbuf in
      let whole : length buf0 ≡ size + 1 =
        length-take (size + 1) tmpbuf (omega (arith, room, packet.size_bound)) in
      let got = hw.i2c_master_recv buf0 asked_w in
      let answered : length got.1 ≡ size + 1 = flash.recv_length buf0 asked_w ∙ whole in
      let waiting =
        flash.page_pending size addr w packet.size_bound (omega (arith, packet.begins)) idle in
      let byte : (i : ℕ)
          → i < size
          → get_or (drop 1 (got.1 ++ drop (size + 1) tmpbuf)) i 0 ≡ memory w (addr + i) =
        λ i lt.
          let e : 1 + i ≡ i + 1 = omega arith in
          drop-get_or 1 (got.1 ++ drop (size + 1) tmpbuf) i
          ∙ ap (λ k. get_or (got.1 ++ drop (size + 1) tmpbuf) k 0) e
          ∙ append-get_or got.1 (drop (size + 1) tmpbuf) (i + 1) (omega (arith, answered))
          ∙ flash.page_value buf0 addr i asked_w waiting (omega (arith, whole))
          ∙ ap (λ (m : Memory). m (addr + i)) (flash.page_memory size addr w) in
      rw
        (transfer hw flash (read_page size addr) buf0 w (omega arith) (omega arith)
          (omega (arith, whole, packet.size_bound)))
        (record {
          sound = λ same b low high.
              let e : addr + (b - addr) ≡ b = omega arith in
              let lt : b - addr < size = omega arith in
              subst (λ k. memory w k ≡ get_or fw k 0) e
                (sym (byte (b - addr) lt)
                  ∙ sym (memcmp_eq-Agree size _ _ same (b - addr) lt)
                  ∙ drop-get_or addr fw (b - addr));
          complete = λ held. Agree-memcmp_eq size _ _ (λ i lt.
              drop-get_or addr fw i
              ∙ sym (held (addr + i) (omega arith) (omega arith))
              ∙ sym (byte i lt));
          same_length = omega (
            arith,
            answered,
            room,
            packet.size_bound,
            length-append got.1 (drop (size + 1) tmpbuf),
            length-drop (size + 1) tmpbuf,
          );
          same_memory = flash.recv_memory buf0 asked_w ∙ flash.page_memory size addr w;
          idle = omega (arith, flash.recv_busy buf0 asked_w, flash.page_busy size addr w idle);
        })

  -- The packets from one on are found to be the same exactly where the memory has their bytes.
  pub record IsCompared (fw : List ℕ) (from to : ℕ) (w : World) (r : Bool × World) : Type 0 where
    pub sound : r.0 ≡ true → Matches fw from to (memory w)
    pub complete : Matches fw from to (memory w) → r.0 ≡ true
    pub same_memory : memory r.1 ≡ memory w

  -- A packet that is the same, and the comparison of the rest.
  IsCompared-next :
      (fw : List ℕ) (from mid to : ℕ) (w : World) (r : Bool × List ℕ × World) (q : Bool × World)
      → from ≤ mid
      → mid ≤ to
      → IsChecked fw from mid w r
      → IsCompared fw mid to r.2 q
      → IsCompared fw from to w (if r.0 then q else (false, r.2))
  IsCompared-next fw from mid to w (true, tmpbuf, w') q low high one rest = record {
    sound = λ same b ge lt. elim (Bool-cases (ltb b mid)) [
      | inl before ↦ one.sound refl b ge (ground arith)
      | inr after ↦
          ap (λ (m : Memory). m b) (sym one.same_memory) ∙ rest.sound same b (ground arith) lt
    ];
    complete = λ held.
        rest.complete
          (λ b ge lt. ap (λ (m : Memory). m b) one.same_memory ∙ held b (omega arith) lt);
    same_memory = rest.same_memory ∙ one.same_memory;
  }
  IsCompared-next fw from mid to w (false, tmpbuf, w') q low high one rest = record {
    sound = λ same. cc;
    complete = λ held. one.complete (λ b ge lt. held b ge (omega arith));
    same_memory = one.same_memory;
  }

  check_packets-IsCompared :
      (left num : ℕ) (fw tmpbuf : List ℕ) (w : World)
      → let total = total_packets (length fw) in
        length fw ≤ 16777216
        → 1 ≤ num
        → num + left ≡ total + 1
        → length tmpbuf ≡ 257
        → busy w ≡ 0
        → IsCompared fw
            (cursor left num (length fw))
            (length fw)
            w
            (check_packets hw left num total fw (length fw) tmpbuf w)
  unfolding check_packets
  check_packets-IsCompared zero num fw tmpbuf w small first count room idle = record {
    sound = λ same b ge lt. absurd (omega arith);
    complete = λ held. refl;
    same_memory = refl;
  }
  check_packets-IsCompared (suc left) num fw tmpbuf w small first count room idle =
      let total = total_packets (length fw) in
      let r = check_packet hw num total fw (length fw) tmpbuf w in
      let one =
        check_packet-IsChecked num fw tmpbuf w small first (omega (arith, count)) room idle in
      let packet = current_size-IsPacket num (length fw) first (omega (arith, count)) in
      let next = cursor_next left num (length fw) first (omega (arith, count)) in
      let rest =
        check_packets-IsCompared left (num + 1) fw r.1 r.2 small (omega arith)
          (omega (arith, count)) one.same_length one.idle in
      IsCompared-next fw ((num - 1) * 256) (cursor left (num + 1) (length fw)) (length fw) w r _
        (omega (arith, next)) (omega (arith, next, packet.inside))
        (subst (λ k. IsChecked fw ((num - 1) * 256) k w r) next one) rest

  -- The read-back succeeds exactly where the flash has the firmware, and changes nothing.
  pub axs_fwupg_flash_read_check-IsCompared :
      (fw : List ℕ) (w : World)
      → length fw ≤ 16777216
      → busy w ≡ 0
      → IsCompared fw 0 (length fw) w (axs_fwupg_flash_read_check hw true fw (length fw) w)
  unfolding axs_fwupg_flash_read_check
  axs_fwupg_flash_read_check-IsCompared fw w small idle =
      subst
        (λ k. IsCompared fw k (length fw) w (axs_fwupg_flash_read_check hw true fw (length fw) w))
        (cursor_start (length fw))
        (check_packets-IsCompared (total_packets (length fw)) 1 fw (replicate 257 0) w small
          (omega arith) (omega arith) refl idle)

  -- With a flash that is ready, the buffer allocated, and a firmware within 24 bits of address, the
  -- read-back succeeds exactly where the flash has each byte of the firmware in its place, and it
  -- changes no byte.
  pub axs_fwupg_flash_read_check_iff :
      (fw : List ℕ) (w : World)
      → length fw ≤ 16777216
      → busy w ≡ 0
      → let (same, w') = axs_fwupg_flash_read_check hw true fw (length fw) w in
        ((same ≡ true) ↔ ((b : ℕ) → b < length fw → memory w b ≡ get_or fw b 0))
        × (memory w' ≡ memory w)
  axs_fwupg_flash_read_check_iff fw w small idle =
      let compared = axs_fwupg_flash_read_check-IsCompared fw w small idle in
      (
        (
          λ same b lt. compared.sound same b (omega arith) lt,
          λ held. compared.complete (λ b ge lt. held b lt),
        ),
        compared.same_memory,
      )
