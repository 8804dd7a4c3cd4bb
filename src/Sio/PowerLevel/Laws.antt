-- ===== src/Sio/PowerLevel/Laws.antt =====
-- The power level: what a write stores and a read gives back, and which texts are refused.
use ugreen_frontpanel.Base.{
  ℕ, ◌<◌, ◌≡◌, ◌≢◌, Bool, true, false, ◌&&◌, List, Option, none, some, arith, leb, if◌then◌else◌,
  length, pad, pos, negsuc, Ssize, count, error, einval, fault, Io, pure, Bool-cases, inl, inr,
  subst, sym, ap, refl, ◌∙◌, ltb, not,
}
use ugreen_frontpanel.Ec.Ports.{Ports}
use ugreen_frontpanel.Ec.Helper.{ec_request_ports, ec_read_memory, ec_write_memory}
use ugreen_frontpanel.Ec.Device.{store, IsController}
use ugreen_frontpanel.Ec.Transfer.{
  ec_read_memory_lem, ec_write_memory_lem, ec_request_ports-memory, ec_release_ports-memory,
}
use ugreen_frontpanel.ProcFile.{UserBuffer, line, refused, wild, copy_unchecked}
use ugreen_frontpanel.Sio.PowerLevel.{
  Parsed, number, malformed, past_end, set_level, pwr_write, pwr_read,
}

module _ (hw : Ports) (ec : IsController hw) where
  open ec use {memory}

  set_level-memory :
      (n level : ℕ) (w : hw.World)
      → level < 8
      → ((set_level hw n (pos level) w).0 ≡ count n)
        × (memory (set_level hw n (pos level) w).1 ≡ store (store (memory w) 0xA0 1) 0xA1 level)
  unfolding set_level
  set_level-memory n level w small =
      let w0 = (ec_request_ports hw w).1 in
      let w1 = (ec_write_memory hw 0xA0 1 w0).1 in
      let w2 = (ec_write_memory hw 0xA1 level w1).1 in
      ground (
        arith,
        ec_request_ports-memory hw ec w,
        ec_write_memory_lem hw ec 0xA0 1 w0,
        ec_write_memory_lem hw ec 0xA1 level w1,
        ec_release_ports-memory hw ec w2,
      )

  pwr_read_lem :
      (w : hw.World) → ((pwr_read hw w).0 ≡ memory w 0xA1) × (memory (pwr_read hw w).1 ≡ memory w)
  unfolding pwr_read
  pwr_read_lem w =
      let w0 = (ec_request_ports hw w).1 in
      let r = ec_read_memory hw 0xA1 w0 in
      ground (
        arith,
        ec_request_ports-memory hw ec w,
        ec_read_memory_lem hw ec 0xA1 w0,
        ec_release_ports-memory hw ec r.1,
      )

  -- The level asked for, or none, in what a write gives and in the state after it.
  abbrev pub LevelOutcome : ℕ → Option ℕ → hw.World → Ssize × hw.World → Type 0
  LevelOutcome n none w (r, w') = (r ≡ error einval) × (memory w' ≡ memory w)
  LevelOutcome n (some level) w (r, w') =
      (r ≡ count n)
      × (memory w' ≡ store (store (memory w) 0xA0 1) 0xA1 level)
      × ((pwr_read hw w').0 ≡ level)

  abbrev pub level_of : Parsed → Option ℕ
  level_of (number (pos level)) = if leb 8 level then none else some level
  level_of _ = none

  -- From the parser on.
  abbrev store_parsed : ℕ → Parsed → Io hw.World Ssize
  store_parsed n p = elim p [
    | number in_data ↦ set_level hw n in_data
    | malformed ↦ pure (error einval)
    | past_end ↦ pure fault
  ]

  level-LevelOutcome :
      (n level : ℕ) (w : hw.World)
      → LevelOutcome n (if leb 8 level then none else some level) w (set_level hw n (pos level) w)
  unfolding set_level
  level-LevelOutcome n level w = elim (Bool-cases (leb 8 level)) [
    | inl high ↦ rw high (refl, refl)
    | inr low ↦
        let stored = set_level-memory n level w (ground arith) in
        let seen = pwr_read_lem (set_level hw n (pos level) w).1 in
        subst
          (λ b. LevelOutcome n (if b then none else some level) w (set_level hw n (pos level) w))
          (sym low) (stored.0, stored.1, seen.0 ∙ ap (λ m. m 0xA1) stored.1 ∙ ground arith)
  ]

  parsed-LevelOutcome :
      (p : Parsed) (n : ℕ) (w : hw.World)
      → p ≢ past_end
      → LevelOutcome n (level_of p) w (store_parsed n p w)
  unfolding set_level
  parsed-LevelOutcome (number (pos level)) n w ends = level-LevelOutcome n level w
  parsed-LevelOutcome (number (negsuc k)) n w ends = (refl, refl)
  parsed-LevelOutcome malformed n w ends = (refl, refl)
  parsed-LevelOutcome past_end n w ends = absurd (ends refl)

  copied-LevelOutcome :
      (readable long : Bool) (kstrtoint : List ℕ → Parsed) (buf : List ℕ) (n : ℕ) (w : hw.World)
      → kstrtoint buf ≢ past_end
      → LevelOutcome n (if readable && not long then level_of (kstrtoint buf) else none) w (
          (elim (if long then refused einval else if readable then line buf else refused einval)
              as (λ x. Io hw.World Ssize) [
                | line buf ↦ store_parsed n (kstrtoint buf)
                | refused e ↦ pure (error e)
                | wild ↦ pure fault
              ])
            w)
  copied-LevelOutcome true true kstrtoint buf n w ends = (refl, refl)
  copied-LevelOutcome true false kstrtoint buf n w ends =
      parsed-LevelOutcome (kstrtoint buf) n w ends
  copied-LevelOutcome false true kstrtoint buf n w ends = (refl, refl)
  copied-LevelOutcome false false kstrtoint buf n w ends = (refl, refl)

  -- What a write and a read after it do, for what the parser makes of the text that stands in the
  -- buffer of eight bytes. A text that is longer, or cannot be read, is refused with -EINVAL, as is one
  -- that holds no number, or one that is not a level from 0 to 7; the memory is then as it was. A level
  -- is stored with the whole write taken, and a read gives it back.
  pub pwr_read-pwr_write :
      (kstrtoint : List ℕ → Parsed) (user : UserBuffer) (w : hw.World)
      → kstrtoint (pad 8 user.bytes) ≢ past_end
      → LevelOutcome
          (length user.bytes)
          (if user.readable && leb (length user.bytes) 8
            then level_of (kstrtoint (pad 8 user.bytes))
            else none)
          w
          (pwr_write hw kstrtoint user w)
  unfolding pwr_write copy_unchecked
  pwr_read-pwr_write kstrtoint user w ends =
      let n = length user.bytes in
      let p = kstrtoint (pad 8 user.bytes) in
      let fits : not (ltb 8 n) ≡ leb n 8 = ground arith in
      subst
        (λ b.
          LevelOutcome n (if user.readable && b then level_of p else none) w
            (pwr_write hw kstrtoint user w))
        fits (copied-LevelOutcome user.readable (ltb 8 n) kstrtoint (pad 8 user.bytes) n w ends)
