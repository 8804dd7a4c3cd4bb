-- ===== src/Touch/Frame.antt =====
-- axs_read_touchdata and axs_read_parse_touchdata of packages/axs-touch/src/axs_core.c. The check
-- of the ESD status is compiled out by AXS_ESD_CHECK_EN.
pub mod Laws
use ugreen_frontpanel.Base.{
  ℕ, zero, suc, ◌+◌, ◌*◌, ◌/◌, ◌%◌, Bool, true, false, ◌&&◌, ◌||◌, List, [], ◌∷◌, ltb, leb, ◌==◌,
  if◌then◌else◌, get_or, set, take, Result, ok, err,
}

abbrev pub axs_max_touch_number : ℕ
axs_max_touch_number = 1

abbrev pub axs_one_tch_len : ℕ
axs_one_tch_len = 6

abbrev pub axs_max_id : ℕ
axs_max_id = 5

pub record TsEvent : Type 0 where
  pub x : ℕ
  pub y : ℕ
  pub weight : ℕ
  pub flag : ℕ
  pub id : ℕ
  pub area : ℕ

-- The fields of `struct axs_ts_data` that a frame goes through.
pub record TsData : Type 0 where
  pub events : List TsEvent
  pub touchs : ℕ
  pub touch_point : ℕ

abbrev pub event_down : ℕ → Bool
event_down flag = flag == 0 || flag == 2

-- What axs_read_parse_touchdata returns: below 0, a gesture above 0, or 0.
pub data Parsed : Type 0 where
  failed : Parsed
  gesture : ℕ → Parsed
  points : Parsed

abbrev pub byte_sum : List ℕ → ℕ
byte_sum [] = 0
byte_sum (b ∷ bs) = b + byte_sum bs

-- The test of axs_read_touchdata: `crc_sum` has 8 bits.
unfoldable pub is_checked : List ℕ → Bool
is_checked buf = byte_sum (take 14 buf) % 256 == get_or buf 14 0

-- The event that the loop stores for position `i`.
unfoldable pub event_at : List ℕ → ℕ → TsEvent
event_at buf i =
    let at = λ (pos : ℕ). get_or buf (pos + axs_one_tch_len * i) 0 in
    record {
      x = at 2 % 16 * 256 + at 3;
      y = at 4 % 16 * 256 + at 5;
      weight = at 6;
      flag = at 2 / 64;
      id = at 4 / 16;
      area = at 7 / 16;
    }

-- The loop over the points from `i` on, `left` rounds before its end: whether it leaves the function
-- with -1.
unfoldable pub parse_points : ℕ → ℕ → ℕ → List ℕ → TsData → Bool × TsData
unfolding event_at
parse_points zero i point_num buf d = (false, d)
parse_points (suc left) i point_num buf d =
    let event = event_at buf i in
    let d' = record d { touch_point = d.touch_point + 1; events = set d.events i event } in
    let rest = parse_points left (i + 1) point_num buf d' in
    if leb axs_max_id event.id
    then (false, d)
    else if leb axs_max_touch_number event.id
    then (true, d)
    else if event_down event.flag && point_num == 0
    then (true, d')
    else rest

-- axs_read_parse_touchdata; `read` is what axs_read_buf gives, the 15 bytes or an error.
unfoldable pub axs_read_parse_touchdata : Result (List ℕ) → TsData → Parsed × TsData
unfolding parse_points
axs_read_parse_touchdata (err e) d = (failed, d)
axs_read_parse_touchdata (ok buf) d =
    let num = get_or buf 1 0 % 16 in
    let point_num = if ltb axs_max_touch_number num then axs_max_touch_number else num in
    let (aborted, d') = parse_points point_num 0 point_num buf (record d { touch_point = 0 }) in
    if is_checked buf
    then (if get_or buf 0 0 == 0
        then (if aborted || d'.touch_point == 0 then failed else points, d')
        else (gesture (get_or buf 0 0), d))
    else (failed, d)
