-- ===== src/Touch/Report.antt =====
-- axs_input_report_b and axs_ts_report_thread_handler of packages/axs-touch/src/axs_core.c, in which
-- gestures are compiled out by AXS_GESTURE_EN.
pub mod Laws
use ugreen_frontpanel.Base.{
  ℕ, zero, suc, ◌+◌, ◌-◌, ◌*◌, ◌/◌, ◌%◌, ◌^◌, Bool, true, false, ◌&&◌, ◌||◌, not, List, [], ◌∷◌,
  ◌++◌, ltb, leb, ◌==◌, if◌then◌else◌, get_or, set, bit_or, Result,
}
use ugreen_frontpanel.Touch.Frame.{
  axs_max_touch_number, TsEvent, TsData, event_down, Parsed, failed, gesture, points,
  axs_read_parse_touchdata,
}

-- The calls of the input layer.
pub data Input : Type 0 where
  mt_slot : ℕ → Input
  slot_state : Bool → Input
  pressure : ℕ → Input
  touch_major : ℕ → Input
  position_x : ℕ → Input
  position_y : ℕ → Input
  btn_touch : ℕ → Input
  sync : Input

abbrev pub bit : ℕ → ℕ → Bool
bit mask i = mask / 2 ^ i % 2 == 1

abbrev pub differ : Bool → Bool → Bool
differ a b = if a then not b else b

-- `mask &= ~BIT(i)`
abbrev pub clear_bit : ℕ → ℕ → ℕ
clear_bit mask i = if bit mask i then mask - 2 ^ i else mask

abbrev pub no_event : TsEvent
no_event = record { x = 0; y = 0; weight = 0; flag = 0; id = 0; area = 0 }

-- What the loop over the events carries.
pub record Progress : Type 0 where
  pub touchs : ℕ
  pub va_reported : Bool
  pub down_points : ℕ
  pub inputs : List Input

-- A pressure or an area of 0 is replaced.
abbrev pub or_else : ℕ → ℕ → ℕ
or_else default n = if n == 0 then default else n

-- One round of the first loop.
unfoldable pub report_event : ℕ → TsData × Progress → TsData × Progress
report_event i (d, p) =
    let e = get_or d.events i no_event in
    let e' = record e { weight = or_else 0x3f e.weight; area = or_else 0x09 e.area } in
    if event_down e.flag
    then (
      record d { events = set d.events i e'; touchs = bit_or d.touchs (2 ^ e.id) },
      record {
        touchs = bit_or p.touchs (2 ^ e.id);
        va_reported = true;
        down_points = p.down_points + 1;
        inputs =
            p.inputs
            ++ (mt_slot e.id
                ∷ slot_state true
                ∷ pressure e'.weight
                ∷ touch_major e'.area
                ∷ position_x e.x
                ∷ position_y e.y
                ∷ []);
      },
    )
    else (
      record d { touchs = clear_bit d.touchs e.id },
      record p { va_reported = true; inputs = p.inputs ++ (mt_slot e.id ∷ slot_state false ∷ []) },
    )

unfoldable pub report_events : ℕ → ℕ → TsData × Progress → TsData × Progress
unfolding report_event
report_events zero i s = s
report_events (suc left) i s = report_events left (i + 1) (report_event i s)

-- The second loop: the slots that were down and are not in this frame.
unfoldable pub release_missed : ℕ → ℕ → TsData → Progress → Progress
release_missed zero i d p = p
release_missed (suc left) i d p =
    let missed = record p {
      va_reported = true;
      inputs = p.inputs ++ (mt_slot i ∷ slot_state false ∷ []);
    } in
    release_missed left (i + 1) d (if differ (bit d.touchs i) (bit p.touchs i) then missed else p)

-- axs_input_report_b: the state after it, and the calls of the input layer in order.
unfoldable pub axs_input_report_b : TsData → TsData × List Input
unfolding report_events release_missed
axs_input_report_b d =
    let start : Progress = record {
      touchs = 0;
      va_reported = false;
      down_points = 0;
      inputs = [];
    } in
    let (d1, p1) = report_events d.touch_point 0 (d, start) in
    let p2 = release_missed axs_max_touch_number 0 d1 p1 in
    let button =
      if p2.va_reported then btn_touch (if p2.down_points == 0 then 0 else 1) ∷ [] else [] in
    (record d1 { touchs = p2.touchs }, p2.inputs ++ (button ++ (sync ∷ [])))

-- What the handler does with a parsed frame: a gesture, or one that is refused, tells nothing.
unfoldable pub report_parsed : Parsed × TsData → TsData × List Input
report_parsed (failed, d) = (d, [])
report_parsed (gesture n, d) = (d, [])
report_parsed (points, d) = axs_input_report_b d

unfoldable pub axs_ts_report_thread_handler : Result (List ℕ) → TsData → TsData × List Input
unfolding report_parsed
axs_ts_report_thread_handler read d = report_parsed (axs_read_parse_touchdata read d)

-- axs_release_all_finger
unfoldable pub axs_release_all_finger : TsData → TsData × List Input
axs_release_all_finger d = (
  record d { touchs = 0; touch_point = 0 },
  mt_slot 0 ∷ slot_state false ∷ btn_touch 0 ∷ sync ∷ [],
)
