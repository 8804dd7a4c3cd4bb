-- ===== src/Touch/Report/Laws.antt =====
-- What the input layer believes of the one touch, against what the driver keeps.
use ugreen_frontpanel.Base.{
  ℕ, zero, suc, ◌≤◌, ◌≡◌, ◌∙◌, Errno, refl, ap, Bool, true, false, List, [], ◌∷◌, arith, ◌==◌,
  if◌then◌else◌, set, length, ok, err, Result, Bool-cases, inl, inr,
}
use ugreen_frontpanel.Touch.Frame.{
  TsEvent, TsData, Parsed, failed, gesture, points, event_down, event_at, axs_read_parse_touchdata,
}
use ugreen_frontpanel.Touch.Frame.Laws.{IsStored, axs_read_parse_touchdata-IsStored}
use ugreen_frontpanel.Touch.Report.{
  Input, mt_slot, slot_state, pressure, touch_major, position_x, position_y, btn_touch, sync,
  or_else, report_event, report_events, release_missed, axs_input_report_b, report_parsed,
  axs_ts_report_thread_handler, axs_release_all_finger,
}

-- The input layer: the slot that it is at, which slots are touched, and the button.
pub record Panel : Type 0 where
  pub slot : ℕ
  pub active : ℕ → Bool
  pub button : ℕ

abbrev pub apply : Input → Panel → Panel
apply (mt_slot i) q = record q { slot = i }
apply (slot_state b) q = record q { active = λ i. if i == q.slot then b else q.active i }
apply (btn_touch n) q = record q { button = n }
apply _ q = q

abbrev pub apply_all : List Input → Panel → Panel
apply_all [] q = q
apply_all (x ∷ xs) q = apply_all xs (apply x q)

-- The driver's mask is that of the one slot, and the input layer agrees with it.
pub record IsTracked (d : TsData) (q : Panel) : Type 0 where
  pub one_event : length d.events ≡ 1
  pub mask_bound : d.touchs ≤ 1
  pub slot_agrees : q.active 0 ≡ (d.touchs == 1)
  pub button_agrees : q.button ≡ d.touchs

-- An event with the id 0, and the state with just that event.
abbrev event_of : ℕ → ℕ → ℕ → ℕ → ℕ → TsEvent
event_of x y weight flag area = record {
  x = x;
  y = y;
  weight = weight;
  flag = flag;
  id = 0;
  area = area;
}

abbrev with_event : ℕ → TsEvent → TsData
with_event touchs e = record { events = e ∷ []; touchs = touchs; touch_point = 1 }

-- The two shapes of a report of one event.
report_down :
    (t x y weight flag area : ℕ)
    → t ≤ 1
    → event_down flag ≡ true
    → axs_input_report_b (with_event t (event_of x y weight flag area)) ≡ (
      with_event 1 (event_of x y (or_else 0x3f weight) flag (or_else 0x09 area)),
      mt_slot 0
          ∷ slot_state true
          ∷ pressure (or_else 0x3f weight)
          ∷ touch_major (or_else 0x09 area)
          ∷ position_x x
          ∷ position_y y
          ∷ btn_touch 1
          ∷ sync
          ∷ [],
    )
unfolding axs_input_report_b report_events report_event release_missed
report_down zero x y weight flag area small down = rw down refl
report_down (suc zero) x y weight flag area small down = rw down refl
report_down (suc (suc t)) x y weight flag area small down = absurd (omega arith)

report_up :
    (t x y weight flag area : ℕ)
    → t ≤ 1
    → event_down flag ≡ false
    → axs_input_report_b (with_event t (event_of x y weight flag area)) ≡ (
      with_event 0 (event_of x y weight flag area),
      mt_slot 0 ∷ slot_state false ∷ btn_touch 0 ∷ sync ∷ [],
    )
unfolding axs_input_report_b report_events report_event release_missed
report_up zero x y weight flag area small up = rw up refl
report_up (suc zero) x y weight flag area small up = rw up refl
report_up (suc (suc t)) x y weight flag area small up = absurd (omega arith)

-- A report of one event with the id 0 keeps the input layer in step.
report-IsTracked :
    (t : ℕ) (e : TsEvent) (q : Panel)
    → t ≤ 1
    → e.id ≡ 0
    → let (d', inputs) = axs_input_report_b (with_event t e) in IsTracked d' (apply_all inputs q)
report-IsTracked t e q small id_zero =
    let e0 = event_of e.x e.y e.weight e.flag e.area in
    let same : e ≡ e0 = ap (λ i. record e { id = i }) id_zero in
    rw same (elim (Bool-cases (event_down e.flag)) [
      | inl down ↦ rw (report_down t e.x e.y e.weight e.flag e.area small down) record {
        one_event = refl;
        mask_bound = omega arith;
        slot_agrees = refl;
        button_agrees = refl;
      }
      | inr up ↦ rw (report_up t e.x e.y e.weight e.flag e.area small up) record {
        one_event = refl;
        mask_bound = omega arith;
        slot_agrees = refl;
        button_agrees = refl;
      }
    ])

set_single : (es : List TsEvent) (e : TsEvent) → length es ≡ 1 → set es 0 e ≡ e ∷ []
set_single [] e h = absurd (omega arith)
set_single (x ∷ []) e h = refl
set_single (x ∷ y ∷ es) e h = absurd (omega arith)

-- Where nothing is told, a state with the same mask stays in step.
idle-IsTracked :
    (d d' : TsData) (q : Panel)
    → IsTracked d q
    → d'.touchs ≡ d.touchs
    → length d'.events ≡ length d.events
    → IsTracked d' q
idle-IsTracked d d' q tracked same_touchs same_length = record {
  one_event = same_length ∙ tracked.one_event;
  mask_bound = rw same_touchs tracked.mask_bound;
  slot_agrees = rw same_touchs tracked.slot_agrees;
  button_agrees = rw same_touchs tracked.button_agrees;
}

refused-IsTracked :
    (e : Errno) (d : TsData) (q : Panel)
    → IsTracked d q
    → let (d', inputs) = axs_ts_report_thread_handler (err e) d in IsTracked d' (apply_all inputs q)
unfolding axs_ts_report_thread_handler axs_read_parse_touchdata
refused-IsTracked e d q tracked = tracked

-- A frame that was parsed keeps the input layer in step, whatever is then done with it.
parsed-IsTracked :
    (buf : List ℕ) (d : TsData) (q : Panel) (r : Parsed × TsData)
    → IsTracked d q
    → IsStored buf d r
    → IsTracked (report_parsed r).0 (apply_all (report_parsed r).1 q)
unfolding report_parsed
parsed-IsTracked buf d q (failed, d') tracked stored =
    idle-IsTracked d d' q tracked stored.same_touchs stored.same_length
parsed-IsTracked buf d q (gesture n, d') tracked stored =
    idle-IsTracked d d' q tracked stored.same_touchs stored.same_length
parsed-IsTracked buf d q (points, d') tracked stored =
    rw (stored.one_stored refl, set_single d.events (event_at buf 0) tracked.one_event)
      (report-IsTracked d.touchs (event_at buf 0) q tracked.mask_bound (stored.id_zero refl))

pub handler-IsTracked :
    (read : Result (List ℕ)) (d : TsData) (q : Panel)
    → IsTracked d q
    → let (d', inputs) = axs_ts_report_thread_handler read d in IsTracked d' (apply_all inputs q)
unfolding axs_ts_report_thread_handler
handler-IsTracked (ok buf) d q tracked =
    parsed-IsTracked buf d q _ tracked (axs_read_parse_touchdata-IsStored buf d)
handler-IsTracked (err e) d q tracked = refused-IsTracked e d q tracked

-- What happens to the driver: an interrupt, with what the bus gives, and the release of all fingers.
pub data Event : Type 0 where
  interrupt : Result (List ℕ) → Event
  release : Event

abbrev pub handle : Event → TsData → TsData × List Input
handle (interrupt read) d = axs_ts_report_thread_handler read d
handle release d = axs_release_all_finger d

abbrev pub run : List Event → TsData × Panel → TsData × Panel
run [] s = s
run (v ∷ vs) (d, q) = let (d', inputs) = handle v d in run vs (d', apply_all inputs q)

pub handle-IsTracked :
    (v : Event) (d : TsData) (q : Panel)
    → IsTracked d q
    → let (d', inputs) = handle v d in IsTracked d' (apply_all inputs q)
unfolding axs_release_all_finger
handle-IsTracked (interrupt read) d q tracked = handler-IsTracked read d q tracked
handle-IsTracked release d q tracked = record {
  one_event = tracked.one_event;
  mask_bound = omega arith;
  slot_agrees = refl;
  button_agrees = refl;
}

-- Whatever frames the bus gives, read or refused, and wherever between them all fingers are
-- released, the input layer stays in step with the driver: the slot 0 is touched, and the button is
-- down, exactly when the driver's mask has the touch, where they were in step at first.
pub run-IsTracked :
    (vs : List Event) (d : TsData) (q : Panel)
    → IsTracked d q
    → IsTracked (run vs (d, q)).0 (run vs (d, q)).1
run-IsTracked [] d q tracked = tracked
run-IsTracked (v ∷ vs) d q tracked =
    let (d', inputs) = handle v d in
    run-IsTracked vs d' (apply_all inputs q) (handle-IsTracked v d q tracked)
