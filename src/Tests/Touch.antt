-- ===== src/Tests/Touch.antt =====
-- Frames of the touch controller, and runs of the touch driver on them.
use ugreen_frontpanel.Base.{ℕ, ◌≡◌, refl, arith, true, false, List, [], ◌∷◌, ok}
use ugreen_frontpanel.Touch.Frame.{
  TsData, is_checked, parse_points, event_at, axs_read_parse_touchdata,
}
use ugreen_frontpanel.Touch.Report.{
  no_event, report_parsed, axs_ts_report_thread_handler, axs_input_report_b, report_events,
  report_event, release_missed,
}
use ugreen_frontpanel.Touch.Report.Laws.{Panel, IsTracked, interrupt, run}

-- A touch at (288, 560), the same touch lifted, and the touch with one byte garbled.
abbrev pub frame : ℕ → ℕ → List ℕ
frame first sum = 0 ∷ 1 ∷ first ∷ 32 ∷ 2 ∷ 48 ∷ 16 ∷ 80 ∷ 0 ∷ 0 ∷ 0 ∷ 0 ∷ 0 ∷ 0 ∷ sum ∷ []

abbrev pub down_frame : List ℕ
down_frame = frame 1 180

abbrev pub up_frame : List ℕ
up_frame = frame 65 244

abbrev garbled_frame : List ℕ
garbled_frame = frame 65 180

abbrev pub idle_driver : TsData
idle_driver = record { events = no_event ∷ []; touchs = 0; touch_point = 0 }

abbrev pub idle_panel : Panel
idle_panel = record { slot = 0; active = λ i. false; button = 0 }

abbrev pub idle-IsTracked_start : IsTracked idle_driver idle_panel
idle-IsTracked_start = record {
  one_event = refl;
  mask_bound = omega arith;
  slot_agrees = refl;
  button_agrees = refl;
}

down_checked : is_checked down_frame ≡ true
unfolding is_checked
down_checked = refl

garbled_checked : is_checked garbled_frame ≡ false
unfolding is_checked
garbled_checked = refl

-- The touch is held while garbled frames arrive.
down_held :
    let (d, q) =
      run
        (interrupt (ok down_frame) ∷ interrupt (ok garbled_frame) ∷ [])
        (idle_driver, idle_panel) in
    (q.active 0 ≡ true) × (q.button ≡ 1) × (d.touchs ≡ 1)
unfolding axs_ts_report_thread_handler axs_read_parse_touchdata axs_input_report_b is_checked
    report_events report_event release_missed parse_points event_at report_parsed
down_held = (refl, refl, refl)
