-- ===== src/Touch/Frame/Laws.antt =====
-- What a frame is taken for.
use ugreen_frontpanel.Base.{
  ltb, leb, Bool-cases, inl, inr, ℕ, ◌+◌, ◌/◌, ◌%◌, ◌≡◌, refl, true, false, List, arith, ◌==◌,
  if◌then◌else◌, get_or, set, length, length-set, ok,
}
use ugreen_frontpanel.Touch.Frame.{
  TsData, Parsed, failed, gesture, points, is_checked, event_at, parse_points,
  axs_read_parse_touchdata,
}

-- The number of points that the loop is given.
counted : (n : ℕ) → (if ltb 1 n then 1 else n) ≡ (if n == 0 then 0 else 1)
counted n = ground arith

no_point : (buf : List ℕ) (d : TsData) → parse_points 0 0 0 buf d ≡ (false, d)
unfolding parse_points
no_point buf d = refl

one_point :
    (buf : List ℕ) (d : TsData)
    → parse_points 1 0 1 buf d ≡ (
        if (event_at buf 0).id == 0
        then (
          false,
          record d { touch_point = d.touch_point + 1; events = set d.events 0 (event_at buf 0) },
        )
        else if leb 5 (event_at buf 0).id
        then (false, d)
        else (true, d))
unfolding parse_points
one_point buf d = ground arith

-- A frame is refused where its checksum is wrong; one whose checksum is right is a gesture where its
-- first byte says so, and else is a point where it counts at least one, and the first one's id is 0,
-- and is refused otherwise.
pub axs_read_parse_touchdata_lem :
    (buf : List ℕ) (d : TsData)
    → (axs_read_parse_touchdata (ok buf) d).0 ≡ (
        if is_checked buf
        then (if get_or buf 0 0 == 0
            then (if get_or buf 1 0 % 16 == 0
                then failed
                else if get_or buf 4 0 / 16 == 0
                then points
                else failed)
            else gesture (get_or buf 0 0))
        else failed)
unfolding axs_read_parse_touchdata parse_points event_at
axs_read_parse_touchdata_lem buf d =
    let start = record d { touch_point = 0 } in
    elim (Bool-cases (get_or buf 1 0 % 16 == 0)) [
      | inl none_counted ↦
          rw (counted (get_or buf 1 0 % 16), none_counted) (ground (arith, no_point buf start))
      | inr some_counted ↦
          rw (counted (get_or buf 1 0 % 16), some_counted) (ground (arith, one_point buf start))
    ]

-- What a frame does to the state: it never changes which touches are down, nor how
-- many events there are; and where it is a point,
-- that is stored as the one event, with the id 0.
pub record IsStored (buf : List ℕ) (d : TsData) (r : Parsed × TsData) : Type 0 where
  pub same_touchs : r.1.touchs ≡ d.touchs
  pub same_length : length r.1.events ≡ length d.events
  pub one_stored :
      r.0 ≡ points → r.1 ≡ record d { touch_point = 1; events = set d.events 0 (event_at buf 0) }
  pub id_zero : r.0 ≡ points → (event_at buf 0).id ≡ 0

pub axs_read_parse_touchdata-IsStored :
    (buf : List ℕ) (d : TsData) → IsStored buf d (axs_read_parse_touchdata (ok buf) d)
unfolding axs_read_parse_touchdata
axs_read_parse_touchdata-IsStored buf d =
    let start = record d { touch_point = 0 } in
    elim (Bool-cases (get_or buf 1 0 % 16 == 0)) [
      | inl none_counted ↦ record {
        same_touchs =
            rw (counted (get_or buf 1 0 % 16), none_counted) (ground (arith, no_point buf start));
        same_length =
            rw (counted (get_or buf 1 0 % 16), none_counted)
              (ground (arith, no_point buf start, length-set d.events 0 (event_at buf 0)));
        one_stored =
            rw (counted (get_or buf 1 0 % 16), none_counted)
              (λ h. ground (arith, h, no_point buf start));
        id_zero =
            rw (counted (get_or buf 1 0 % 16), none_counted)
              (λ h. ground (arith, h, no_point buf start));
      }
      | inr some_counted ↦ record {
        same_touchs =
            rw (counted (get_or buf 1 0 % 16), some_counted) (ground (arith, one_point buf start));
        same_length =
            rw (counted (get_or buf 1 0 % 16), some_counted)
              (ground (arith, one_point buf start, length-set d.events 0 (event_at buf 0)));
        one_stored =
            rw (counted (get_or buf 1 0 % 16), some_counted)
              (λ h. ground (arith, h, one_point buf start));
        id_zero =
            rw (counted (get_or buf 1 0 % 16), some_counted)
              (λ h. ground (arith, h, one_point buf start));
      }
    ]
