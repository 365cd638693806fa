-- ===== src/Lownet/Time/Difference.antt =====
-- Differences of times and their order.
use tol103m_assignment_p.Base.{ℕ, ◌+◌, ◌*◌, ◌≤◌, ◌<◌, ◌≡◌, ◌↔◌, arith}
use tol103m_assignment_p.Lownet.Time.{Time, minus_one, zero, one, compare_time, time_diff}

-- The range of the struct's fields.
pub record IsTime (t : Time) : Type 0 where
  pub seconds_width : t.seconds < 4294967296
  pub parts_width : t.parts < 256

-- A time as a number of 1/256 seconds, without wrap-around.
abbrev pub ticks : Time → ℕ
ticks t = t.seconds * 256 + t.parts

-- The difference is exact if `b` is not before `a` and less than 2^24 seconds after it, also where
-- the products of time_to_milliseconds wrap.
pub time_diff_exact :
    (a b : Time)
    → IsTime a
    → IsTime b
    → ticks a ≤ ticks b
    → ticks b < ticks a + 4294967296
    → (ticks (time_diff a b) + ticks a ≡ ticks b) × ((time_diff a b).parts < 256)
unfolding time_diff
time_diff_exact a b ha hb le near = (omega (arith, ha.parts_width, hb.parts_width), omega arith)

-- compare_time is the order of the instants: less, greater and equal, each exactly then.
pub compare_time_lem :
    (a b : Time)
    → IsTime a
    → IsTime b
    → ((compare_time a b ≡ minus_one) ↔ (ticks a < ticks b))
      × ((compare_time a b ≡ one) ↔ (ticks b < ticks a))
      × ((compare_time a b ≡ zero) ↔ (ticks a ≡ ticks b))
unfolding compare_time
compare_time_lem a b ha hb = ground arith
