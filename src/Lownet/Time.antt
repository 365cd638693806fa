-- ===== src/Lownet/Time.antt =====
-- lownet_time_t and managed_components/lownet/lownet_util.c, but for the two format functions.
pub mod Difference
use tol103m_assignment_p.Base.{ℕ, ◌+◌, ◌*◌, ◌/◌, ◌%◌, u8, u32, sub32, ltb, if◌then◌else◌}

-- `parts` counts 1/256 seconds.
pub record Time : Type 0 where
  pub seconds : ℕ
  pub parts : ℕ

abbrev pub time_resolution : ℕ
time_resolution = 256

unfoldable pub time_to_milliseconds : Time → ℕ
time_to_milliseconds t = u32 (u32 (t.seconds * time_resolution) + t.parts)

unfoldable pub time_from_milliseconds : ℕ → Time
time_from_milliseconds millis = record {
  seconds = millis / time_resolution;
  parts = u8 (millis % time_resolution);
}

-- The three results -1, 0 and 1.
pub data Sign : Type 0 where
  minus_one zero one : Sign

unfoldable pub compare_time : Time → Time → Sign
compare_time lhs rhs =
    if ltb lhs.seconds rhs.seconds
    then minus_one
    else (if ltb rhs.seconds lhs.seconds
        then one
        else (if ltb lhs.parts rhs.parts
            then minus_one
            else (if ltb rhs.parts lhs.parts then one else zero)))

unfoldable pub time_diff : Time → Time → Time
unfolding time_to_milliseconds time_from_milliseconds
time_diff a b = time_from_milliseconds (sub32 (time_to_milliseconds b) (time_to_milliseconds a))
