-- ===== src/Ping/Packet.antt =====
-- What ping_packet reads of a payload that ping_bytes was written to.
use tol103m_assignment_p.Base.{
  ℕ, zero, suc, ◌≤◌, ◌≡◌, refl, sym, ap, ◌∙◌, arith, List, [], ◌∷◌, ◌++◌, take, drop, get_or,
  take-append-drop, from_le32-le32,
}
use tol103m_assignment_p.Lownet.Time.{Time}
use tol103m_assignment_p.Lownet.Time.Difference.{IsTime}
use tol103m_assignment_p.Lownet.Net.{Net, time_of_bytes, lownet_get_time}
use tol103m_assignment_p.Ping.{PingPacket, time_bytes, ping_bytes, ping_packet}

pub take-take : {A : Type 0} (m n : ℕ) (xs : List A) → m ≤ n → take m (take n xs) ≡ take m xs
take-take zero n xs h = refl
take-take (suc m) zero xs h = absurd (omega arith)
take-take (suc m) (suc n) [] h = refl
take-take (suc m) (suc n) (x ∷ xs) h = ap (◌∷◌ x) (take-take m n xs (omega arith))

pub time_of_bytes-time_bytes :
    (t : Time) (rest : List ℕ) → IsTime t → time_of_bytes (time_bytes t ++ rest) ≡ t
time_of_bytes-time_bytes t rest i =
    ap (λ (s : ℕ). record t { seconds = s }) (from_le32-le32 t.seconds i.seconds_width)

-- The clock gives values of the struct's width.
pub clock-IsTime : {H : Type 0} (net : Net H) (timer : ℕ) → IsTime (lownet_get_time net timer)
unfolding lownet_get_time
clock-IsTime net timer = record { seconds_width = ground arith; parts_width = ground arith }

module _ (p : PingPacket) (xs : List ℕ) (start : take 11 xs ≡ ping_bytes p) where
  starts_with : ping_bytes p ++ drop 11 xs ≡ xs
  starts_with = ap (λ (ys : List ℕ). ys ++ drop 11 xs) (sym start) ∙ take-append-drop 11 xs

  pub ping_packet-origin : (ping_packet xs).origin ≡ p.origin
  unfolding ping_packet ping_bytes
  ping_packet-origin = ap (λ (ys : List ℕ). get_or ys 10 0) (sym starts_with)

  pub ping_packet-timestamp_out :
      IsTime p.timestamp_out → (ping_packet xs).timestamp_out ≡ p.timestamp_out
  unfolding ping_packet ping_bytes
  ping_packet-timestamp_out i =
      ap time_of_bytes (sym starts_with)
      ∙ time_of_bytes-time_bytes p.timestamp_out
          (time_bytes p.timestamp_back ++ (p.origin ∷ []) ++ drop 11 xs) i
