-- ===== src/Lownet/Text.antt =====
-- format_time of managed_components/lownet/lownet_util.c, and the lines of text that are made with it
-- and with format_id: those of managed_components/lownet-commands/lownet-commands.c and of a ping's
-- reply.
pub mod Decimal
pub mod Widths
use tol103m_assignment_p.Base.{
  ℕ, zero, suc, ◌+◌, ◌*◌, ◌/◌, ◌%◌, List, [], ◌∷◌, ◌++◌, ◌&&◌, ◌==◌, ltb, if◌then◌else◌,
}
use tol103m_assignment_p.Utility.{format_id}
use tol103m_assignment_p.Lownet.Time.{Time}
use tol103m_assignment_p.Lownet.Net.{Net, lownet_get_device_id, lownet_get_time}

-- "%lu" for a number of at most `fuel` digits; a uint32_t has at most ten.
unfoldable pub digits : ℕ → ℕ → List ℕ
digits zero n = []
digits (suc fuel) n =
    let front = digits fuel (n / 10) in
    if ltb n 10 then (b'0' + n) ∷ [] else front ++ ((b'0' + n % 10) ∷ [])

abbrev pub decimal : ℕ → List ℕ
decimal n = digits 10 n

unfoldable pub format_time : Time → List ℕ
format_time t = decimal t.seconds ++ (b'.' ∷ (decimal (t.parts * 1000 / 256) ++ (b's' ∷ [])))

-- "Reply from: " and " RTT: ".
abbrev pub reply_text : List ℕ
reply_text = b'R' ∷ b'e' ∷ b'p' ∷ b'l' ∷ b'y' ∷ b' ' ∷ b'f' ∷ b'r' ∷ b'o' ∷ b'm' ∷ b':' ∷ b' ' ∷ []

abbrev pub rtt_text : List ℕ
rtt_text = b' ' ∷ b'R' ∷ b'T' ∷ b'T' ∷ b':' ∷ b' ' ∷ []

-- What ping_receive writes for a reply.
unfoldable pub reply_line : ℕ → Time → List ℕ
reply_line source rtt = reply_text ++ (format_id source ++ (rtt_text ++ format_time rtt))

-- "Network time is not available." and " since the course started".
abbrev pub no_time_text : List ℕ
no_time_text =
    b'N' ∷ b'e' ∷ b't' ∷ b'w' ∷ b'o' ∷ b'r' ∷ b'k' ∷ b' ' ∷ b't' ∷ b'i' ∷ b'm' ∷ b'e' ∷ b' ' ∷ b'i'
    ∷ b's' ∷ b' ' ∷ b'n' ∷ b'o' ∷ b't' ∷ b' ' ∷ b'a' ∷ b'v' ∷ b'a' ∷ b'i' ∷ b'l' ∷ b'a' ∷ b'b'
    ∷ b'l' ∷ b'e' ∷ b'.' ∷ []

abbrev pub since_text : List ℕ
since_text =
    b' ' ∷ b's' ∷ b'i' ∷ b'n' ∷ b'c' ∷ b'e' ∷ b' ' ∷ b't' ∷ b'h' ∷ b'e' ∷ b' ' ∷ b'c' ∷ b'o' ∷ b'u'
    ∷ b'r' ∷ b's' ∷ b'e' ∷ b' ' ∷ b's' ∷ b't' ∷ b'a' ∷ b'r' ∷ b't' ∷ b'e' ∷ b'd' ∷ []

module _ {H : Type 0} (net : Net H) where
  -- What id_command and date_command write.
  unfoldable pub id_command : List ℕ
  id_command = format_id (lownet_get_device_id net)

  unfoldable pub date_command : ℕ → List ℕ
  date_command timer =
      let time = lownet_get_time net timer in
      if time.seconds == 0 && time.parts == 0 then no_time_text else format_time time ++ since_text
