-- ===== src/Lownet/Text/Widths.antt =====
-- The buffers that the lines are made in.
use tol103m_assignment_p.Base.{
  ℕ, ◌+◌, ◌*◌, ◌/◌, ◌≤◌, ◌<◌, arith, inl, inr, [], ◌∷◌, ◌++◌, Bool-cases, ◌==◌, ◌&&◌, length,
  length-append,
}
use tol103m_assignment_p.Utility.{format_id}
use tol103m_assignment_p.Lownet.Time.{Time}
use tol103m_assignment_p.Lownet.Net.{Net, lownet_get_device_id, lownet_get_time}
use tol103m_assignment_p.Lownet.Text.{
  decimal, format_time, rtt_text, reply_line, since_text, id_command, date_command,
}
use tol103m_assignment_p.Lownet.Text.Decimal.{length-digits}

abbrev pub id_width : ℕ
id_width = 4

abbrev pub time_width : ℕ
time_width = 24

length-format_id : (id : ℕ) → length (format_id id) ≤ id_width
unfolding format_id
length-format_id id = ground arith

length-format_time : (t : Time) → length (format_time t) ≤ 22
unfolding format_time
length-format_time t =
    let thousandths = decimal (t.parts * 1000 / 256) in
    omega (
      arith,
      length-append (decimal t.seconds) (b'.' ∷ (thousandths ++ (b's' ∷ []))),
      length-append thousandths (b's' ∷ []),
      length-digits 10 t.seconds,
      length-digits 10 (t.parts * 1000 / 256),
    )

length-reply_line : (id : ℕ) (t : Time) → length (reply_line id t) ≤ 44
unfolding reply_line
length-reply_line id t = omega (
  arith,
  length-append (format_id id) (rtt_text ++ format_time t),
  length-format_id id,
  length-format_time t,
)

length-date_command : {H : Type 0} (net : Net H) (timer : ℕ) → length (date_command net timer) ≤ 47
unfolding date_command
length-date_command net timer =
    let t = lownet_get_time net timer in
    elim (Bool-cases (t.seconds == 0 && t.parts == 0)) [
      | inl e ↦ rw e (omega arith)
      | inr e ↦ rw e (omega (arith, length-append (format_time t) since_text, length-format_time t))
    ]

-- The lines of id_command, date_command and a ping's reply fit, with their zero, into the buffers that
-- are made for them, of 5, 50 and 47 bytes.
pub lines_fit :
    {H : Type 0} (net : Net H) (timer source : ℕ) (rtt : Time)
    → (length (id_command net) < id_width + 1)
      × (length (date_command net timer) < time_width + 25 + 1)
      × (length (reply_line source rtt) < 12 + id_width + 6 + time_width + 1)
unfolding id_command
lines_fit net timer source rtt = (
  omega (arith, length-format_id (lownet_get_device_id net)),
  omega (arith, length-date_command net timer),
  omega (arith, length-reply_line source rtt),
)
