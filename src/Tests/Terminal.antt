-- ===== src/Tests/Terminal.antt =====
-- Lines that are typed, read, written and shown.
use tol103m_assignment_p.Base.{
  ℕ, ◌≡◌, refl, arith, List, [], ◌∷◌, map, none, some, replicate, Bool, true, ltb, ◌&&◌,
}
use tol103m_assignment_p.Cli.Find.{NotIn}
use tol103m_assignment_p.Queue.{MessageQueue}
use tol103m_assignment_p.Queue.History.{IsHistory}
use tol103m_assignment_p.Serial.{
  line_buffer, write_message, message_sync, serial_read_line, svc_serial, serial_write_line,
  started,
}
use tol103m_assignment_p.Serial.Input.{lines, padded}
use tol103m_assignment_p.Serial.Output.{printf_format}
use tol103m_assignment_p.Serial.Session.{
  Event, rounds, writes_line, reads_line, Session, happen, begun,
}
use tol103m_assignment_p.Serial.Session.Order.{AllDecided, typed_lines, written_lines}
use tol103m_assignment_p.Tests.Queues.{bounded, bounded-IsQueue}

abbrev writes : MessageQueue (List ℕ)
writes = bounded (List ℕ) 16

abbrev reads : MessageQueue (List ℕ)
reads = bounded (List ℕ) 4

-- "hi" and a newline are typed and read, and "ok" is written.
abbrev events : List Event
events =
    rounds (some b'h')
    ∷ rounds (some b'i')
    ∷ writes_line (b'o' ∷ b'k' ∷ [])
    ∷ rounds (some 10)
    ∷ reads_line
    ∷ rounds none
    ∷ []

abbrev after : Session (List (List ℕ)) (List (List ℕ))
after = happen writes reads (replicate 128 0) (begun writes reads) events

was_read : after.read ≡ padded 127 (b'h' ∷ b'i' ∷ []) ∷ []
unfolding happen serial_read_line svc_serial serial_write_line started padded
was_read = refl

-- An empty line is printed as a newline or as nothing, by what the buffer on the stack holds.
empty_line :
    (write_message (replicate 128 0) (line_buffer []) ≡ 10 ∷ [])
    × (write_message (b'>' ∷ (b' ' ∷ replicate 126 0)) (line_buffer []) ≡ [])
unfolding write_message line_buffer
empty_line = (refl, refl)

typed_lines_example :
    IsHistory 4
      (map (padded 127) (lines after.typed).0)
      after.read
      (after.serial).queue_read
      after.lost
typed_lines_example =
    typed_lines (bounded-IsQueue (List ℕ) 16) (bounded-IsQueue (List ℕ) 4) (replicate 128 0) events

abbrev no_zero : List ℕ → Bool
no_zero [] = true
no_zero (c ∷ cs) = ltb 0 c && no_zero cs

no_zero→NotIn : (l : List ℕ) → no_zero l ≡ true → NotIn 0 l
no_zero→NotIn [] h = tt
no_zero→NotIn (c ∷ l) h = ground (arith, no_zero→NotIn l)

decided : AllDecided after.written
unfolding happen
decided = ((no_zero→NotIn message_sync refl, tt), ((no_zero→NotIn (b'o' ∷ b'k' ∷ []) refl, tt), tt))

written_lines_example :
    IsHistory 16
      (map printf_format after.written)
      after.printed
      (map (write_message (replicate 128 0)) (after.serial).queue_write)
      after.unwritten
written_lines_example =
    written_lines (bounded-IsQueue (List ℕ) 16) (bounded-IsQueue (List ℕ) 4) (replicate 128 0)
      events refl decided
