-- ===== src/Serial/Session/Order.antt =====
-- What is typed is read, and what is written is printed, in order.
use tol103m_assignment_p.Base.{ℕ, ◌≡◌, refl, sym, ap₂, subst, List, [], ◌∷◌, map, length}
use tol103m_assignment_p.Queue.{MessageQueue, IsQueue}
use tol103m_assignment_p.Queue.History.{IsHistory, IsHistory-map}
use tol103m_assignment_p.Serial.{line_buffer, write_message}
use tol103m_assignment_p.Serial.Input.{lines, padded}
use tol103m_assignment_p.Cli.Find.{NotIn}
use tol103m_assignment_p.Serial.Output.{Decided, printf_format, write_message-line_buffer}
use tol103m_assignment_p.Serial.Session.Kept.{begun-IsSession, happen-IsSession}
use tol103m_assignment_p.Serial.Session.{Event, happen, begun}

-- Every line has a form that svc_serial prints as it is meant to.
abbrev pub AllDecided : List (List ℕ) → Type 0
AllDecided [] = Unit {0}
AllDecided (l ∷ ls) = (NotIn 0 l × Decided l) × AllDecided ls

map-printf_format :
    (garbage : List ℕ) (ls : List (List ℕ))
    → length garbage ≡ 128
    → AllDecided ls
    → map (write_message garbage) (map line_buffer ls) ≡ map printf_format ls
map-printf_format garbage [] held d = refl
map-printf_format garbage (l ∷ ls) held ((text, decided), d) =
    ap₂ ◌∷◌ (write_message-line_buffer garbage l held text decided)
      (map-printf_format garbage ls held d)

module _ {writes reads : MessageQueue (List ℕ)} (wl : IsQueue 16 writes)
    (rl : IsQueue 4 reads) where
  -- Whatever is typed, written and read, in any order, from the start on: the main loop has read, and
  -- finds in the queue, the complete lines that were typed, in their order, each cut to 127 characters
  -- and with zeros behind it, less as many as were refused. It is all of them if none was refused, and
  -- none is as long as at most four were typed.
  pub typed_lines :
      (garbage : List ℕ) (es : List Event)
      → let v = happen writes reads garbage (begun writes reads) es in
        IsHistory 4
          (map (padded 127) (lines v.typed).0)
          v.read
          (rl.contents v.serial.queue_read)
          v.lost
  typed_lines garbage es =
      (happen-IsSession wl rl garbage (begun writes reads) es
        (begun-IsSession wl rl garbage)).reader.input

  -- In the same way, what was given to printf, and what the service will make of the lines that wait,
  -- are the format strings of the lines that were written, in their order, less as many as were refused:
  -- of each line the first 126 characters, and a newline behind them unless the line starts with "> ".
  -- It is all of them if none was refused, and none is as long as at most sixteen were written. The
  -- lines have no zero, are not empty, and are not ">" alone. What printf makes of a % is not said.
  pub written_lines :
      (garbage : List ℕ) (es : List Event)
      → length garbage ≡ 128
      → AllDecided (happen writes reads garbage (begun writes reads) es).written
      → let v = happen writes reads garbage (begun writes reads) es in
        IsHistory 16
          (map printf_format v.written)
          v.printed
          (map (write_message garbage) (wl.contents v.serial.queue_write))
          v.unwritten
  written_lines garbage es held d =
      let v = happen writes reads garbage (begun writes reads) es in
      let i =
        happen-IsSession wl rl garbage (begun writes reads) es (begun-IsSession wl rl garbage) in
      subst
        (λ (sent : List (List ℕ)).
          IsHistory 16 sent v.printed
            (map (write_message garbage) (wl.contents v.serial.queue_write)) v.unwritten)
        (map-printf_format garbage v.written held d)
        (subst
          (λ (got : List (List ℕ)).
            IsHistory 16 (map (write_message garbage) (map line_buffer v.written)) got
              (map (write_message garbage) (wl.contents v.serial.queue_write)) v.unwritten)
          (sym i.given) (IsHistory-map (write_message garbage) i.writer.output))
