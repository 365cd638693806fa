-- ===== src/Serial/Session.antt =====
-- The service, the main loop that reads, and the tasks that write, in any order.
pub mod Kept
pub mod Order
pub mod Reader
pub mod Typing
use tol103m_assignment_p.Base.{ℕ, ◌+◌, List, [], ◌∷◌, ◌++◌, Option, none, some, ◌==◌, if◌then◌else◌}
use tol103m_assignment_p.Queue.{MessageQueue, drain}
use tol103m_assignment_p.Queue.History.{refusals}
use tol103m_assignment_p.Serial.{
  Serial, line_buffer, message_sync, serial_write_line, started, svc_serial, serial_read_line,
}

-- A round of the service with what is typed, if anything; a line that is written; an attempt to read.
pub data Event : Type 0 where
  rounds : Option ℕ → Event
  writes_line : List ℕ → Event
  reads_line : Event

-- What was typed, read and written so far, and how many lines each queue refused.
pub record Session (W R : Type 0) : Type 0 where
  pub serial : Serial W R
  pub typed : List ℕ
  pub read : List (List ℕ)
  pub lost : ℕ
  pub written : List (List ℕ)
  pub taken : List (List ℕ)
  pub printed : List (List ℕ)
  pub unwritten : ℕ

-- What a read put into the buffer.
abbrev pub items : Option (List ℕ) → List (List ℕ)
items none = []
items (some m) = m ∷ []

module _ (writes reads : MessageQueue (List ℕ)) where
  abbrev pub refused_line : Serial writes.Queue reads.Queue → ℕ → ℕ
  refused_line s c = if c == 10 then refusals (reads.send s.queue_read s.in_msg).1 else 0

  unfoldable pub happens :
      List ℕ → Session writes.Queue reads.Queue → Event → Session writes.Queue reads.Queue
  happens garbage v (rounds none) = record v {
    serial = (svc_serial writes reads garbage v.serial none).0;
    taken = v.taken ++ (drain writes 16 v.serial.queue_write).0;
    printed = v.printed ++ (svc_serial writes reads garbage v.serial none).1;
  }
  happens garbage v (rounds (some c)) = record v {
    serial = (svc_serial writes reads garbage v.serial (some c)).0;
    typed = v.typed ++ (c ∷ []);
    lost = v.lost + refused_line v.serial c;
    taken = v.taken ++ (drain writes 16 v.serial.queue_write).0;
    printed = v.printed ++ (svc_serial writes reads garbage v.serial (some c)).1;
  }
  happens garbage v (writes_line line) = record v {
    serial = serial_write_line writes reads v.serial (some line);
    written = v.written ++ (line ∷ []);
    unwritten = v.unwritten + refusals (writes.send v.serial.queue_write (line_buffer line)).1;
  }
  happens garbage v reads_line =
      let (s, msg, ok) = serial_read_line writes reads v.serial (some []) in
      record v { serial = s; read = if ok then v.read ++ items msg else v.read }

  unfoldable pub happen :
      List ℕ → Session writes.Queue reads.Queue → List Event → Session writes.Queue reads.Queue
  unfolding happens
  happen garbage v [] = v
  happen garbage v (e ∷ es) = happen garbage (happens garbage v e) es

  -- After init_serial_service has made its queues.
  abbrev pub begun : Session writes.Queue reads.Queue
  begun = record {
    serial = started writes reads;
    typed = [];
    read = [];
    lost = 0;
    written = message_sync ∷ [];
    taken = [];
    printed = [];
    unwritten = refusals (writes.send writes.create (line_buffer message_sync)).1;
  }
