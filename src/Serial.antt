-- ===== src/Serial.antt =====
-- managed_components/serial/serial_io.c: the two queues of lines, the body of the loop of svc_serial,
-- and the functions that put a line into one queue and take one out of the other. The items are
-- buffers of 128 bytes. The queues are FreeRTOS's, and parameters.
pub mod Input
pub mod Output
pub mod Session
use tol103m_assignment_p.Base.{
  ℕ, ◌+◌, ◌-◌, List, [], ◌∷◌, map, Option, none, some, Bool, true, false, ◌&&◌, ltb, ◌==◌,
  if◌then◌else◌, length, get_or, set, copy_over, replicate,
}
use tol103m_assignment_p.Queue.{MessageQueue, drain}
use tol103m_assignment_p.Utility.{c_string}

abbrev pub msg_buffer_length : ℕ
msg_buffer_length = 128

-- serial_system, and the variables in_msg and at of svc_serial.
pub record Serial (W R : Type 0) : Type 0 where
  pub queue_write : W
  pub queue_read : R
  pub in_msg : List ℕ
  pub at : ℕ

-- A buffer after memset.
abbrev pub zero_buffer : List ℕ
zero_buffer = replicate 128 0

-- The length of a text, cut to the buffer less two.
abbrev pub cut_length : ℕ → ℕ
cut_length len = if ltb (msg_buffer_length - 2) len then msg_buffer_length - 2 else len

-- The buffer that serial_write_line sends for a string, which is the bytes before its zero.
unfoldable pub line_buffer : List ℕ → List ℕ
line_buffer string =
    let len = cut_length (length string) in set (copy_over zero_buffer string len) len 0

-- "SYNC // FIRMWARE READY".
abbrev pub message_sync : List ℕ
message_sync =
    b'S' ∷ b'Y' ∷ b'N' ∷ b'C' ∷ b' ' ∷ b'/' ∷ b'/' ∷ b' ' ∷ b'F' ∷ b'I' ∷ b'R' ∷ b'M' ∷ b'W' ∷ b'A'
    ∷ b'R' ∷ b'E' ∷ b' ' ∷ b'R' ∷ b'E' ∷ b'A' ∷ b'D' ∷ b'Y' ∷ []

-- strncmp(buffer, "> ", 2) == 0.
abbrev pub has_prompt : List ℕ → Bool
has_prompt buffer = get_or buffer 0 0 == b'>' && get_or buffer 1 0 == b' '

-- The body of the loop over queue_write: what printf is given for the item `out_msg`. `garbage` is
-- the uninitialised msg_buffer.
unfoldable pub write_message : List ℕ → List ℕ → List ℕ
write_message garbage out_msg =
    let end = cut_length (length (c_string out_msg)) in
    let msg_buffer = copy_over garbage out_msg end in
    c_string (
      if has_prompt msg_buffer
      then set msg_buffer end 0
      else set (set msg_buffer end 10) (end + 1) 0)

module _ (writes reads : MessageQueue (List ℕ)) where
  -- `none` is NULL.
  unfoldable pub serial_write_line :
      Serial writes.Queue reads.Queue → Option (List ℕ) → Serial writes.Queue reads.Queue
  unfolding line_buffer
  serial_write_line s none = s
  serial_write_line s (some string) = record s {
    queue_write = (writes.send s.queue_write (line_buffer string)).0;
  }

  -- After init_serial_service, with the service's variables as it sets them at its start.
  unfoldable pub started : Serial writes.Queue reads.Queue
  unfolding serial_write_line
  started =
      serial_write_line
        (record {
          queue_write = writes.create;
          queue_read = reads.create;
          in_msg = zero_buffer;
          at = 0;
        })
        (some message_sync)

  -- `created`: both queues were; otherwise there is no service, and `none` is the outcome.
  unfoldable pub init_serial_service : Bool → Option (Serial writes.Queue reads.Queue)
  init_serial_service created = if created then some started else none

  -- The body of the loop of svc_serial behind the output, on a character that was read; a line that
  -- is done is sent at once.
  unfoldable pub take_char : Serial writes.Queue reads.Queue → ℕ → Serial writes.Queue reads.Queue
  take_char s next =
      if next == 10
      then record s {
        queue_read = (reads.send s.queue_read s.in_msg).0;
        in_msg = zero_buffer;
        at = 0;
      }
      else (if ltb s.at (msg_buffer_length - 1)
          then record s { in_msg = set s.in_msg s.at next; at = s.at + 1 }
          else record s { at = s.at + 1 })

  -- One round of svc_serial: the service's state, and what printf is given, in order. `none` is EOF.
  -- The queue holds sixteen lines, so the loop that empties it has that much fuel.
  unfoldable pub svc_serial :
      List ℕ
      → Serial writes.Queue reads.Queue
      → Option ℕ
      → Serial writes.Queue reads.Queue × List (List ℕ)
  unfolding write_message take_char drain
  svc_serial garbage s next =
      let (out_msgs, emptied) = drain writes 16 s.queue_write in
      let s' : Serial writes.Queue reads.Queue = record s { queue_write = emptied } in
      (elim next [ none ↦ s' | some c ↦ take_char s' c ], map (write_message garbage) out_msgs)

  -- The state, the buffer, and whether the value is 0 and not -1. An empty queue is one that stays
  -- empty until the timeout; a buffer of `none` is NULL.
  unfoldable pub serial_read_line :
      Serial writes.Queue reads.Queue
      → Option (List ℕ)
      → Serial writes.Queue reads.Queue × Option (List ℕ) × Bool
  serial_read_line s none = (s, none, true)
  serial_read_line s (some buffer) = elim (reads.receive s.queue_read) [
    | none ↦ (s, some buffer, false)
    | some (msg, rest) ↦ (record s { queue_read = rest }, some msg, true)
  ]
