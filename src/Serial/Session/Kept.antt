-- ===== src/Serial/Session/Kept.antt =====
-- The invariant of a session, and that every event keeps it.
use mathlib.Core.List.{map-append}
use tol103m_assignment_p.Base.{
  ℕ, ◌+◌, ◌≤◌, ◌≡◌, refl, sym, ap, ◌∙◌, subst, arith, List, [], ◌∷◌, ◌++◌, map, Option, none, some,
  Bool, true, false, if◌then◌else◌, length,
}
use tol103m_assignment_p.Queue.{MessageQueue, IsQueue, drain}
use tol103m_assignment_p.Queue.History.{
  IsHistory, IsHistory-start, IsHistory-taken, refusals, send-IsHistory, send-le, drain_lem,
  drain-IsHistory,
}
use tol103m_assignment_p.Serial.{
  Serial, line_buffer, write_message, message_sync, serial_write_line, started, take_char,
  svc_serial, serial_read_line,
}
use tol103m_assignment_p.Serial.Input.{lines, padded, padded-empty}
use tol103m_assignment_p.Serial.Session.Reader.{IsReader, take_char-IsReader}
use tol103m_assignment_p.Serial.Session.{
  Event, rounds, writes_line, reads_line, Session, items, happens, happen, begun,
}

first_refusal : (n : ℕ) → 0 + n ≡ n
first_refusal n = omega arith

module _ {writes reads : MessageQueue (List ℕ)} (wl : IsQueue 16 writes)
    (rl : IsQueue 4 reads) where
  pub record IsWriter (q : writes.Queue) (written taken : List (List ℕ)) (unwritten : ℕ)
      : Type 0 where
    pub output : IsHistory 16 (map line_buffer written) taken (wl.contents q) unwritten
    pub room : length (wl.contents q) ≤ 16

  -- The invariant of a session.
  pub record IsSession (garbage : List ℕ) (v : Session writes.Queue reads.Queue) : Type 0 where
    pub reader :
        IsReader writes rl v.serial.queue_read v.serial.in_msg v.serial.at
          (lines v.typed)
          v.read
          v.lost
    pub writer : IsWriter v.serial.queue_write v.written v.taken v.unwritten
    pub given : v.printed ≡ map (write_message garbage) v.taken

  take_char-queue_write :
      (s : Serial writes.Queue reads.Queue) (c : ℕ)
      → (take_char writes reads s c).queue_write ≡ s.queue_write
  unfolding take_char
  take_char-queue_write s c = ground arith

  module _ {s : Serial writes.Queue reads.Queue} where
    serial_read_line_empty :
        reads.receive s.queue_read ≡ none
        → serial_read_line writes reads s (some []) ≡ (s, some [], false)
    unfolding serial_read_line
    serial_read_line_empty e = rw (e, serial_read_line) refl

    serial_read_line_first :
        (m : List ℕ) (rest : reads.Queue)
        → reads.receive s.queue_read ≡ some (m, rest)
        → serial_read_line writes reads s (some []) ≡ (record s { queue_read = rest }, some m, true)
    unfolding serial_read_line
    serial_read_line_first m rest e = rw (e, serial_read_line) refl

  drained :
      (q : writes.Queue) (written taken : List (List ℕ)) (unwritten : ℕ)
      → IsWriter q written taken unwritten
      → IsWriter (drain writes 16 q).1 written (taken ++ (drain writes 16 q).0) unwritten
  drained q written taken unwritten w =
      let (took, emptied) = drain_lem writes wl 16 q w.room in
      record {
        output = drain-IsHistory writes wl 16 q w.room w.output;
        room = omega (arith, ap length emptied);
      }

  writes-IsWriter :
      (q : writes.Queue) (written taken : List (List ℕ)) (unwritten : ℕ) (line : List ℕ)
      → IsWriter q written taken unwritten
      → IsWriter
          (writes.send q (line_buffer line)).0
          (written ++ (line ∷ []))
          taken
          (unwritten + refusals (writes.send q (line_buffer line)).1)
  writes-IsWriter q written taken unwritten line w = record {
    output =
        subst
          (λ (l : List (List ℕ)).
            IsHistory 16 l taken (wl.contents (writes.send q (line_buffer line)).0)
              (unwritten + refusals (writes.send q (line_buffer line)).1))
          (sym (map-append line_buffer written (line ∷ [])))
          (send-IsHistory writes wl q (line_buffer line) w.output);
    room = send-le writes wl q (line_buffer line) w.room;
  }

  module _ (garbage : List ℕ) (v : Session writes.Queue reads.Queue) (i : IsSession garbage v) where
    abbrev Happened : Event → Type 0
    Happened e = IsSession garbage (happens writes reads garbage v e)

    prints :
        v.printed ++ map (write_message garbage) (drain writes 16 v.serial.queue_write).0
        ≡ map (write_message garbage) (v.taken ++ (drain writes 16 v.serial.queue_write).0)
    prints =
        ap
          (λ (l : List (List ℕ)).
            l ++ map (write_message garbage) (drain writes 16 v.serial.queue_write).0)
          i.given
        ∙ sym (map-append (write_message garbage) v.taken (drain writes 16 v.serial.queue_write).0)

    rounds-IsSession : (next : Option ℕ) → Happened (rounds next)
    unfolding happens svc_serial
    rounds-IsSession none = record {
      reader = i.reader;
      writer = drained v.serial.queue_write v.written v.taken v.unwritten i.writer;
      given = prints;
    }
    rounds-IsSession (some c) = record {
      reader =
          take_char-IsReader writes rl
            (record v.serial { queue_write = (drain writes 16 v.serial.queue_write).1 }) v.typed
            v.read v.lost
            (record { message = i.reader.message; count = i.reader.count; input = i.reader.input })
            c;
      writer =
          subst
            (λ q.
              IsWriter q v.written (v.taken ++ (drain writes 16 v.serial.queue_write).0)
                v.unwritten)
            (sym (
              take_char-queue_write
                (record v.serial { queue_write = (drain writes 16 v.serial.queue_write).1 }) c))
            (drained v.serial.queue_write v.written v.taken v.unwritten i.writer);
      given = prints;
    }

    -- An attempt to read with the given outcome.
    outcome :
        Serial writes.Queue reads.Queue × Option (List ℕ) × Bool → Session writes.Queue reads.Queue
    outcome (s, msg, ok) = record v {
      serial = s;
      read = if ok then v.read ++ items msg else v.read;
    }

    reads-IsSession :
        (xs : List (List ℕ)) → rl.contents v.serial.queue_read ≡ xs → Happened reads_line
    unfolding happens outcome
    reads-IsSession [] e =
        let same = serial_read_line_empty (rl.receive_empty v.serial.queue_read e) in
        subst (λ r. IsSession garbage (outcome r)) (sym same)
          (record { reader = i.reader; writer = i.writer; given = i.given })
    reads-IsSession (m ∷ ms) e =
        let (rest, first, e') = rl.receive_first v.serial.queue_read m ms e in
        let r = i.reader in
        let input : IsHistory 4 (map (padded 127) (lines v.typed).0) (v.read ++ (m ∷ []))
            (rl.contents rest) v.lost =
          subst
            (λ (h : List (List ℕ)).
              IsHistory 4 (map (padded 127) (lines v.typed).0) (v.read ++ (m ∷ [])) h v.lost)
            (sym e')
            (IsHistory-taken m (
              subst
                (λ (h : List (List ℕ)).
                  IsHistory 4 (map (padded 127) (lines v.typed).0) v.read h v.lost)
                e r.input)) in
        subst (λ r. IsSession garbage (outcome r)) (sym (serial_read_line_first m rest first))
          (record {
            reader = record { message = r.message; count = r.count; input = input };
            writer = i.writer;
            given = i.given;
          })

    happens-IsSession : (e : Event) → Happened e
    unfolding happens
    happens-IsSession (rounds next) = rounds-IsSession next
    happens-IsSession (writes_line line) =
        unfold serial_write_line in
        record {
          reader = i.reader;
          writer = writes-IsWriter v.serial.queue_write v.written v.taken v.unwritten line i.writer;
          given = i.given;
        }
    happens-IsSession reads_line = reads-IsSession (rl.contents v.serial.queue_read) refl

  pub happen-IsSession :
      (garbage : List ℕ) (v : Session writes.Queue reads.Queue) (es : List Event)
      → IsSession garbage v
      → IsSession garbage (happen writes reads garbage v es)
  unfolding happen
  happen-IsSession garbage v [] i = i
  happen-IsSession garbage v (e ∷ es) i =
      happen-IsSession garbage (happens writes reads garbage v e) es
        (happens-IsSession garbage v i e)

  pub begun-IsSession : (garbage : List ℕ) → IsSession garbage (begun writes reads)
  unfolding started serial_write_line lines
  begun-IsSession garbage = record {
    reader = record {
      message = sym padded-empty;
      count = refl;
      input =
          subst (λ (h : List (List ℕ)). IsHistory 4 [] [] h 0) (sym rl.contents-create)
            IsHistory-start;
    };
    writer =
        subst
          (IsWriter (writes.send writes.create (line_buffer message_sync)).0 (message_sync ∷ []) [])
          (first_refusal (refusals (writes.send writes.create (line_buffer message_sync)).1))
          (writes-IsWriter writes.create [] [] 0 message_sync (record {
            output =
                subst (λ (h : List (List ℕ)). IsHistory 16 [] [] h 0) (sym wl.contents-create)
                  IsHistory-start;
            room = omega (arith, ap length wl.contents-create);
          }));
    given = refl;
  }
