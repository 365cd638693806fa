-- ===== src/Serial/Session/Typing.antt =====
-- One line that is typed and read.
use mathlib.Core.List.{append_assoc, append-nil}
use tol103m_assignment_p.Base.{
  ℕ, ◌≡◌, refl, sym, ap, ◌∙◌, subst, inl, inr, arith, List, [], ◌∷◌, ◌++◌, map, some,
}
use tol103m_assignment_p.Cli.Find.{NotIn}
use tol103m_assignment_p.Queue.{MessageQueue, IsQueue}
use tol103m_assignment_p.Queue.History.{IsHistory}
use tol103m_assignment_p.Serial.{serial_read_line}
use tol103m_assignment_p.Serial.Input.{lines, padded, finish, lines-newline}
use tol103m_assignment_p.Serial.Session.{Event, rounds, reads_line, Session, happens, happen, begun}
use tol103m_assignment_p.Serial.Session.Order.{typed_lines}

-- The rounds of the service in which a text comes in.
abbrev pub typing : List ℕ → List Event
typing [] = []
typing (c ∷ cs) = rounds (some c) ∷ typing cs

lines_one : (line : List ℕ) → NotIn 10 line → lines line ≡ ([], line)
unfolding lines
lines_one [] n = refl
lines_one (c ∷ l) (ne, n) = let e = lines_one l n in ground arith

module _ (writes reads : MessageQueue (List ℕ)) (garbage : List ℕ) where
  happen-append :
      (v : Session writes.Queue reads.Queue) (xs ys : List Event)
      → happen writes reads garbage v (xs ++ ys)
        ≡ happen writes reads garbage (happen writes reads garbage v xs) ys
  unfolding happen
  happen-append v [] ys = refl
  happen-append v (x ∷ xs) ys = happen-append (happens writes reads garbage v x) xs ys

  typing-typed :
      (v : Session writes.Queue reads.Queue) (text : List ℕ)
      → ((happen writes reads garbage v (typing text)).typed ≡ v.typed ++ text)
        × ((happen writes reads garbage v (typing text)).read ≡ v.read)
  unfolding happen happens
  typing-typed v [] = (sym (append-nil v.typed), refl)
  typing-typed v (c ∷ cs) =
      let (t, r) = typing-typed (happens writes reads garbage v (rounds (some c))) cs in
      (t ∙ append_assoc v.typed (c ∷ []) cs, r)

module _ {writes reads : MessageQueue (List ℕ)} (wl : IsQueue 16 writes) (rl : IsQueue 4 reads)
    (garbage : List ℕ) where
  all_held :
      (x : List ℕ) (held : List (List ℕ)) (lost : ℕ)
      → IsHistory 4 (x ∷ []) [] held lost
      → held ≡ x ∷ []
  all_held x held lost h = elim (h.lossless) [
    | inl e ↦ e
    | inr (some_lost, late) ↦ absurd (omega arith)
  ]

  read-first :
      (v : Session writes.Queue reads.Queue) (m : List ℕ)
      → v.read ≡ []
      → rl.contents v.serial.queue_read ≡ m ∷ []
      → (happen writes reads garbage v (reads_line ∷ [])).read ≡ m ∷ []
  unfolding happen happens serial_read_line
  read-first v m e held =
      let (rest, first, e') = rl.receive_first v.serial.queue_read m [] held in
      rw (first, serial_read_line) (ap (λ (l : List (List ℕ)). l ++ (m ∷ [])) e)

  -- A line that is typed after the start and ended by a newline is what the main loop reads.
  pub typed_line :
      (line : List ℕ)
      → NotIn 10 line
      → (happen writes reads garbage
          (begun writes reads)
          (typing (line ++ (10 ∷ [])) ++ (reads_line ∷ []))).read
        ≡ padded 127 line ∷ []
  typed_line line n =
      let v = happen writes reads garbage (begun writes reads) (typing (line ++ (10 ∷ []))) in
      let (t, r) = typing-typed writes reads garbage (begun writes reads) (line ++ (10 ∷ [])) in
      let text : lines v.typed ≡ (line ∷ [], []) =
        ap lines t ∙ (lines-newline line ∙ ap finish (lines_one line n)) in
      let h = typed_lines wl rl garbage (typing (line ++ (10 ∷ []))) in
      let held : rl.contents v.serial.queue_read ≡ padded 127 line ∷ [] =
        all_held (padded 127 line) (rl.contents v.serial.queue_read) v.lost (
          subst
            (λ (got : List (List ℕ)).
              IsHistory 4 (padded 127 line ∷ []) got (rl.contents v.serial.queue_read) v.lost)
            r
            (subst
              (λ (p : List (List ℕ) × List ℕ).
                IsHistory 4 (map (padded 127) p.0) v.read (rl.contents v.serial.queue_read) v.lost)
              text h)) in
      ap (λ (u : Session writes.Queue reads.Queue). u.read)
        (happen-append writes reads garbage (begun writes reads) (typing (line ++ (10 ∷ [])))
          (reads_line ∷ []))
      ∙ read-first v (padded 127 line) r held
