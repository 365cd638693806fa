-- ===== src/Serial/Session/Reader.antt =====
-- One character more in the reader's buffer and queue.
use mathlib.Core.List.{map-append}
use tol103m_assignment_p.Base.{
  ==_iff, ℕ, ◌+◌, ◌≡◌, refl, sym, ap, ap₂, ◌∙◌, subst, arith, inl, inr, List, [], ◌∷◌, ◌++◌, map,
  false, ltb, ◌==◌, Bool-cases, length, length-append, set,
}
use tol103m_assignment_p.Queue.{MessageQueue, IsQueue}
use tol103m_assignment_p.Queue.History.{IsHistory, refusals, send-IsHistory}
use tol103m_assignment_p.Serial.{Serial, take_char}
use tol103m_assignment_p.Serial.Input.{
  lines, padded, lines-newline, lines-char, padded-empty, padded-char, padded-full,
}
use tol103m_assignment_p.Serial.Session.{refused_line}

module _ (writes : MessageQueue (List ℕ)) {reads : MessageQueue (List ℕ)}
    (rl : IsQueue 4 reads) where
  -- The reader's variables and queue, by the lines `done` and the characters `last` behind them.
  pub record IsReader (q : reads.Queue) (in_msg : List ℕ) (at : ℕ) (text : List (List ℕ) × List ℕ)
      (read : List (List ℕ)) (lost : ℕ) : Type 0 where
    pub message : in_msg ≡ padded 127 text.1
    pub count : at ≡ length text.1
    pub input : IsHistory 4 (map (padded 127) text.0) read (rl.contents q) lost

  module _ (s : Serial writes.Queue reads.Queue) (typed : List ℕ) (read : List (List ℕ)) (lost : ℕ)
      (v : IsReader s.queue_read s.in_msg s.at (lines typed) read lost) where
    abbrev pub after : ℕ → Serial writes.Queue reads.Queue
    after c = take_char writes reads s c

    abbrev pub Reads : ℕ → Type 0
    Reads c =
        IsReader (after c).queue_read (after c).in_msg (after c).at (lines (typed ++ (c ∷ []))) read
          (lost + refused_line writes reads s c)

    newline_read : Reads 10
    unfolding take_char
    newline_read = rw (lines-newline typed) (record {
      message = sym padded-empty;
      count = refl;
      input =
          subst
            (λ (l : List (List ℕ)).
              IsHistory 4 l read (rl.contents (reads.send s.queue_read s.in_msg).0)
                (lost + refusals (reads.send s.queue_read s.in_msg).1))
            (ap (λ (m : List ℕ). map (padded 127) (lines typed).0 ++ (m ∷ [])) v.message
              ∙ sym (map-append (padded 127) (lines typed).0 ((lines typed).1 ∷ [])))
            (send-IsHistory reads rl s.queue_read s.in_msg v.input);
    })

    -- The last line with one character more.
    longer : (c : ℕ) → length (lines typed).1 + 1 ≡ length ((lines typed).1 ++ (c ∷ []))
    longer c = omega (arith, length-append (lines typed).1 (c ∷ []))

    no_line_refused :
        IsHistory 4 (map (padded 127) (lines typed).0) read (rl.contents s.queue_read) (lost + 0)
    no_line_refused =
        subst (IsHistory 4 (map (padded 127) (lines typed).0) read (rl.contents s.queue_read))
          (omega arith) v.input

    char_read : (c : ℕ) → (c == 10) ≡ false → Reads c
    unfolding take_char
    char_read c e = elim (Bool-cases (ltb s.at 127)) [
      | inl short ↦
          rw (e, lines-char typed c e, short)
            (record {
              message =
                  ap₂ (λ (m : List ℕ) (i : ℕ). set m i c) v.message v.count
                  ∙ padded-char 127 (lines typed).1 c (ground (arith, v.count));
              count = omega (arith, v.count, longer c);
              input = no_line_refused;
            })
      | inr full ↦
          rw (e, lines-char typed c e, full)
            (record {
              message =
                  v.message ∙ sym (padded-full 127 (lines typed).1 c (ground (arith, v.count)));
              count = omega (arith, v.count, longer c);
              input = no_line_refused;
            })
    ]

    pub take_char-IsReader : (c : ℕ) → Reads c
    take_char-IsReader c = elim (Bool-cases (c == 10)) [
      | inl e ↦ subst Reads (sym ((==_iff c 10).0 e)) newline_read
      | inr e ↦ char_read c e
    ]
