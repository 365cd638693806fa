-- ===== src/Crane/Script/Written.antt =====
-- The lines that are written during a command.
use tol103m_assignment_p.Base.{
  ℕ, zero, suc, ◌≡◌, refl, List, [], ◌∷◌, Bool, true, false, ◌⊎◌, inl, inr, ◌==◌, Option, none,
  some, if◌then◌else◌,
}
use tol103m_assignment_p.Cli.{strtok}
use tol103m_assignment_p.Utility.{node_argument}
use tol103m_assignment_p.Crane.Machine.{AckQueue, World, is_connected, crane_send, delay}
use tol103m_assignment_p.Crane.Machine.Written.{
  Shows, Shows-still, Shows-trans, if-Shows, delay-Shows, disconnect-Shows, connect-Shows,
}
use tol103m_assignment_p.Crane.Action.{crane_action}
use tol103m_assignment_p.Crane.Action.Written.{action-Shows}
use tol103m_assignment_p.Crane.Texts.{missing_command_text, missing_id_text, help_lines}
use tol103m_assignment_p.Crane.Script.{
  wait_idle, wait_connected, act_all, test_syn, test_pattern, crane_test, letter_action,
  first_letter, writes, opened, tested, acted, worded, crane_word, crane_command,
}

-- The messages of crane_command.
abbrev pub IsMessage : List (List ℕ) → Type 0
IsMessage lines =
    (lines ≡ missing_command_text ∷ []) ⊎ ((lines ≡ missing_id_text ∷ []) ⊎ (lines ≡ help_lines))

-- From `w` to `v` either one message was written and nothing else has happened, or exactly the status
-- lines of what has arrived were written.
abbrev pub Answers : {Q : Type 0} → World Q → World Q → Type 0
Answers w v = ((lines : List (List ℕ)) × IsMessage lines × (v ≡ writes w lines)) ⊎ Shows w v

module _ (os : AckQueue) where
  open os use {Queue}

  wait_idle-Shows : (n : ℕ) (w : World Queue) → Shows w (wait_idle os n w)
  unfolding wait_idle
  wait_idle-Shows zero w = Shows-still w w refl refl
  wait_idle-Shows (suc n) w =
      if-Shows ((w.client).last_backlog == 0) w (wait_idle os n (delay os w))
        (Shows-still w w refl refl)
        (Shows-trans (delay-Shows os w) (wait_idle-Shows n (delay os w)))

  wait_connected-Shows : (n : ℕ) (w : World Queue) → Shows w (wait_connected os n w)
  unfolding wait_connected
  wait_connected-Shows zero w = Shows-still w w refl refl
  wait_connected-Shows (suc n) w =
      if-Shows (is_connected (w.client).phase) w (wait_connected os n (delay os w))
        (Shows-still w w refl refl)
        (Shows-trans (delay-Shows os w) (wait_connected-Shows n (delay os w)))

  act_all-Shows : (actions : List ℕ) (w : World Queue) → Shows w (act_all os actions w)
  unfolding act_all
  act_all-Shows [] w = Shows-still w w refl refl
  act_all-Shows (a ∷ rest) w =
      Shows-trans (action-Shows os a w) (act_all-Shows rest (crane_action os a w).1)

  pattern-Shows : (w : World Queue) → Shows w (test_pattern os w)
  unfolding test_pattern
  pattern-Shows w = Shows-trans (act_all-Shows _ w) (
      Shows-trans (wait_idle-Shows 100 _) (
        Shows-trans (act_all-Shows _ _) (
          Shows-trans (wait_idle-Shows 100 _) (
            Shows-trans (act_all-Shows _ _)
              (Shows-trans (wait_idle-Shows 100 _) (disconnect-Shows os _))))))

  test-Shows : (id : ℕ) (w : World Queue) → Shows w (crane_test os id w)
  unfolding crane_test
  test-Shows id w =
      let opening = record w { client = test_syn id w.client } in
      let waited = wait_connected os 30 opening in
      let begun = Shows-still w opening refl (unfold test_syn crane_send in refl) in
      let connecting = Shows-trans begun (wait_connected-Shows 30 opening) in
      if-Shows (is_connected (waited.client).phase) (test_pattern os waited) waited
        (Shows-trans connecting (pattern-Shows waited)) connecting

  opened-Answers : (t : Option (List ℕ × List ℕ)) (w : World Queue) → Answers w (opened os w t)
  opened-Answers none w = inl (missing_id_text ∷ [], inr (inl refl), refl)
  opened-Answers (some (id, rest)) w = inr (connect-Shows os w (node_argument id rest))

  tested-Answers : (t : Option (List ℕ × List ℕ)) (w : World Queue) → Answers w (tested os w t)
  tested-Answers none w = inl (missing_id_text ∷ [], inr (inl refl), refl)
  tested-Answers (some (id, rest)) w = inr (test-Shows (node_argument id rest) w)

  acted-Answers : (a : Option ℕ) (w : World Queue) → Answers w (acted os w a)
  acted-Answers none w = inr (Shows-still w w refl refl)
  acted-Answers (some action) w = inr (action-Shows os action w)

  if-Answers :
      {u : World Queue} (b : Bool) (v w : World Queue)
      → Answers u v
      → Answers u w
      → Answers u (if b then v else w)
  if-Answers true v w s t = s
  if-Answers false v w s t = t

  word-Answers :
      (command rest : List ℕ) (w : World Queue) → Answers w (crane_word os command rest w)
  unfolding crane_word
  word-Answers command rest w = if-Answers _ _ _ (inl (help_lines, inr (inr refl), refl)) (
      if-Answers _ _ _ (opened-Answers (strtok b' ' rest) w) (
        if-Answers _ _ _ (inr (disconnect-Shows os w)) (
          if-Answers _ _ _ (tested-Answers (strtok b' ' rest) w)
            (acted-Answers (letter_action (first_letter command)) w))))

  worded-Answers : (t : Option (List ℕ × List ℕ)) (w : World Queue) → Answers w (worded os w t)
  worded-Answers none w = inl (missing_command_text ∷ [], inl refl, refl)
  worded-Answers (some (command, rest)) w = word-Answers command rest w

  -- Whatever the crane command is given and whatever arrives during it: it writes one of its three
  -- messages and does nothing else, or it writes, in their order and once each, the status lines of
  -- the STATUS packets without NAK among the frames that arrive until it returns, and no other line;
  -- those frames are the first ones of what was to come.
  pub crane_command-Answers :
      (args : Option (List ℕ)) (w : World Queue) → Answers w (crane_command os args w)
  unfolding crane_command
  crane_command-Answers none w = inl (missing_command_text ∷ [], inl refl, refl)
  crane_command-Answers (some args) w = worded-Answers (strtok b' ' args) w
