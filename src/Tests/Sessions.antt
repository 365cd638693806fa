-- ===== src/Tests/Sessions.antt =====
-- A session of one node.
use tol103m_assignment_p.Base.{◌≡◌, refl, true, List, [], ◌∷◌}
use tol103m_assignment_p.Cli.{strtok}
use tol103m_assignment_p.Serial.Input.{padded}
use tol103m_assignment_p.App.{handle_line}
use tol103m_assignment_p.App.Node.{faults, main_line}
use tol103m_assignment_p.App.Session.{Event, typed, arrived, step, run}
use tol103m_assignment_p.App.Typed.{tell_line, arguments}
use tol103m_assignment_p.Tests.Nodes.{xor_cbc, list_queue}
use tol103m_assignment_p.Tests.Whole.{first, around}

-- "@0x96 hi", three bytes, and "/".
abbrev day : List Event
day =
    typed around (padded 127 (tell_line true (arguments 0x96 (b'h' ∷ b'i' ∷ []))))
    ∷ arrived around (1 ∷ 2 ∷ 3 ∷ [])
    ∷ typed around (padded 127 (b'/' ∷ []))
    ∷ []

bare_slash : run list_queue xor_cbc first (typed around (padded 127 (b'/' ∷ [])) ∷ []) ≡ faults
unfolding run step main_line handle_line strtok padded
bare_slash = refl
