-- ===== src/App/Session.antt =====
-- The two tasks of main/app_main.c and managed_components/lownet/lownet.c on one node, as the order in
-- which lines are typed and data arrives.
pub mod Kept
pub mod Mishaps
use tol103m_assignment_p.Base.{ℕ, List, [], ◌∷◌, ◌++◌}
use tol103m_assignment_p.Crypt.{AesCbc}
use tol103m_assignment_p.Crane.Machine.{AckQueue}
use tol103m_assignment_p.App.Node.{
  Node, Surroundings, Done, Result, done, faults, main_line, receive_data,
}

-- A line that the main loop reads, or the data of one transmission.
pub data Event : Type 0 where
  typed arrived : Surroundings → List ℕ → Event

module _ (os : AckQueue) (aes : AesCbc) where
  unfoldable pub step : Node os.Queue → Event → Result os.Queue
  step node (typed around msg_in) = main_line os aes around node msg_in
  step node (arrived around bytes) = receive_data os aes around node bytes

  -- All that is written and sent, in order; a fault ends it.
  unfoldable pub run : Node os.Queue → List Event → Result os.Queue
  unfolding step
  run node [] = done (record { node = node; lines = []; frames = [] })
  run node (e ∷ es) = elim (step node e) [
    | faults ↦ faults
    | done d ↦ (elim (run d.node es) [
      | faults ↦ faults
      | done rest ↦ done (record {
        node = rest.node;
        lines = d.lines ++ rest.lines;
        frames = d.frames ++ rest.frames;
      })
    ])
  ]
