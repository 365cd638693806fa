-- ===== src/Crane/Script/Reach.antt =====
-- The states that the crane client can reach.
use tol103m_assignment_p.Base.{ℕ, refl, inl, List, Option}
use tol103m_assignment_p.Lownet.Frame.{Frame}
use tol103m_assignment_p.Crane.Machine.{AckQueue, Crane, crane_init, crane_receive}
use tol103m_assignment_p.Crane.Script.{crane_command}
use tol103m_assignment_p.Crane.Script.Preserved.{IsClient, receive-IsClient, command-IsClient}

module _ (os : AckQueue) where
  open os use {Queue}

  -- What happens to the client: a frame comes in, or a command runs, with the frames that arrive
  -- while it waits.
  pub data Step : Crane Queue → Crane Queue → Type 0 where
    received : (c : Crane Queue) (f : Frame) → Step c (crane_receive os c f)
    commanded :
        (c : Crane Queue) (args : Option (List ℕ)) (arrivals : List (List Frame))
        → Step c (crane_command os args (record { client = c; arrivals = arrivals })).client

  -- The states after crane_init and any number of steps.
  pub data Reachable : Crane Queue → Type 0 where
    started : (c : Crane Queue) → Reachable (crane_init os c)
    stepped : (c d : Crane Queue) → Reachable c → Step c d → Reachable d

  Step-IsClient : (c d : Crane Queue) → Step c d → IsClient c → IsClient d
  Step-IsClient _ _ (received c f) i = receive-IsClient os c f i
  Step-IsClient _ _ (commanded c args arrivals) i =
      command-IsClient os args (record { client = c; arrivals = arrivals }) i

  -- In every state that crane_init, received frames and commands lead to, whatever arrives during each
  -- wait, a client in the handshake is at sequence number 0, and a connected one at a number that is not
  -- 0 and fits 16 bits.
  pub Reachable-IsClient : (c : Crane Queue) → Reachable c → IsClient c
  Reachable-IsClient _ (started b) = unfold crane_init in inl refl
  Reachable-IsClient _ (stepped c d r s) = Step-IsClient c d s (Reachable-IsClient c r)
