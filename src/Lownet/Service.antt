-- ===== src/Lownet/Service.antt =====
-- The tasks of managed_components/lownet/lownet.c around their two queues: lownet_inbound_handler,
-- which the radio's task calls, a round of decrypt_service_main and one of lownet_service_main, and
-- lownet_set_key, which the main task calls. The queues are FreeRTOS's, and parameters.
pub mod Fault
pub mod Order
pub mod Kept
pub mod Opened
use tol103m_assignment_p.Base.{ℕ, ◌+◌, List, [], ◌∷◌, ◌++◌, Option, none, some}
use tol103m_assignment_p.Queue.{MessageQueue}
use tol103m_assignment_p.Queue.History.{refusals}
use tol103m_assignment_p.Lownet.Frame.{Frame, SecureFrame}
use tol103m_assignment_p.Lownet.Keys.{Key}
use tol103m_assignment_p.Lownet.Net.{Net, lownet_set_key}
use tol103m_assignment_p.Lownet.Receive.{
  to_inbound, to_decrypt, dropped, Inbound, Verdict, lownet_inbound_handler, decrypt_service,
  service_frame,
}

-- net_system, its queues, and what happened so far: the data that arrived, the frames that were
-- offered to the second queue, those that the service took, its verdicts, and how many each queue
-- refused.
pub record Service (H I D : Type 0) : Type 0 where
  pub net : Net H
  pub inbound : I
  pub decrypt_queue : D
  pub arrived : List (List ℕ)
  pub offered : List Frame
  pub taken : List Frame
  pub verdicts : List (Verdict H)
  pub lost_secure : ℕ
  pub lost : ℕ

pub data Event : Type 0 where
  arrives : List ℕ → Event
  decrypts serves : Event
  sets_key : Option Key → Event

module _ {H : Type 0} (frames : MessageQueue Frame) (ciphers : MessageQueue SecureFrame) where
  abbrev pub offer :
      Service H frames.Queue ciphers.Queue → Frame → Service H frames.Queue ciphers.Queue
  offer v f = record v {
    inbound = (frames.send v.inbound f).0;
    offered = v.offered ++ (f ∷ []);
    lost = v.lost + refusals (frames.send v.inbound f).1;
  }

  -- The callback, with the result of its tests.
  unfoldable pub arrive :
      Service H frames.Queue ciphers.Queue → List ℕ → Inbound → Service H frames.Queue ciphers.Queue
  arrive v bytes (to_inbound f) = record (offer v f) { arrived = v.arrived ++ (bytes ∷ []) }
  arrive v bytes (to_decrypt c) = record v {
    decrypt_queue = (ciphers.send v.decrypt_queue c).0;
    arrived = v.arrived ++ (bytes ∷ []);
    lost_secure = v.lost_secure + refusals (ciphers.send v.decrypt_queue c).1;
  }
  arrive v bytes dropped = record v { arrived = v.arrived ++ (bytes ∷ []) }

  -- A round of the decryption; `none` is the fault of decrypt_service.
  unfoldable pub decrypt_round :
      (Key → SecureFrame → SecureFrame)
      → Service H frames.Queue ciphers.Queue
      → Option (Service H frames.Queue ciphers.Queue)
  decrypt_round decrypt v = elim (ciphers.receive v.decrypt_queue) [
    | none ↦ some v
    | some (c, rest) ↦ (elim (decrypt_service decrypt v.net c) [
      | none ↦ none
      | some f ↦ some (offer (record v { decrypt_queue = rest }) f)
    ])
  ]

  -- A round of the service. What the handler does is not part of it.
  unfoldable pub service_round :
      Service H frames.Queue ciphers.Queue → Service H frames.Queue ciphers.Queue
  service_round v = elim (frames.receive v.inbound) [
    | none ↦ v
    | some (f, rest) ↦ record v {
      inbound = rest;
      taken = v.taken ++ (f ∷ []);
      verdicts = v.verdicts ++ (service_frame v.net f ∷ []);
    }
  ]

  unfoldable pub happens :
      (Key → SecureFrame → SecureFrame)
      → Service H frames.Queue ciphers.Queue
      → Event
      → Option (Service H frames.Queue ciphers.Queue)
  unfolding arrive decrypt_round service_round
  happens decrypt v (arrives bytes) = some (arrive v bytes (lownet_inbound_handler v.net bytes))
  happens decrypt v decrypts = decrypt_round decrypt v
  happens decrypt v serves = some (service_round v)
  happens decrypt v (sets_key key) = some (record v { net = lownet_set_key v.net key })

  unfoldable pub happen :
      (Key → SecureFrame → SecureFrame)
      → Service H frames.Queue ciphers.Queue
      → List Event
      → Option (Service H frames.Queue ciphers.Queue)
  unfolding happens
  happen decrypt v [] = some v
  happen decrypt v (e ∷ es) = elim (happens decrypt v e) [
    | none ↦ none
    | some v' ↦ happen decrypt v' es
  ]

  -- A started node: its queues are empty.
  abbrev pub started : Net H → Service H frames.Queue ciphers.Queue
  started net = record {
    net = net;
    inbound = frames.create;
    decrypt_queue = ciphers.create;
    arrived = [];
    offered = [];
    taken = [];
    verdicts = [];
    lost_secure = 0;
    lost = 0;
  }
