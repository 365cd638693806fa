-- ===== src/Tests/Service.antt =====
-- The service's queues, its start, and the protocol table.
use tol103m_assignment_p.Base.{
  ◌+◌, ◌≡◌, ◌↔◌, refl, arith, List, [], ◌∷◌, ◌++◌, map, none, some, true, false, replicate,
}
use tol103m_assignment_p.Queue.{MessageQueue}
use tol103m_assignment_p.Queue.History.{IsHistory}
use tol103m_assignment_p.DeviceTable.{lownet_lookup_mac}
use tol103m_assignment_p.Lownet.Frame.{Frame, SecureFrame}
use tol103m_assignment_p.Lownet.Keys.{empty_keystore}
use tol103m_assignment_p.Lownet.Protocols.{no_protocols, lownet_register_protocol}
use tol103m_assignment_p.Lownet.Protocols.Registry.{no_protocols-IsTable}
use tol103m_assignment_p.Lownet.Protocols.View.{view, register_swap}
use tol103m_assignment_p.Lownet.Receive.{service_frame}
use tol103m_assignment_p.Lownet.Service.{
  Service, Event, arrives, decrypts, serves, sets_key, happen, started,
}
use tol103m_assignment_p.Lownet.Service.Opened.{opened, frames_in}
use tol103m_assignment_p.Lownet.Service.Order.{served_frames}
use tol103m_assignment_p.Lownet.Service.Fault.{key_removed_faults}
use tol103m_assignment_p.Lownet.Start.{Esp, System, already_initialized, ready, lownet_init}
use tol103m_assignment_p.Lownet.Start.Outcomes.{
  Succeeds, After, is_retryable, init-ready_iff, init_leaves, init_again,
}
use tol103m_assignment_p.Crypt.{crypt_decrypt}
use tol103m_assignment_p.App.{Handler, chat_receive, ping_receive}
use tol103m_assignment_p.Tests.Nodes.{xor_cbc, first_node, second_node}
use tol103m_assignment_p.Tests.Queues.{bounded, bounded-IsQueue}

abbrev frames : MessageQueue Frame
frames = bounded Frame 16

abbrev ciphers : MessageQueue SecureFrame
ciphers = bounded SecureFrame 16

-- A secure frame of zeros, and one that is too short.
abbrev arrivals : List Event
arrivals = arrives (replicate 228 0) ∷ arrives (0 ∷ []) ∷ decrypts ∷ serves ∷ []

served_frames_example :
    (v : Service Handler (List Frame) (List SecureFrame)) × (happen frames ciphers
        (crypt_decrypt xor_cbc)
        (started frames ciphers first_node)
        arrivals
      ≡ some v)
    × IsHistory 16
        (map (service_frame first_node) (frames_in (crypt_decrypt xor_cbc) first_node v.arrived))
        v.verdicts
        (map
          (service_frame first_node)
          (v.inbound ++ map (opened (crypt_decrypt xor_cbc) first_node) v.decrypt_queue))
        (v.lost_secure + v.lost)
served_frames_example =
    served_frames (bounded-IsQueue Frame 16) (bounded-IsQueue SecureFrame 16)
      (crypt_decrypt xor_cbc) first_node arrivals tt

key_removed_faults_example :
    happen frames ciphers
      (crypt_decrypt xor_cbc)
      (started frames ciphers first_node)
      (arrives (replicate 228 0) ∷ (sets_key none ∷ (decrypts ∷ [])))
    ≡ none
key_removed_faults_example =
    key_removed_faults frames (bounded-IsQueue SecureFrame 16) (crypt_decrypt xor_cbc) first_node
      (replicate 228 0) (omega arith) refl

-- Everything succeeds, on the first node's chip.
abbrev chip : Esp
chip = record {
  decrypt_queue = true;
  checks = true;
  esp_now = true;
  events = true;
  service_task = true;
  decrypt_task = true;
  inbound = true;
  read_mac = true;
  mac = 0xf0 ∷ 0x24 ∷ 0xf9 ∷ 0x0c ∷ 0xd6 ∷ 0x0c ∷ [];
  stack_mac = replicate 6 0;
  peer = true;
  callback = true;
  in_time = true;
  identified = true;
  registered = true;
}

abbrev unknown_chip : Esp
unknown_chip = record chip { mac = replicate 6 1 }

abbrev cold : System Handler
cold = record {
  net_initialized = false;
  net = second_node;
  keystore = empty_keystore;
  decrypt_tasks = 0;
  service_tasks = 0;
  receives = false;
}

init-ready_iff_example : ((lownet_init chip cold).1 ≡ ready) ↔ Succeeds chip
init-ready_iff_example = init-ready_iff chip cold refl

-- Without the decryption's task and the callback the node is ready all the same.
deaf_chip_ready :
    (lownet_init (record chip { decrypt_task = false; callback = false }) cold).1 ≡ ready
unfolding lownet_lookup_mac
deaf_chip_ready =
    (init-ready_iff (record chip { decrypt_task = false; callback = false }) cold refl).1 (record {
      prepared = (refl, refl, refl, refl);
      served = (refl, refl, refl, refl);
      known = omega arith;
    })

init_again_example :
    ((lownet_init chip (lownet_init unknown_chip cold).0).1 ≡ already_initialized)
    ↔ (is_retryable (lownet_init unknown_chip cold).1 ≡ false)
init_again_example = init_again unknown_chip cold refl chip

init_leaves_example : After (lownet_init chip cold).1 chip cold (lownet_init chip cold).0
init_leaves_example = init_leaves chip cold refl refl

register_swap_example :
    view
      (lownet_register_protocol
        (lownet_register_protocol no_protocols 2 chat_receive).0
        3
        ping_receive).0
    ≡ view
        (lownet_register_protocol
          (lownet_register_protocol no_protocols 3 ping_receive).0
          2
          chat_receive).0
unfolding no_protocols
register_swap_example =
    register_swap no_protocols 2 3 chat_receive ping_receive no_protocols-IsTable (omega arith)
      (omega arith)
