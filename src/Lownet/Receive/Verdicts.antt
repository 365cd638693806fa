-- ===== src/Lownet/Receive/Verdicts.antt =====
-- When a frame reaches a handler.
use tol103m_assignment_p.Base.{◌≡◌, ◌≢◌, ◌⊎◌, ◌↔◌, arith, some, bit_and}
use tol103m_assignment_p.Lownet.Frame.{Frame}
use tol103m_assignment_p.Lownet.Net.{Net}
use tol103m_assignment_p.Lownet.Protocols.{lownet_get_handler}
use tol103m_assignment_p.Lownet.Send.{lownet_crc}
use tol103m_assignment_p.Lownet.Receive.{handled, service_frame}

-- What a frame must be to be handled by `h`.
pub record Accepted {H : Type 0} (net : Net H) (f : Frame) (h : H) : Type 0 where
  pub magic : (f.magic0 ≡ 0x10) × (f.magic1 ≡ 0x4e)
  pub sealed : lownet_crc f ≡ f.crc
  pub not_broadcast_source : f.source ≢ 0xff
  pub for_us : (f.destination ≡ net.identity.node) ⊎ (f.destination ≡ net.broadcast.node)
  pub known : lownet_get_handler net.protocols (bit_and f.protocol 0x3f) ≡ some h

-- The service calls the handler `h`, on the frame as it came, exactly if the magic number and the
-- check sum are right, the source is not the broadcast address, the destination is this node or the
-- broadcast node, and `h` is registered for the low six bits of the protocol.
pub service_frame_iff :
    {H : Type 0} (net : Net H) (f : Frame) (h : H)
    → (service_frame net f ≡ handled h f) ↔ Accepted net f h
unfolding service_frame
service_frame_iff net f h = (λ e. ground arith, λ a. ground arith)
