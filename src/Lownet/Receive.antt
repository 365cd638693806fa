-- ===== src/Lownet/Receive.antt =====
-- The way in, of managed_components/lownet/lownet.c: lownet_inbound_handler, the body of the loop in
-- decrypt_service_main, and that of the loop in lownet_service_main. The two queues between them are
-- FreeRTOS queues that drop what does not fit; here is what each of the three does with one item.
pub mod Verdicts
use tol103m_assignment_p.Base.{
  ℕ, List, Option, none, some, Bool, not, ◌&&◌, ◌==◌, bit_and, if◌then◌else◌, length,
}
use tol103m_assignment_p.Lownet.Frame.{
  Frame, SecureFrame, frame_size, secure_frame_size, header, with_body, frame_of_bytes,
  secure_of_bytes,
}
use tol103m_assignment_p.Lownet.Keys.{Key}
use tol103m_assignment_p.Lownet.Net.{Net, lownet_get_key}
use tol103m_assignment_p.Lownet.Protocols.{lownet_get_handler}
use tol103m_assignment_p.Lownet.Send.{plain_magic0, magic_tail, lownet_crc}

-- Which queue the callback sends the data to, if any.
pub data Inbound : Type 0 where
  to_inbound : Frame → Inbound
  to_decrypt : SecureFrame → Inbound
  dropped : Inbound

-- What the service does with a frame: a reason to discard it, or the handler that is called on it.
pub data Verdict (H : Type 0) : Type 0 where
  bad_magic bad_crc from_broadcast not_for_us no_handler : Verdict H
  handled : H → Frame → Verdict H

module _ {H : Type 0} where
  unfoldable pub lownet_inbound_handler : Net H → List ℕ → Inbound
  lownet_inbound_handler net bytes =
      if length bytes == frame_size && net.aes_key.size == 0
      then to_inbound (frame_of_bytes bytes)
      else (if length bytes == secure_frame_size && not (net.aes_key.size == 0)
          then to_decrypt (secure_of_bytes bytes)
          else dropped)

  -- `decrypt` is net_system.decrypt, which reads the active key: `none` is its NULL dereference when
  -- the key was removed after the frame was queued.
  unfoldable pub decrypt_service :
      (Key → SecureFrame → SecureFrame) → Net H → SecureFrame → Option Frame
  decrypt_service decrypt net cipher = elim (lownet_get_key net) [
    | none ↦ none
    | some key ↦
        let plain = decrypt key cipher in
        some (with_body (header plain_magic0 magic_tail plain.source plain.destination) plain.body)
  ]

  unfoldable pub service_frame : Net H → Frame → Verdict H
  service_frame net f =
      if not (f.magic0 == plain_magic0 && f.magic1 == magic_tail)
      then bad_magic
      else (if not (lownet_crc f == f.crc)
          then bad_crc
          else (if f.source == 0xff
              then from_broadcast
              else (if not (f.destination == net.identity.node)
                    && not (f.destination == net.broadcast.node)
                  then not_for_us
                  else (elim (lownet_get_handler net.protocols (bit_and f.protocol 0x3f)) [
                    | none ↦ no_handler
                    | some h ↦ handled h f
                  ]))))

  -- The three in turn, as for a frame that both queues have room for. `none` is the fault above, or
  -- data of the wrong size.
  unfoldable pub receive_bytes :
      (Key → SecureFrame → SecureFrame) → Net H → List ℕ → Option (Verdict H)
  receive_bytes decrypt net bytes = elim (lownet_inbound_handler net bytes) [
    | dropped ↦ none
    | to_inbound f ↦ some (service_frame net f)
    | to_decrypt c ↦ (elim (decrypt_service decrypt net c) [
      | none ↦ none
      | some f ↦ some (service_frame net f)
    ])
  ]
