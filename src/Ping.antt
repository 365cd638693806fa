-- ===== src/Ping.antt =====
-- managed_components/ping/ping.c. The uninitialised locals are arguments: `garbage` is a frame,
-- `stale` the second time of a new packet. esp_timer_get_time() is the argument `timer`.
pub mod Packet
pub mod Frames
pub mod RoundTrip
use tol103m_assignment_p.Base.{
  ℕ, ◌+◌, ◌-◌, ◌/◌, List, [], ◌∷◌, ◌++◌, Option, none, some, ◌==◌, ltb, if◌then◌else◌, u8, take,
  drop, get_or, copy_over,
}
use tol103m_assignment_p.Utility.{min, node_argument}
use tol103m_assignment_p.Lownet.Frame.{Frame, payload_size}
use tol103m_assignment_p.Lownet.Time.{Time, time_diff}
use tol103m_assignment_p.Lownet.Net.{Net, time_of_bytes, lownet_get_device_id, lownet_get_time}

abbrev pub ping_protocol : ℕ
ping_protocol = 0x03

pub record PingPacket : Type 0 where
  pub timestamp_out : Time
  pub timestamp_back : Time
  pub origin : ℕ

-- sizeof(ping_packet_t).
abbrev pub packet_size : ℕ
packet_size = 11

abbrev pub time_bytes : Time → List ℕ
time_bytes t =
    u8 t.seconds
    ∷ u8 (t.seconds / 256)
    ∷ u8 (t.seconds / 65536)
    ∷ u8 (t.seconds / 16777216)
    ∷ t.parts
    ∷ []

unfoldable pub ping_bytes : PingPacket → List ℕ
ping_bytes p = time_bytes p.timestamp_out ++ (time_bytes p.timestamp_back ++ (p.origin ∷ []))

-- memcpy(&packet, &frame->payload, sizeof packet).
unfoldable pub ping_packet : List ℕ → PingPacket
ping_packet payload = record {
  timestamp_out = time_of_bytes payload;
  timestamp_back = time_of_bytes (drop 5 payload);
  origin = get_or payload 10 0;
}

-- memcpy(dst + at, src, n).
abbrev pub copy_at : List ℕ → ℕ → List ℕ → ℕ → List ℕ
copy_at dst at src n = take at dst ++ copy_over (drop at dst) src n

-- What ping_receive does: nothing, a line with a node and a time, a reply that is given to
-- lownet_send, or a memcpy past the end of the reply's payload.
pub data Reaction : Type 0 where
  discarded overruns : Reaction
  reply_from : ℕ → Time → Reaction
  replies : Frame → Reaction

module _ {H : Type 0} (net : Net H) (timer : ℕ) (garbage : Frame) where
  -- The frame of ping before its payload is added.
  unfoldable pub bare_ping : Time → ℕ → Frame
  bare_ping stale node = record garbage {
    source = lownet_get_device_id net;
    destination = node;
    protocol = ping_protocol;
    len = packet_size;
    payload =
        copy_over garbage.payload
          (ping_bytes (record {
            timestamp_out = lownet_get_time net timer;
            timestamp_back = stale;
            origin = lownet_get_device_id net;
          }))
          packet_size;
  }

  -- The frame that is given to lownet_send; no payload is NULL.
  unfoldable pub ping : Time → ℕ → Option (List ℕ) → ℕ → Frame
  ping stale node none length = bare_ping stale node
  ping stale node (some payload) length =
      let frame = bare_ping stale node in
      record frame {
        payload = copy_at frame.payload frame.len payload (min (payload_size - packet_size) length);
        len = u8 (frame.len + min (payload_size - packet_size) length);
      }

  unfoldable pub reply_to : Frame → Frame
  reply_to frame = record garbage {
    source = lownet_get_device_id net;
    destination = frame.source;
    protocol = ping_protocol;
    len = frame.len;
    payload =
        copy_over (copy_over garbage.payload frame.payload frame.len)
          (ping_bytes
            (record (ping_packet frame.payload) { timestamp_back = lownet_get_time net timer }))
          packet_size;
  }

  unfoldable pub ping_receive : Frame → Reaction
  ping_receive frame =
      if ltb frame.len packet_size
      then discarded
      else (if (ping_packet frame.payload).origin == lownet_get_device_id net
          then reply_from frame.source
              (time_diff (ping_packet frame.payload).timestamp_out (lownet_get_time net timer))
          else (if ltb payload_size frame.len then overruns else replies (reply_to frame)))

-- What ping_command does with its argument: one of two error lines, or ping to a node without a payload.
pub data PingCommand : Type 0 where
  no_node invalid_node : PingCommand
  pings_node : ℕ → PingCommand

unfoldable pub ping_command : Option (List ℕ) → PingCommand
ping_command none = no_node
ping_command (some args) =
    if node_argument args [] == 0 then invalid_node else pings_node (node_argument args [])
