-- ===== src/Crane/Packet.antt =====
-- crane_packet_t of managed_components/crane/include/crane.h, its bytes in a frame's payload, and
-- crane_send up to its call of lownet_send.
pub mod Codec
use tol103m_assignment_p.Base.{ℕ, ◌+◌, ◌-◌, ◌*◌, ◌/◌, List, [], ◌∷◌, u8, le32, from_le32, copy_over}
use tol103m_assignment_p.Lownet.Frame.{Frame}

abbrev pub crane_proto : ℕ
crane_proto = 0x05

abbrev pub crane_connect_type : ℕ
crane_connect_type = 0x01

abbrev pub crane_status_type : ℕ
crane_status_type = 0x02

abbrev pub crane_action_type : ℕ
crane_action_type = 0x03

abbrev pub crane_close_type : ℕ
crane_close_type = 0x04

-- Flags.
abbrev pub crane_syn : ℕ
crane_syn = 1

abbrev pub crane_ack : ℕ
crane_ack = 2

abbrev pub crane_nak : ℕ
crane_nak = 4

abbrev pub crane_test_flag : ℕ
crane_test_flag = 8

-- Actions.
abbrev pub crane_stop : ℕ
crane_stop = 0x01

abbrev pub crane_fwd : ℕ
crane_fwd = 0x02

abbrev pub crane_rev : ℕ
crane_rev = 0x03

abbrev pub crane_up : ℕ
crane_up = 0x04

abbrev pub crane_down : ℕ
crane_down = 0x05

abbrev pub crane_light_on : ℕ
crane_light_on = 0x06

abbrev pub crane_light_off : ℕ
crane_light_off = 0x07

-- The union `d` is its four bytes; the members that the code uses are read and written below.
pub record CranePacket : Type 0 where
  pub type : ℕ
  pub flags : ℕ
  pub seq : ℕ
  pub d0 : ℕ
  pub d1 : ℕ
  pub d2 : ℕ
  pub d3 : ℕ

-- memset(&packet, 0, sizeof(packet)).
abbrev pub zero_packet : CranePacket
zero_packet = record { type = 0; flags = 0; seq = 0; d0 = 0; d1 = 0; d2 = 0; d3 = 0 }

-- d.conn.challenge.
abbrev pub challenge : CranePacket → ℕ
challenge p = from_le32 p.d0 p.d1 p.d2 p.d3

abbrev pub set_challenge : CranePacket → ℕ → CranePacket
set_challenge p n = record p {
  d0 = u8 n;
  d1 = u8 (n / 256);
  d2 = u8 (n / 65536);
  d3 = u8 (n / 16777216);
}

-- ~x for a uint32_t.
abbrev pub complement32 : ℕ → ℕ
complement32 x = 4294967295 - x

-- The first member of status_t.
abbrev pub backlog : CranePacket → ℕ
backlog p = p.d0

unfoldable pub packet_bytes : CranePacket → List ℕ
packet_bytes p = p.type ∷ p.flags ∷ u8 p.seq ∷ u8 (p.seq / 256) ∷ p.d0 ∷ p.d1 ∷ p.d2 ∷ p.d3 ∷ []

-- memcpy(&packet, frame->payload, sizeof packet).
unfoldable pub packet_of_bytes : List ℕ → CranePacket
packet_of_bytes (t ∷ f ∷ s0 ∷ s1 ∷ d0 ∷ d1 ∷ d2 ∷ d3 ∷ rest) = record {
  type = t;
  flags = f;
  seq = s0 + s1 * 256;
  d0 = d0;
  d1 = d1;
  d2 = d2;
  d3 = d3;
}
packet_of_bytes _ = zero_packet

-- The frame that crane_send hands to lownet_send. `garbage` is the uninitialised local.
unfoldable pub crane_frame : Frame → ℕ → CranePacket → Frame
unfolding packet_bytes
crane_frame garbage id packet = record garbage {
  destination = id;
  protocol = crane_proto;
  len = 8;
  payload = copy_over garbage.payload (packet_bytes packet) 8;
}
