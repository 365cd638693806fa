-- ===== src/Ping/Frames.antt =====
-- The frames that ping and ping_receive make.
use tol103m_assignment_p.Base.{
  ℕ, ◌+◌, ◌≤◌, ◌≡◌, refl, ◌∙◌, arith, List, Option, none, some, u8, take, drop, length, copy_over,
  length-append, length-take, length-drop, take-append, take-copy_over, length-copy_over,
}
use tol103m_assignment_p.Utility.{min}
use tol103m_assignment_p.Lownet.Frame.{Frame}
use tol103m_assignment_p.Lownet.Time.{Time}
use tol103m_assignment_p.Lownet.Net.{Net, lownet_get_time, lownet_get_device_id}
use tol103m_assignment_p.Ping.{
  PingPacket, ping_bytes, ping_packet, copy_at, bare_ping, ping, reply_to,
}

-- A frame of the ping protocol that starts with the packet p.
pub record IsPing (p : PingPacket) (node : ℕ) (f : Frame) : Type 0 where
  pub to_node : f.destination ≡ node
  pub of_ping : f.protocol ≡ 3
  pub whole : 11 ≤ f.len
  pub fits : f.len ≤ 200
  pub held : length f.payload ≡ 200
  pub starts : take 11 f.payload ≡ ping_bytes p

-- The payload that a ping is given has as many bytes as its length says; no payload is NULL.
abbrev pub Supplies : Option (List ℕ) → ℕ → Type 0
Supplies none n = Unit {0}
Supplies (some payload) n = n ≤ length payload

abbrev pub sent_packet : {H : Type 0} → Net H → ℕ → Time → PingPacket
sent_packet net timer stale = record {
  timestamp_out = lownet_get_time net timer;
  timestamp_back = stale;
  origin = lownet_get_device_id net;
}

length-ping_bytes : (p : PingPacket) → length (ping_bytes p) ≡ 11
unfolding ping_bytes
length-ping_bytes p = refl

take-copy_at :
    (at : ℕ) (dst src : List ℕ) (n : ℕ)
    → at ≤ length dst
    → take at (copy_at dst at src n) ≡ take at dst
take-copy_at at dst src n h =
    take-append at (take at dst) (copy_over (drop at dst) src n) (length-take at dst h)

length-copy_at :
    (at : ℕ) (dst src : List ℕ) (n : ℕ)
    → at + n ≤ length dst
    → n ≤ length src
    → length (copy_at dst at src n) ≡ length dst
length-copy_at at dst src n h s =
    let e0 = length-append (take at dst) (copy_over (drop at dst) src n) in
    let e1 = length-take at dst (omega arith) in
    let e2 = length-drop at dst in
    let e3 = length-copy_over n (drop at dst) src s (omega arith) in omega arith

module _ {H : Type 0} (net : Net H) (timer : ℕ) (garbage : Frame)
    (room : length garbage.payload ≡ 200) where
  bare_ping-IsPing :
      (stale : Time) (node : ℕ)
      → IsPing (sent_packet net timer stale) node (bare_ping net timer garbage stale node)
  unfolding bare_ping
  bare_ping-IsPing stale node =
      let p = sent_packet net timer stale in
      let size = length-ping_bytes p in
      record {
        to_node = refl;
        of_ping = refl;
        whole = omega arith;
        fits = omega arith;
        held =
            length-copy_over 11 garbage.payload (ping_bytes p) (omega arith) (omega arith) ∙ room;
        starts = take-copy_over 11 garbage.payload (ping_bytes p) size;
      }

  min_lem : (n : ℕ) → (min 189 n ≤ 189) × (min 189 n ≤ n)
  unfolding min
  min_lem n = (ground arith, ground arith)

  u8-small : (n : ℕ) → n ≤ 200 → u8 n ≡ n
  u8-small n h = omega arith

  pub ping-IsPing :
      (stale : Time) (node : ℕ) (payload : Option (List ℕ)) (n : ℕ)
      → Supplies payload n
      → IsPing (sent_packet net timer stale) node (ping net timer garbage stale node payload n)
  unfolding ping bare_ping
  ping-IsPing stale node none n s = bare_ping-IsPing stale node
  ping-IsPing stale node (some payload) n s =
      let bare = bare_ping-IsPing stale node in
      let f = bare_ping net timer garbage stale node in
      let k = min 189 n in
      let (low, high) = min_lem n in
      let small = u8-small (11 + k) (omega arith) in
      let size = bare.held in
      record {
        to_node = refl;
        of_ping = refl;
        whole = omega arith;
        fits = omega arith;
        held = length-copy_at 11 f.payload payload k (omega arith) (omega arith) ∙ bare.held;
        starts = take-copy_at 11 f.payload payload k (omega arith) ∙ bare.starts;
      }

  pub reply_to-IsPing :
      (f : Frame)
      → 11 ≤ f.len
      → f.len ≤ 200
      → f.len ≤ length f.payload
      → IsPing
          (record (ping_packet f.payload) { timestamp_back = lownet_get_time net timer })
          f.source
          (reply_to net timer garbage f)
  unfolding reply_to
  reply_to-IsPing f whole fits held =
      let p = record (ping_packet f.payload) { timestamp_back = lownet_get_time net timer } in
      let size = length-ping_bytes p in
      let copied = copy_over garbage.payload f.payload f.len in
      let h = length-copy_over f.len garbage.payload f.payload held (omega (arith, room)) in
      record {
        to_node = refl;
        of_ping = refl;
        whole = whole;
        fits = fits;
        held =
            length-copy_over 11 copied (ping_bytes p) (omega arith) (omega (arith, room))
            ∙ (h ∙ room);
        starts = take-copy_over 11 copied (ping_bytes p) size;
      }
