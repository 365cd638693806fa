-- ===== src/Ping/RoundTrip.antt =====
-- A ping, its reply, and the time shown.
use tol103m_assignment_p.Base.{
  ℕ, zero, suc, ◌≤◌, ◌≡◌, ◌≢◌, inl, inr, refl, sym, ap, ap₂, ◌∙◌, subst, arith, List, [], ◌∷◌,
  Option, some, take, bit_and, length, length-take,
}
use tol103m_assignment_p.Lownet.Frame.{Frame}
use tol103m_assignment_p.Lownet.Time.{Time, time_diff}
use tol103m_assignment_p.Lownet.Time.Difference.{IsTime}
use tol103m_assignment_p.Lownet.Net.{Net, lownet_get_time, lownet_get_device_id}
use tol103m_assignment_p.Lownet.Protocols.{lownet_get_handler}
use tol103m_assignment_p.Lownet.Send.{lownet_send}
use tol103m_assignment_p.Lownet.Receive.{handled, receive_bytes}
use tol103m_assignment_p.Crypt.{AesCbc, IsAesCbc, crypt_encrypt, crypt_decrypt}
use tol103m_assignment_p.Crypt.Delivery.{Agree, SameKey, lownet_delivery}
use tol103m_assignment_p.Ping.{
  PingPacket, reply_from, replies, ping_bytes, ping_packet, ping, reply_to, ping_receive,
}
use tol103m_assignment_p.Ping.Packet.{
  take-take, clock-IsTime, ping_packet-origin, ping_packet-timestamp_out,
}
use tol103m_assignment_p.Ping.Frames.{IsPing, Supplies, sent_packet, ping-IsPing, reply_to-IsPing}

length-take-≤ : (n : ℕ) (xs : List ℕ) → length (take n xs) ≡ n → n ≤ length xs
length-take-≤ zero xs h = omega arith
length-take-≤ (suc n) [] h = absurd (omega arith)
length-take-≤ (suc n) (x ∷ xs) h = let rest = length-take-≤ n xs (omega arith) in omega arith

-- What the other node sees of a frame that starts with p.
record Arrived (p : PingPacket) (from n : ℕ) (out : Frame) : Type 0 where
  from_node : out.source ≡ from
  same_length : out.len ≡ n
  readable : out.len ≤ length out.payload
  begins : take 11 out.payload ≡ ping_bytes p

ping_crosses :
    {H : Type 0} (sender receiver : Net H) (h : H) (noise entropy : ℕ → ℕ) (aes : AesCbc)
    (p : PingPacket) (f : Frame)
    → IsPing p receiver.identity.node f
    → sender.identity.node ≢ 0xff
    → lownet_get_handler receiver.protocols 3 ≡ some h
    → IsAesCbc aes
    → SameKey sender receiver
    → (bytes : List ℕ) × (out : Frame) × (lownet_send sender noise (crypt_encrypt aes) entropy f
        ≡ some bytes)
      × (receive_bytes (crypt_decrypt aes) receiver bytes ≡ some (handled h out))
      × Arrived p sender.identity.node f.len out
ping_crosses sender receiver h noise entropy aes p f i source registered laws keys =
    let agree : Agree sender receiver h f = record {
      payload_held = i.held;
      fits = i.fits;
      sender_node = source;
      addressed = inl i.to_node;
      registered =
          ap (λ (q : ℕ). lownet_get_handler receiver.protocols (bit_and q 0x3f)) i.of_ping
          ∙ registered;
    } in
    let (bytes, out, sent, got, from, to, protocol, len, payload) =
      lownet_delivery sender receiver h noise entropy aes f agree laws keys in
    let fits = i.fits in
    let held = i.held in
    let whole = i.whole in
    let taken : take f.len out.payload ≡ take f.len f.payload = payload in
    let size : length (take f.len out.payload) ≡ f.len =
      ap length taken ∙ length-take f.len f.payload (omega arith) in
    let room = length-take-≤ f.len out.payload size in
    (
      bytes,
      out,
      sent,
      got,
      record {
        from_node = from;
        same_length = len;
        readable = omega arith;
        begins =
            sym (take-take 11 f.len out.payload whole)
            ∙ (ap (take 11) taken ∙ (take-take 11 f.len f.payload whole ∙ i.starts));
      },
    )

-- A frame that carries another node's packet gets a reply; one that carries this node's own shows
-- the time since it was sent.
receive_foreign :
    {H : Type 0} (net : Net H) (timer : ℕ) (garbage : Frame) (out : Frame)
    → 11 ≤ out.len
    → out.len ≤ 200
    → (ping_packet out.payload).origin ≢ net.identity.node
    → ping_receive net timer garbage out ≡ replies (reply_to net timer garbage out)
unfolding ping_receive lownet_get_device_id
receive_foreign net timer garbage out whole fits foreign = ground arith

receive_own :
    {H : Type 0} (net : Net H) (timer : ℕ) (garbage : Frame) (out : Frame)
    → 11 ≤ out.len
    → (ping_packet out.payload).origin ≡ net.identity.node
    → ping_receive net timer garbage out
      ≡ reply_from out.source
          (time_diff (ping_packet out.payload).timestamp_out (lownet_get_time net timer))
unfolding ping_receive lownet_get_device_id
receive_own net timer garbage out whole own = ground arith

SameKey-sym : {H : Type 0} (a b : Net H) → SameKey a b → SameKey b a
SameKey-sym a b (inl (x, y)) = inl (y, x)
SameKey-sym a b (inr (x, y, e)) = inr (y, x, sym e)

module _ {H : Type 0} (a b : Net H) (ha hb : H) (aes : AesCbc)
    (noise entropy noise' entropy' : ℕ → ℕ) (garbage garbage' garbage'' : Frame)
    (sent answered returned : ℕ) (stale : Time) (payload : Option (List ℕ)) (n : ℕ) where
  -- Whatever the two frames on the stacks and the second time of the new packet hold: a ping from a to
  -- b, with no payload or one that holds as many bytes as its length says, crosses to b's handler,
  -- ping_receive on b replies, the reply crosses to a's handler, and ping_receive on a shows b's id and
  -- the time on a's clock from the ping to the reply's arrival. The nodes differ, neither is the
  -- broadcast address, both have a handler for protocol 3, and they use one key, or none.
  pub ping_round_trip :
      length garbage.payload ≡ 200
      → length garbage'.payload ≡ 200
      → Supplies payload n
      → a.identity.node ≢ b.identity.node
      → a.identity.node ≢ 0xff
      → b.identity.node ≢ 0xff
      → lownet_get_handler a.protocols 3 ≡ some ha
      → lownet_get_handler b.protocols 3 ≡ some hb
      → IsAesCbc aes
      → SameKey a b
      → (bytes bytes' : List ℕ) × (out reply out' : Frame) × (lownet_send a noise
            (crypt_encrypt aes)
            entropy
            (ping a sent garbage stale b.identity.node payload n)
          ≡ some bytes)
        × (receive_bytes (crypt_decrypt aes) b bytes ≡ some (handled hb out))
        × (ping_receive b answered garbage' out ≡ replies reply)
        × (lownet_send b noise' (crypt_encrypt aes) entropy' reply ≡ some bytes')
        × (receive_bytes (crypt_decrypt aes) a bytes' ≡ some (handled ha out'))
        × (ping_receive a returned garbage'' out'
            ≡ reply_from b.identity.node
                (time_diff (lownet_get_time a sent) (lownet_get_time a returned)))
  ping_round_trip room room' supplies differ not_ff not_ff' known known' laws keys =
      let f = ping a sent garbage stale b.identity.node payload n in
      let p = sent_packet a sent stale in
      let i = ping-IsPing a sent garbage room stale b.identity.node payload n supplies in
      let (bytes, out, e0, e1, arrived) =
        ping_crosses a b hb noise entropy aes p f i not_ff known' laws keys in
      let i_whole = i.whole in
      let i_fits = i.fits in
      let len = arrived.same_length in
      let whole : 11 ≤ out.len = omega arith in
      let fits : out.len ≤ 200 = omega arith in
      let origin : (ping_packet out.payload).origin ≡ a.identity.node =
        ping_packet-origin p out.payload arrived.begins ∙ unfold lownet_get_device_id in refl in
      let time : (ping_packet out.payload).timestamp_out ≡ lownet_get_time a sent =
        ping_packet-timestamp_out p out.payload arrived.begins (clock-IsTime a sent) in
      let p' = record (ping_packet out.payload) { timestamp_back = lownet_get_time b answered } in
      let r = reply_to b answered garbage' out in
      let j =
        subst (λ (to : ℕ). IsPing p' to r) arrived.from_node
          (reply_to-IsPing b answered garbage' room' out whole fits arrived.readable) in
      let (bytes', out', e2, e3, arrived') =
        ping_crosses b a ha noise' entropy' aes p' r j not_ff' known laws (SameKey-sym a b keys) in
      let j_whole = j.whole in
      let len' = arrived'.same_length in
      let origin' : (ping_packet out'.payload).origin ≡ a.identity.node =
        ping_packet-origin p' out'.payload arrived'.begins ∙ origin in
      let time' : (ping_packet out'.payload).timestamp_out ≡ lownet_get_time a sent =
        ping_packet-timestamp_out p' out'.payload arrived'.begins
          (subst IsTime (sym time) (clock-IsTime a sent))
        ∙ time in
      (
        bytes,
        bytes',
        out,
        r,
        out',
        e0,
        e1,
        receive_foreign b answered garbage' out whole fits (λ e. differ (sym origin ∙ e)),
        e2,
        e3,
        receive_own a returned garbage'' out' (omega arith) origin'
            ∙ ap₂ (λ (s : ℕ) (t : Time). reply_from s (time_diff t (lownet_get_time a returned)))
                arrived'.from_node time',
      )
