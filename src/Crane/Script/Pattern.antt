-- ===== src/Crane/Script/Pattern.antt =====
-- The test pattern against a crane that acknowledges every action at once.
use tol103m_assignment_p.Base.{
  list_laws, ℕ, suc, ◌≡◌, ◌≢◌, refl, ap, ◌∙◌, inl, arith, List, [], ◌∷◌, ◌++◌, map, ◌==◌,
  if◌then◌else◌, length,
}
use tol103m_assignment_p.Lownet.Frame.{Frame}
use tol103m_assignment_p.Crane.Packet.{
  CranePacket, packet_of_bytes, crane_fwd, crane_rev, crane_up, crane_down, crane_light_on,
  crane_light_off,
}
use tol103m_assignment_p.Crane.Machine.{
  AckQueue, IsAckQueue, Crane, World, Phase, Sent, disconnected, handshake, connected, is_connected,
  packets, syn_packet, handshake_reply, crane_send, crane_recv_connect, crane_receive,
  crane_dispatch, receive_all, delay, crane_disconnect,
}
use tol103m_assignment_p.Crane.Machine.Phases.{IsSynAck, close_packet, disconnect_lem, packets-send}
use tol103m_assignment_p.Crane.Script.{
  wait_idle, wait_connected, act_all, test_syn, test_pattern, crane_test,
}
use tol103m_assignment_p.Crane.Script.Rows.{AllComplete, each, numbered, Ready, row_complete}

-- The actions of the test, in order.
abbrev pub test_actions : List ℕ
test_actions =
    crane_light_on ∷ crane_fwd ∷ crane_fwd ∷ crane_rev ∷ crane_down ∷ crane_down ∷ crane_up
    ∷ crane_up ∷ crane_rev ∷ crane_light_off ∷ []

module _ (os : AckQueue) (laws : IsAckQueue os) (id : ℕ) (node : id ≢ 0) where
  open os use {Queue}
  open laws use {contents}

  idle_at_once :
      (n : ℕ) (w : World Queue) → (w.client).last_backlog ≡ 0 → wait_idle os (suc n) w ≡ w
  unfolding wait_idle
  idle_at_once n w e = ap (λ (left : ℕ). if left == 0 then w else wait_idle os n (delay os w)) e

  connected_at_once :
      (n : ℕ) (w : World Queue) → (w.client).phase ≡ connected → wait_connected os (suc n) w ≡ w
  unfolding wait_connected
  connected_at_once n w e =
      ap (λ (p : Phase). if is_connected p then w else wait_connected os n (delay os w)) e

  established :
      (c : Crane Queue) (f : Frame)
      → c.phase ≡ handshake
      → IsSynAck (packet_of_bytes f.payload)
      → let d = crane_receive os c f in
        (d.phase ≡ connected)
        × (d.seq ≡ 1)
        × (d.crane ≡ c.crane)
        × (d.acks ≡ c.acks)
        × (d.sent
            ≡ c.sent
              ++ (record {
                destination = c.crane;
                packet = handshake_reply (packet_of_bytes f.payload);
              }
                  ∷ []))
  unfolding crane_receive crane_dispatch crane_recv_connect crane_send
  established c f h a = (ground arith, ground arith, ground arith, ground arith, ground arith)

  first_wait :
      (n : ℕ) (c : Crane Queue) (syn : Frame) (rest : List (List Frame))
      → wait_connected os (suc n) (record { client = test_syn id c; arrivals = (syn ∷ []) ∷ rest })
        ≡ wait_connected os n
            (record { client = crane_receive os (test_syn id c) syn; arrivals = rest })
  unfolding wait_connected test_syn crane_send delay receive_all
  first_wait n c syn rest = refl

  handshake_Ready :
      (c : Crane Queue) (syn : Frame) (rest : List (List Frame))
      → IsSynAck (packet_of_bytes syn.payload)
      → contents c.acks ≡ []
      → (v : World Queue) × (wait_connected os 30
            (record { client = test_syn id c; arrivals = (syn ∷ []) ∷ rest })
          ≡ v)
        × Ready os laws id node 1
            ((packets c ++ (syn_packet 9 ∷ []))
              ++ (handshake_reply (packet_of_bytes syn.payload) ∷ []))
            rest
            v
  handshake_Ready c syn rest a empty =
      let d = crane_receive os (test_syn id c) syn in
      let v : World Queue = record { client = d; arrivals = rest } in
      let opening : (test_syn id c).phase ≡ handshake = unfold test_syn crane_send in refl in
      let (on, first, to, queue, sent) = established (test_syn id c) syn opening a in
      let reply = handshake_reply (packet_of_bytes syn.payload) in
      let opened : packets (test_syn id c) ≡ packets c ++ (syn_packet 9 ∷ []) =
        unfold test_syn in
        packets-send (record c { crane = id; phase = handshake; seq = 0 }) id (syn_packet 9) in
      let replied : map (λ (x : Sent). x.packet)
            ((test_syn id c).sent
              ++ (record { destination = (test_syn id c).crane; packet = reply } ∷ []))
          ≡ packets (test_syn id c) ++ (reply ∷ []) =
        unfold crane_send in packets-send (test_syn id c) (test_syn id c).crane reply in
      (
        v,
        first_wait 29 c syn rest ∙ connected_at_once 28 v on,
        record {
          on = on;
          to = to ∙ unfold test_syn crane_send in refl;
          next = first;
          none_queued = ap contents queue ∙ unfold test_syn crane_send in empty;
          so_far =
              ap (map (λ (x : Sent). x.packet)) sent
              ∙ (replied ∙ ap (λ (l : List CranePacket). l ++ (reply ∷ [])) opened);
          coming = refl;
        },
      )

  -- From the end of the handshake to the CLOSE.
  pattern_completes :
      (log : List CranePacket) (fs gs hs : List Frame) (rest : List (List Frame)) (w : World Queue)
      → length fs ≡ 4
      → length gs ≡ 2
      → length hs ≡ 4
      → AllComplete fs 1
      → AllComplete gs 5
      → AllComplete hs 7
      → Ready os laws id node 1 log (each fs (each gs (each hs rest))) w
      → let d = (test_pattern os w).client in
        (d.phase ≡ disconnected)
        × (d.seq ≡ 0)
        × (packets d ≡ log ++ (numbered 1 test_actions ++ (close_packet 11 ∷ [])))
  unfolding test_pattern
  pattern_completes log fs gs hs rest w nf ng nh df dg dh r =
      let forth = act_all os (crane_light_on ∷ crane_fwd ∷ crane_fwd ∷ crane_rev ∷ []) w in
      let (r1, idle1) =
        row_complete os laws id node crane_light_on (crane_fwd ∷ crane_fwd ∷ crane_rev ∷ []) fs 1
          log (each gs (each hs rest)) w nf (omega arith) (omega arith) df r in
      let e1 = idle_at_once 99 forth idle1 in
      let lowered = act_all os (crane_down ∷ crane_down ∷ []) forth in
      let (r2, idle2) =
        row_complete os laws id node crane_down (crane_down ∷ []) gs 5 _ (each hs rest) forth ng
          (omega arith) (omega arith) dg r1 in
      let e2 = idle_at_once 99 lowered idle2 in
      let back = act_all os (crane_up ∷ crane_up ∷ crane_rev ∷ crane_light_off ∷ []) lowered in
      let (r3, idle3) =
        row_complete os laws id node crane_up (crane_up ∷ crane_rev ∷ crane_light_off ∷ []) hs 7 _
          rest lowered nh (omega arith) (omega arith) dh r2 in
      let e3 = idle_at_once 99 back idle3 in
      let whole : test_pattern os w ≡ crane_disconnect os back =
        ap
          (λ (v : World Queue). crane_disconnect os (
            wait_idle os 100 (
              act_all os (crane_up ∷ crane_up ∷ crane_rev ∷ crane_light_off ∷ [])
                (wait_idle os 100 (act_all os (crane_down ∷ crane_down ∷ []) v)))))
          e1
        ∙ (ap
              (λ (v : World Queue). crane_disconnect os (
                wait_idle os 100
                  (act_all os (crane_up ∷ crane_up ∷ crane_rev ∷ crane_light_off ∷ []) v)))
              e2
            ∙ ap (crane_disconnect os) e3) in
      let a = numbered 1 (crane_light_on ∷ crane_fwd ∷ crane_fwd ∷ crane_rev ∷ []) in
      let b = numbered 5 (crane_down ∷ crane_down ∷ []) in
      let c = numbered 7 (crane_up ∷ crane_up ∷ crane_rev ∷ crane_light_off ∷ []) in
      let close = close_packet 11 ∷ [] in
      let (off, zeroed, sent) =
        disconnect_lem os 11 (((log ++ a) ++ b) ++ c) back (inl (r3.on, r3.next), r3.so_far) in
      (
        ap (λ (v : World Queue). (v.client).phase) whole ∙ off,
        ap (λ (v : World Queue). (v.client).seq) whole ∙ zeroed,
        ap (λ (v : World Queue). packets v.client) whole
            ∙ (sent
                ∙ (ap (λ (q : ℕ). (((log ++ a) ++ b) ++ c) ++ (close_packet q ∷ [])) r3.next
                    ∙ simp list_laws)),
      )

-- Against a crane with an id other than 0 that answers the SYN during the first wait, and each action
-- during its wait with a status that acknowledges it and reports no backlog, crane_test on a client
-- with nothing queued sends the SYN with TEST, the reply to the crane's challenge, the ten actions of
-- the test in order with the sequence numbers 1 to 10, each once, and one CLOSE with 11, and leaves
-- the client disconnected.
pub crane_test_completes :
    (os : AckQueue) (laws : IsAckQueue os) (id : ℕ) (c : Crane os.Queue) (syn : Frame)
    (fs gs hs : List Frame) (rest : List (List Frame))
    → id ≢ 0
    → laws.contents c.acks ≡ []
    → IsSynAck (packet_of_bytes syn.payload)
    → length fs ≡ 4
    → length gs ≡ 2
    → length hs ≡ 4
    → AllComplete fs 1
    → AllComplete gs 5
    → AllComplete hs 7
    → let w : World os.Queue = record {
      client = c;
      arrivals = (syn ∷ []) ∷ each fs (each gs (each hs rest));
    } in
      let d = (crane_test os id w).client in
      (d.phase ≡ disconnected)
      × (d.seq ≡ 0)
      × (packets d
          ≡ packets c
            ++ (syn_packet 9
                ∷ handshake_reply (packet_of_bytes syn.payload)
                ∷ (numbered 1 test_actions ++ (close_packet 11 ∷ []))))
unfolding crane_test
crane_test_completes os laws id c syn fs gs hs rest node empty a nf ng nh df dg dh =
    let p = packet_of_bytes syn.payload in
    let w : World os.Queue = record {
      client = c;
      arrivals = (syn ∷ []) ∷ each fs (each gs (each hs rest));
    } in
    let (v, waited, r) =
      handshake_Ready os laws id node c syn (each fs (each gs (each hs rest))) a empty in
    let log = (packets c ++ (syn_packet 9 ∷ [])) ++ (handshake_reply p ∷ []) in
    let (off, zeroed, sent) =
      pattern_completes os laws id node log fs gs hs rest v nf ng nh df dg dh r in
    let whole : crane_test os id w ≡ test_pattern os v =
      ap (λ (x : World os.Queue). if is_connected (x.client).phase then test_pattern os x else x)
        waited
      ∙ ap (λ (q : Phase). if is_connected q then test_pattern os v else v) r.on in
    let script = numbered 1 test_actions ++ (close_packet 11 ∷ []) in
    (
      ap (λ (x : World os.Queue). (x.client).phase) whole ∙ off,
      ap (λ (x : World os.Queue). (x.client).seq) whole ∙ zeroed,
      ap (λ (x : World os.Queue). packets x.client) whole ∙ (sent ∙ simp list_laws),
    )
