-- ===== src/Crane/Machine/Written.antt =====
-- The status lines that the crane's client writes while frames arrive.
use mathlib.Core.List.{append_assoc, append-nil}
use tol103m_assignment_p.Base.{
  ℕ, ◌≡◌, refl, sym, ap, length, length-append, take-whole, ◌≤◌, ◌∙◌, arith, List, [], ◌∷◌, ◌++◌,
  Bool, true, false, ◌&&◌, ◌==◌, if◌then◌else◌, bit_and,
}
use tol103m_assignment_p.Lownet.Frame.{Frame}
use tol103m_assignment_p.Crane.Packet.{CranePacket, backlog, packet_of_bytes}
use tol103m_assignment_p.Lownet.Text.{decimal}
use tol103m_assignment_p.Lownet.Text.Decimal.{length-digits}
use tol103m_assignment_p.Crane.Texts.{
  status_text, status_line, time_label, light_label, light_on_text, light_off_text,
}
use tol103m_assignment_p.Crane.Machine.{
  AckQueue, Crane, World, crane_send, crane_recv_connect, crane_recv_status, crane_recv_close,
  crane_connect, crane_dispatch, crane_receive, receive_all, delay, crane_disconnect,
}

-- The lines for the STATUS packets without NAK among these frames.
abbrev pub line_of : CranePacket → List (List ℕ)
line_of p = if p.type == 2 && bit_and p.flags 4 == 0 then status_text p ∷ [] else []

light_fits : (p : CranePacket) → length (if p.d2 == 0 then light_off_text else light_on_text) ≤ 3
light_fits p = ground arith

-- snprintf cuts nothing.
status_line_lem : (p : CranePacket) → status_line p ≡ status_text p
unfolding status_line
status_line_lem p =
    let light = if p.d2 == 0 then light_off_text else light_on_text in
    let end = light_label ++ (light ++ (10 ∷ [])) in
    take-whole 199 (status_text p) (
      omega (
        arith,
        length-append (decimal (backlog p)) (10 ∷ (time_label ++ (decimal p.d1 ++ (10 ∷ end)))),
        length-append (decimal p.d1) (10 ∷ end),
        length-append light (10 ∷ []),
        light_fits p,
        length-digits 10 (backlog p),
        length-digits 10 p.d1,
      ))

abbrev pub statuses : List Frame → List (List ℕ)
statuses [] = []
statuses (f ∷ fs) = line_of (packet_of_bytes f.payload) ++ statuses fs

abbrev pub all_frames : List (List Frame) → List Frame
all_frames [] = []
all_frames (b ∷ bs) = b ++ all_frames bs

-- From `w` to `v` the first of the frames to come have arrived, and the status lines of exactly
-- these have been written.
pub record Shows {Q : Type 0} (w v : World Q) : Type 0 where
  pub arrived : List Frame
  pub first_ones : all_frames w.arrivals ≡ arrived ++ all_frames v.arrivals
  pub lines : (v.client).written ≡ (w.client).written ++ statuses arrived

statuses-append : (fs gs : List Frame) → statuses (fs ++ gs) ≡ statuses fs ++ statuses gs
statuses-append [] gs = refl
statuses-append (f ∷ fs) gs =
    ap (λ (l : List (List ℕ)). line_of (packet_of_bytes f.payload) ++ l) (statuses-append fs gs)
    ∙ sym (append_assoc (line_of (packet_of_bytes f.payload)) (statuses fs) (statuses gs))

module _ {Q : Type 0} where
  -- Nothing arrives and nothing is written.
  pub Shows-still :
      (w v : World Q)
      → v.arrivals ≡ w.arrivals
      → (v.client).written ≡ (w.client).written
      → Shows w v
  Shows-still w v a e = record {
    arrived = [];
    first_ones = ap all_frames (sym a);
    lines = e ∙ sym (append-nil (w.client).written);
  }

  pub Shows-trans : {u v w : World Q} → Shows u v → Shows v w → Shows u w
  Shows-trans {u} {v} {w} s t = record {
    arrived = s.arrived ++ t.arrived;
    first_ones =
        s.first_ones
        ∙ (ap (λ (l : List Frame). s.arrived ++ l) t.first_ones
            ∙ sym (append_assoc s.arrived t.arrived (all_frames w.arrivals)));
    lines =
        t.lines
        ∙ (ap (λ (l : List (List ℕ)). l ++ statuses t.arrived) s.lines
            ∙ (append_assoc (u.client).written (statuses s.arrived) (statuses t.arrived)
                ∙ ap (λ (l : List (List ℕ)). (u.client).written ++ l)
                    (sym (statuses-append s.arrived t.arrived))));
  }

  pub if-Shows :
      {u : World Q} (b : Bool) (v w : World Q)
      → Shows u v
      → Shows u w
      → Shows u (if b then v else w)
  if-Shows true v w s t = s
  if-Shows false v w s t = t

module _ (os : AckQueue) where
  open os use {Queue}

  dispatch-written :
      (c : Crane Queue) (p : CranePacket) → (crane_dispatch os c p).written ≡ c.written ++ line_of p
  unfolding crane_dispatch crane_recv_connect crane_recv_status crane_recv_close crane_send
  dispatch-written c p =
      let e = append-nil c.written in let whole = status_line_lem p in ground arith

  pub receive-written :
      (c : Crane Queue) (f : Frame)
      → (crane_receive os c f).written ≡ c.written ++ line_of (packet_of_bytes f.payload)
  unfolding crane_receive
  receive-written c f = dispatch-written c (packet_of_bytes f.payload)

  pub receive_all-written :
      (c : Crane Queue) (fs : List Frame) → (receive_all os c fs).written ≡ c.written ++ statuses fs
  unfolding receive_all
  receive_all-written c [] = sym (append-nil c.written)
  receive_all-written c (f ∷ fs) =
      receive_all-written (crane_receive os c f) fs
      ∙ (ap (λ (l : List (List ℕ)). l ++ statuses fs) (receive-written c f)
          ∙ append_assoc c.written (line_of (packet_of_bytes f.payload)) (statuses fs))

  pub delay-Shows : (w : World Queue) → Shows w (delay os w)
  delay-Shows w = by_batches w.arrivals refl
    where
      by_batches : (b : List (List Frame)) → w.arrivals ≡ b → Shows w (delay os w)
      by_batches [] e = unfold delay in rw (e, delay) (Shows-still _ w e refl)
      by_batches (b ∷ rest) e =
          unfold delay in
          rw (e, delay)
            (record { arrived = b; first_ones = refl; lines = receive_all-written w.client b })

  pub disconnect-Shows : (w : World Queue) → Shows w (crane_disconnect os w)
  unfolding crane_disconnect crane_send
  disconnect-Shows w =
      let s = delay-Shows _ in
      record { arrived = s.arrived; first_ones = s.first_ones; lines = s.lines }

  pub connect-Shows :
      (w : World Queue) (id : ℕ) → Shows w (record w { client = crane_connect w.client id })
  connect-Shows w id = Shows-still w _ refl (unfold crane_connect crane_send in ground arith)
