-- ===== src/Crane/Script/Rows.antt =====
-- Actions in a row against a crane that acknowledges each at once.
use tol103m_assignment_p.Base.{
  list_laws, ℕ, suc, ◌+◌, ◌%◌, ◌≤◌, ◌<◌, ◌≡◌, ◌≢◌, refl, ap, ap₂, sym, subst, ◌∙◌, arith, List, [],
  ◌∷◌, ◌++◌, map, length,
}
use tol103m_assignment_p.Lownet.Frame.{Frame}
use tol103m_assignment_p.Crane.Packet.{CranePacket, packet_of_bytes, backlog}
use tol103m_assignment_p.Crane.Machine.{
  AckQueue, IsAckQueue, Crane, World, Sent, connected, packets, crane_send, crane_receive,
  crane_dispatch, crane_recv_status,
}
use tol103m_assignment_p.Crane.Machine.Phases.{packets-send}
use tol103m_assignment_p.Crane.Action.{
  ActionResult, acked, matching, classify, action_packet, send_action, crane_action,
}
use tol103m_assignment_p.Crane.Action.Protocol.{action_enters}
use tol103m_assignment_p.Crane.Action.Reads.{
  Acknowledges, attempts_matching, classify_self, status_keeps, read_exact,
}
use tol103m_assignment_p.Crane.Script.{act_all}

-- A status that acknowledges `s` and reports that no action is left to do.
abbrev pub Completes : Frame → ℕ → Type 0
Completes f s = Acknowledges f s × (backlog (packet_of_bytes f.payload) ≡ 0)

abbrev pub AllComplete : List Frame → ℕ → Type 0
AllComplete [] s = Unit {0}
AllComplete (f ∷ fs) s = Completes f s × AllComplete fs (suc s)

-- One wait for each frame.
abbrev pub each : List Frame → List (List Frame) → List (List Frame)
each [] rest = rest
each (f ∷ fs) rest = (f ∷ []) ∷ each fs rest

-- The packets of the actions, numbered from `s`.
abbrev pub numbered : ℕ → List ℕ → List CranePacket
numbered s [] = []
numbered s (a ∷ actions) = action_packet s a ∷ numbered (suc s) actions

module _ (os : AckQueue) (laws : IsAckQueue os) (id : ℕ) (node : id ≢ 0) where
  open os use {Queue}
  open laws use {contents}

  -- Connected to the crane and ready for the action `s`, with nothing queued.
  pub record Ready (s : ℕ) (log : List CranePacket) (rest : List (List Frame)) (w : World Queue)
      : Type 0 where
    pub on : (w.client).phase ≡ connected
    pub to : (w.client).crane ≡ id
    pub next : (w.client).seq ≡ s
    pub none_queued : contents (w.client).acks ≡ []
    pub so_far : packets w.client ≡ log
    pub coming : w.arrivals ≡ rest

  status_backlog :
      (c : Crane Queue) (f : Frame) (s : ℕ)
      → Acknowledges f s
      → (crane_receive os c f).last_backlog ≡ backlog (packet_of_bytes f.payload)
  unfolding crane_receive crane_dispatch crane_recv_status
  status_backlog c f s a = ground arith

  action_in_row :
      (s : ℕ) (log : List CranePacket) (f : Frame) (rest : List (List Frame)) (action : ℕ)
      (w : World Queue)
      → 1 ≤ s
      → s < 65535
      → Completes f s
      → Ready s log ((f ∷ []) ∷ rest) w
      → let v = (crane_action os action w).1 in
        Ready (suc s) (log ++ (action_packet s action ∷ [])) rest v × ((v.client).last_backlog ≡ 0)
  unfolding crane_send
  action_in_row s log f rest action w lo hi (a, idle) r =
      let packet = action_packet (w.client).seq action in
      let v = send_action os w packet in
      let (q, left, read) =
        read_exact os laws v f s rest r.none_queued r.coming a (omega arith) (omega arith) in
      let c = crane_receive os v.client f in
      let u : World Queue = record { client = record c { acks = q }; arrivals = rest } in
      let z : World Queue = record u {
        client = record (u.client) { seq = ((u.client).seq + 1) % 65536 };
      } in
      let keeps = status_keeps os laws v.client f s a in
      let same : (u.client).seq ≡ s = keeps.1 ∙ r.next in
      let matches : classify s (u.client).seq ≡ matching =
        ap (classify s) same ∙ classify_self s (omega arith) (omega arith) in
      let final : crane_action os action w ≡ (acked, z) =
        action_enters os action w r.on (λ e. node (sym r.to ∙ e))
        ∙ attempts_matching os 4 packet v u s read matches in
      let ready : Ready (suc s) (log ++ (action_packet s action ∷ [])) rest z = record {
        on = keeps.0 ∙ r.on;
        to = keeps.2 ∙ r.to;
        next = omega arith;
        none_queued = left;
        so_far =
            ap (map (λ (x : Sent). x.packet)) keeps.3
            ∙ (packets-send w.client (w.client).crane packet
                ∙ ap₂ (λ (l : List CranePacket) (n : ℕ). l ++ (action_packet n action ∷ []))
                    r.so_far r.next);
        coming = refl;
      } in
      subst
        (λ (t : ActionResult × World Queue).
          Ready (suc s) (log ++ (action_packet s action ∷ [])) rest t.1
          × (((t.1).client).last_backlog ≡ 0))
        (sym final) (ready, status_backlog v.client f s a ∙ idle)

  relabel :
      (s t : ℕ) (log log' : List CranePacket) (rest : List (List Frame)) (w : World Queue)
      → s ≡ t
      → log ≡ log'
      → Ready s log rest w
      → Ready t log' rest w
  relabel s t log log' rest w e l r =
      subst (λ (n : ℕ). Ready n log' rest w) e
        (subst (λ (k : List CranePacket). Ready s k rest w) l r)

  all_complete :
      (actions : List ℕ) (fs : List Frame) (s : ℕ) (log : List CranePacket)
      (rest : List (List Frame)) (w : World Queue)
      → length fs ≡ length actions
      → 1 ≤ s
      → s + length actions ≤ 65535
      → AllComplete fs s
      → (w.client).last_backlog ≡ 0
      → Ready s log (each fs rest) w
      → let v = act_all os actions w in
        Ready (s + length actions) (log ++ numbered s actions) rest v
        × ((v.client).last_backlog ≡ 0)
  unfolding act_all
  all_complete [] [] s log rest w len lo hi done idle r =
      (relabel s (s + 0) log (log ++ []) rest w (omega arith) (simp list_laws) r, idle)
  all_complete [] (f ∷ fs) s log rest w len lo hi done idle r = absurd (omega arith)
  all_complete (a ∷ actions) [] s log rest w len lo hi done idle r = absurd (omega arith)
  all_complete (a ∷ actions) (f ∷ fs) s log rest w len lo hi (here, done) idle r =
      let (ready, idle') = action_in_row s log f (each fs rest) a w lo (omega arith) here r in
      let (ready', idle'') =
        all_complete actions fs (suc s) (log ++ (action_packet s a ∷ [])) rest
          (crane_action os a w).1 (omega arith) (omega arith) (omega arith) done idle' ready in
      (
        relabel (suc s + length actions) (s + suc (length actions))
            ((log ++ (action_packet s a ∷ [])) ++ numbered (suc s) actions)
            (log ++ numbered s (a ∷ actions)) rest (act_all os actions (crane_action os a w).1)
            (omega arith) (simp list_laws) ready',
        idle'',
      )

  -- A first action and then the others: what was reported before does not matter.
  pub row_complete :
      (a : ℕ) (actions : List ℕ) (fs : List Frame) (s : ℕ) (log : List CranePacket)
      (rest : List (List Frame)) (w : World Queue)
      → length fs ≡ suc (length actions)
      → 1 ≤ s
      → suc s + length actions ≤ 65535
      → AllComplete fs s
      → Ready s log (each fs rest) w
      → let v = act_all os (a ∷ actions) w in
        Ready (suc s + length actions) (log ++ numbered s (a ∷ actions)) rest v
        × ((v.client).last_backlog ≡ 0)
  unfolding act_all
  row_complete a actions [] s log rest w len lo hi done r = absurd (omega arith)
  row_complete a actions (f ∷ fs) s log rest w len lo hi (here, done) r =
      let (ready, idle) = action_in_row s log f (each fs rest) a w lo (omega arith) here r in
      let (ready', idle') =
        all_complete actions fs (suc s) (log ++ (action_packet s a ∷ [])) rest
          (crane_action os a w).1 (omega arith) (omega arith) hi done idle ready in
      (
        relabel (suc s + length actions) (suc s + length actions)
            ((log ++ (action_packet s a ∷ [])) ++ numbered (suc s) actions)
            (log ++ numbered s (a ∷ actions)) rest (act_all os (a ∷ actions) w) refl
            (simp list_laws) ready',
        idle',
      )
