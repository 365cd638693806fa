-- ===== src/Lownet/Service/Kept.antt =====
-- The invariant of the service's queues, while the key stays.
use mathlib.Core.List.{append-nil, map-append}
use tol103m_assignment_p.Base.{
  ℕ, ◌+◌, ◌≡◌, ◌≢◌, refl, sym, ap, ap₂, ◌∙◌, subst, List, [], ◌∷◌, ◌++◌, map, some,
}
use tol103m_assignment_p.Queue.{MessageQueue, IsQueue}
use tol103m_assignment_p.Queue.History.{
  IsHistory, IsHistory-start, IsHistory-kept, IsHistory-taken, refusals, send-IsHistory,
  send-IsHistory-map,
}
use tol103m_assignment_p.Lownet.Frame.{Frame, SecureFrame}
use tol103m_assignment_p.Lownet.Keys.{Key}
use tol103m_assignment_p.Lownet.Net.{Net}
use tol103m_assignment_p.Lownet.Receive.{
  to_inbound, to_decrypt, dropped, Inbound, Verdict, lownet_inbound_handler, decrypt_service,
  service_frame,
}
use tol103m_assignment_p.Lownet.Service.{
  Service, Event, arrives, decrypts, serves, sets_key, offer, arrive, decrypt_round, service_round,
  happens, happen, started,
}
use tol103m_assignment_p.Lownet.Service.Opened.{
  opened, frame_in, frames_in, frames_in-append_one, clear_inbound, secure_inbound,
  decrypt_service-opened, KeepsKey, KeepsKey-split,
}

module _ {H : Type 0} {frames : MessageQueue Frame} {ciphers : MessageQueue SecureFrame}
    (fl : IsQueue 16 frames) (cl : IsQueue 16 ciphers) (decrypt : Key → SecureFrame → SecureFrame)
    (net : Net H) where
  pub record IsService (v : Service H frames.Queue ciphers.Queue) : Type 0 where
    pub same : v.net ≡ net
    pub secure :
        IsHistory 16
          (frames_in decrypt net v.arrived)
          v.offered
          (map (opened decrypt net) (cl.contents v.decrypt_queue))
          v.lost_secure
    pub plain : IsHistory 16 v.offered v.taken (fl.contents v.inbound) v.lost
    pub judged : v.verdicts ≡ map (service_frame net) v.taken
    pub clear : net.aes_key.size ≡ 0 → cl.contents v.decrypt_queue ≡ []

  abbrev pub Kept : Service H frames.Queue ciphers.Queue → Event → Type 0
  Kept v e =
      (v' : Service H frames.Queue ciphers.Queue) × (happens frames ciphers decrypt v e ≡ some v')
      × IsService v'

  module _ (v : Service H frames.Queue ciphers.Queue) (i : IsService v) where
    -- The secure history with the queue's contents replaced by equal ones.
    secure_with :
        (cs : List SecureFrame)
        → cl.contents v.decrypt_queue ≡ cs
        → IsHistory 16
            (frames_in decrypt net v.arrived)
            v.offered
            (map (opened decrypt net) cs)
            v.lost_secure
    secure_with cs e =
        subst
          (λ (l : List SecureFrame).
            IsHistory 16 (frames_in decrypt net v.arrived) v.offered (map (opened decrypt net) l)
              v.lost_secure)
          e i.secure

    arrived_more :
        (bytes : List ℕ) (data_in : Inbound)
        → lownet_inbound_handler net bytes ≡ data_in
        → frames_in decrypt net v.arrived ++ frame_in decrypt net data_in
          ≡ frames_in decrypt net (v.arrived ++ (bytes ∷ []))
    arrived_more bytes data_in e = sym (
        frames_in-append_one decrypt net v.arrived bytes
        ∙ ap (λ (d : Inbound). frames_in decrypt net v.arrived ++ frame_in decrypt net d) e)

    arrive-IsService :
        (bytes : List ℕ) (data_in : Inbound)
        → lownet_inbound_handler net bytes ≡ data_in
        → IsService (arrive frames ciphers v bytes data_in)
    unfolding arrive
    arrive-IsService bytes (to_inbound f) e =
        let empty = i.clear (clear_inbound decrypt net bytes f e) in
        let through = IsHistory-taken f (IsHistory-kept f (secure_with [] empty)) in
        record {
          same = i.same;
          secure =
              subst
                (λ (sent : List Frame).
                  IsHistory 16 sent (v.offered ++ (f ∷ []))
                    (map (opened decrypt net) (cl.contents v.decrypt_queue)) v.lost_secure)
                (arrived_more bytes (to_inbound f) e)
                (subst
                  (λ (l : List SecureFrame).
                    IsHistory 16 (frames_in decrypt net v.arrived ++ (f ∷ []))
                      (v.offered ++ (f ∷ [])) (map (opened decrypt net) l) v.lost_secure)
                  (sym empty) through);
          plain = send-IsHistory frames fl v.inbound f i.plain;
          judged = i.judged;
          clear = i.clear;
        }
    arrive-IsService bytes (to_decrypt c) e = record {
      same = i.same;
      secure =
          subst
            (λ (sent : List Frame).
              IsHistory 16 sent v.offered
                (map (opened decrypt net) (cl.contents (ciphers.send v.decrypt_queue c).0))
                (v.lost_secure + refusals (ciphers.send v.decrypt_queue c).1))
            (arrived_more bytes (to_decrypt c) e)
            (send-IsHistory-map ciphers cl (opened decrypt net) v.decrypt_queue c i.secure);
      plain = i.plain;
      judged = i.judged;
      clear = λ off. absurd (secure_inbound decrypt net bytes c e off);
    }
    arrive-IsService bytes dropped e = record {
      same = i.same;
      secure =
          subst
            (λ (sent : List Frame).
              IsHistory 16 sent v.offered (map (opened decrypt net) (cl.contents v.decrypt_queue))
                v.lost_secure)
            (sym (append-nil (frames_in decrypt net v.arrived)) ∙ arrived_more bytes dropped e)
            i.secure;
      plain = i.plain;
      judged = i.judged;
      clear = i.clear;
    }

    arrives-Kept : (bytes : List ℕ) → Kept v (arrives bytes)
    unfolding happens
    arrives-Kept bytes =
        let data_in = lownet_inbound_handler net bytes in
        (
          arrive frames ciphers v bytes data_in,
          ap (λ (n : Net H). some (arrive frames ciphers v bytes (lownet_inbound_handler n bytes)))
              i.same,
          arrive-IsService bytes data_in refl,
        )

    decrypt_round-first :
        (c : SecureFrame) (rest : ciphers.Queue) (f : Frame)
        → ciphers.receive v.decrypt_queue ≡ some (c, rest)
        → decrypt_service decrypt v.net c ≡ some f
        → decrypt_round frames ciphers decrypt v
          ≡ some (offer frames ciphers (record v { decrypt_queue = rest }) f)
    unfolding decrypt_round
    decrypt_round-first c rest f e e' = rw (e, decrypt_round, e') refl

    decrypts-Kept : (cs : List SecureFrame) → cl.contents v.decrypt_queue ≡ cs → Kept v decrypts
    unfolding happens decrypt_round
    decrypts-Kept [] e =
        let none_left = cl.receive_empty v.decrypt_queue e in
        (v, rw (none_left, happens, decrypt_round) refl, i)
    decrypts-Kept (c ∷ cs) e =
        let (rest, first, e') = cl.receive_first v.decrypt_queue c cs e in
        let on : net.aes_key.size ≢ 0 =
          λ off. let none_left = i.clear off in absurd (cc (none_left, e)) in
        let f = opened decrypt net c in
        (
          offer frames ciphers (record v { decrypt_queue = rest }) f,
          decrypt_round-first c rest f first (
              ap (λ (n : Net H). decrypt_service decrypt n c) i.same
              ∙ decrypt_service-opened decrypt net c on),
          record {
            same = i.same;
            secure =
                subst
                  (λ (l : List SecureFrame).
                    IsHistory 16 (frames_in decrypt net v.arrived) (v.offered ++ (f ∷ []))
                      (map (opened decrypt net) l) v.lost_secure)
                  (sym e') (IsHistory-taken f (secure_with (c ∷ cs) e));
            plain = send-IsHistory frames fl v.inbound f i.plain;
            judged = i.judged;
            clear = λ off. absurd (on off);
          },
        )

    serves-Kept : (fs : List Frame) → fl.contents v.inbound ≡ fs → Kept v serves
    unfolding happens service_round
    serves-Kept [] e =
        let none_left = fl.receive_empty v.inbound e in
        (v, rw (none_left, happens, service_round) refl, i)
    serves-Kept (f ∷ fs) e =
        let (rest, first, e') = fl.receive_first v.inbound f fs e in
        (
          record v {
            inbound = rest;
            taken = v.taken ++ (f ∷ []);
            verdicts = v.verdicts ++ (service_frame v.net f ∷ []);
          },
          rw (first, happens, service_round) refl,
          record {
            same = i.same;
            secure = i.secure;
            plain =
                subst (λ (l : List Frame). IsHistory 16 v.offered (v.taken ++ (f ∷ [])) l v.lost)
                  (sym e')
                  (IsHistory-taken f (
                    subst (λ (l : List Frame). IsHistory 16 v.offered v.taken l v.lost) e i.plain));
            judged =
                ap₂ (λ (l : List (Verdict H)) (n : Net H). l ++ (service_frame n f ∷ [])) i.judged
                  i.same
                ∙ sym (map-append (service_frame net) v.taken (f ∷ []));
            clear = i.clear;
          },
        )

  happens-Kept :
      (v : Service H frames.Queue ciphers.Queue) (e : Event)
      → IsService v
      → KeepsKey (e ∷ [])
      → Kept v e
  happens-Kept v (arrives bytes) i k = arrives-Kept v i bytes
  happens-Kept v decrypts i k = decrypts-Kept v i (cl.contents v.decrypt_queue) refl
  happens-Kept v serves i k = serves-Kept v i (fl.contents v.inbound) refl
  happens-Kept v (sets_key key) i k = elim k [ ]

  -- No event that keeps the key faults, and each keeps the invariant.
  pub happen-Kept :
      (v : Service H frames.Queue ciphers.Queue) (es : List Event)
      → IsService v
      → KeepsKey es
      → (v' : Service H frames.Queue ciphers.Queue) × (happen frames ciphers decrypt v es ≡ some v')
        × IsService v'
  unfolding happen
  happen-Kept v [] i k = (v, refl, i)
  happen-Kept v (e ∷ es) i k =
      let (first, later) = KeepsKey-split e es k in
      let (v', now, i') = happens-Kept v e i first in
      let (last, rest, i'') = happen-Kept v' es i' later in (last, rw (now, happen) rest, i'')

  pub started-IsService : IsService (started frames ciphers net)
  unfolding frames_in
  started-IsService = record {
    same = refl;
    secure =
        subst (λ (l : List SecureFrame). IsHistory 16 [] [] (map (opened decrypt net) l) 0)
          (sym cl.contents-create) IsHistory-start;
    plain =
        subst (λ (l : List Frame). IsHistory 16 [] [] l 0) (sym fl.contents-create) IsHistory-start;
    judged = refl;
    clear = λ off. cl.contents-create;
  }
