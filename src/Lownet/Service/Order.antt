-- ===== src/Lownet/Service/Order.antt =====
-- From the data that arrives to the verdicts.
use tol103m_assignment_p.Base.{◌+◌, ◌≡◌, sym, subst, List, ◌++◌, map, some}
use tol103m_assignment_p.Queue.{MessageQueue, IsQueue}
use tol103m_assignment_p.Queue.History.{IsHistory, IsHistory-both, IsHistory-map}
use tol103m_assignment_p.Lownet.Frame.{Frame, SecureFrame}
use tol103m_assignment_p.Lownet.Keys.{Key}
use tol103m_assignment_p.Lownet.Net.{Net}
use tol103m_assignment_p.Lownet.Receive.{service_frame}
use tol103m_assignment_p.Lownet.Service.{Service, Event, happen, started}
use tol103m_assignment_p.Lownet.Service.Opened.{opened, frames_in, KeepsKey}
use tol103m_assignment_p.Lownet.Service.Kept.{happen-Kept, started-IsService}

module _ {H : Type 0} {frames : MessageQueue Frame} {ciphers : MessageQueue SecureFrame}
    (fl : IsQueue 16 frames) (cl : IsQueue 16 ciphers) (decrypt : Key → SecureFrame → SecureFrame)
    (net : Net H) where
  -- From the start on, and as long as the key is not changed, whatever arrives and in whatever order
  -- the tasks run: nothing faults, and the service's verdicts, followed by those that the waiting
  -- frames will have, are those of the frames in the data that arrived, in the order of their arrival,
  -- less as many as the two queues refused. It is all of them if they refused none, which is so as long
  -- as at most sixteen frames arrived.
  pub served_frames :
      (es : List Event)
      → KeepsKey es
      → (v : Service H frames.Queue ciphers.Queue) × (happen frames ciphers decrypt
            (started frames ciphers net)
            es
          ≡ some v)
        × IsHistory 16
            (map (service_frame net) (frames_in decrypt net v.arrived))
            v.verdicts
            (map
              (service_frame net)
              (fl.contents v.inbound ++ map (opened decrypt net) (cl.contents v.decrypt_queue)))
            (v.lost_secure + v.lost)
  served_frames es k =
      let (v, e, i) =
        happen-Kept fl cl decrypt net (started frames ciphers net) es
          (started-IsService fl cl decrypt net) k in
      (
        v,
        e,
        subst
            (λ got.
              IsHistory 16 (map (service_frame net) (frames_in decrypt net v.arrived)) got
                (map (service_frame net)
                  (fl.contents v.inbound ++ map (opened decrypt net) (cl.contents v.decrypt_queue)))
                (v.lost_secure + v.lost))
            (sym i.judged) (IsHistory-map (service_frame net) (IsHistory-both i.secure i.plain)),
      )
