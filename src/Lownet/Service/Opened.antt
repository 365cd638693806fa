-- ===== src/Lownet/Service/Opened.antt =====
-- The frames in the data that arrives, and events that leave the key.
use mathlib.Core.List.{append_assoc, append-nil}
use tol103m_assignment_p.Base.{ℕ, ◌≡◌, ◌≢◌, sym, ap, ◌∙◌, arith, List, [], ◌∷◌, ◌++◌, some}
use tol103m_assignment_p.Lownet.Frame.{Frame, SecureFrame, header, with_body}
use tol103m_assignment_p.Lownet.Keys.{Key}
use tol103m_assignment_p.Lownet.Net.{Net, lownet_get_key}
use tol103m_assignment_p.Lownet.Receive.{
  to_inbound, to_decrypt, dropped, Inbound, lownet_inbound_handler, decrypt_service,
}
use tol103m_assignment_p.Lownet.Service.{Event, arrives, decrypts, serves, sets_key}

module _ {H : Type 0} (decrypt : Key → SecureFrame → SecureFrame) (net : Net H) where
  -- What the decryption makes of a frame with the active key.
  abbrev pub opened : SecureFrame → Frame
  opened c =
      let plain = decrypt net.aes_key c in
      with_body (header 0x10 0x4e plain.source plain.destination) plain.body

  abbrev pub frame_in : Inbound → List Frame
  frame_in (to_inbound f) = f ∷ []
  frame_in (to_decrypt c) = opened c ∷ []
  frame_in dropped = []

  -- The frames in the data that arrived.
  unfoldable pub frames_in : List (List ℕ) → List Frame
  frames_in [] = []
  frames_in (b ∷ bs) = frame_in (lownet_inbound_handler net b) ++ frames_in bs

  pub frames_in-append_one :
      (bs : List (List ℕ)) (b : List ℕ)
      → frames_in (bs ++ (b ∷ [])) ≡ frames_in bs ++ frame_in (lownet_inbound_handler net b)
  unfolding frames_in
  frames_in-append_one [] b = append-nil (frame_in (lownet_inbound_handler net b))
  frames_in-append_one (c ∷ bs) b =
      ap (λ (l : List Frame). frame_in (lownet_inbound_handler net c) ++ l)
        (frames_in-append_one bs b)
      ∙ sym (
          append_assoc (frame_in (lownet_inbound_handler net c)) (frames_in bs)
            (frame_in (lownet_inbound_handler net b)))

  pub clear_inbound :
      (bytes : List ℕ) (f : Frame)
      → lownet_inbound_handler net bytes ≡ to_inbound f
      → net.aes_key.size ≡ 0
  unfolding lownet_inbound_handler
  clear_inbound bytes f e = ground arith

  pub secure_inbound :
      (bytes : List ℕ) (c : SecureFrame)
      → lownet_inbound_handler net bytes ≡ to_decrypt c
      → net.aes_key.size ≢ 0
  unfolding lownet_inbound_handler
  secure_inbound bytes c e = ground arith

  pub decrypt_service-opened :
      (c : SecureFrame) → net.aes_key.size ≢ 0 → decrypt_service decrypt net c ≡ some (opened c)
  unfolding decrypt_service lownet_get_key
  decrypt_service-opened c on = ground arith

-- Data that arrives, and rounds of the two tasks.
abbrev pub KeepsKey : List Event → Type 0
KeepsKey [] = Unit {0}
KeepsKey (sets_key key ∷ es) = ⊥
KeepsKey (e ∷ es) = KeepsKey es

pub KeepsKey-split :
    (e : Event) (es : List Event) → KeepsKey (e ∷ es) → KeepsKey (e ∷ []) × KeepsKey es
KeepsKey-split (arrives bytes) es k = (tt, k)
KeepsKey-split decrypts es k = (tt, k)
KeepsKey-split serves es k = (tt, k)
KeepsKey-split (sets_key key) es k = elim k [ ]
