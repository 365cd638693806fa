-- ===== src/Chat/Messages.antt =====
-- Which messages are sent, and what is shown of them on the other side.
use tol103m_assignment_p.Base.{
  ℕ, zero, suc, ◌+◌, ◌≤◌, ◌<◌, ◌≡◌, ◌≢◌, ◌⊎◌, inl, inr, refl, sym, ap, ap₂, ◌∙◌, arith, List, [],
  ◌∷◌, ◌++◌, some, ◌==◌, if◌then◌else◌, u8, length, take, copy_over, take-copy_over,
  length-copy_over,
}
use tol103m_assignment_p.Utility.{util_printable, format_id, c_string}
use tol103m_assignment_p.Lownet.Frame.{Frame}
use tol103m_assignment_p.Lownet.Net.{Net, lownet_get_device_id}
use tol103m_assignment_p.Lownet.Protocols.{lownet_get_handler}
use tol103m_assignment_p.Lownet.Send.{lownet_send}
use tol103m_assignment_p.Lownet.Receive.{handled, receive_bytes}
use tol103m_assignment_p.Crypt.{AesCbc, IsAesCbc, crypt_encrypt, crypt_decrypt}
use tol103m_assignment_p.Crypt.Delivery.{Agree, SameKey, lownet_delivery}
use tol103m_assignment_p.Chat.{
  valid_from, chat_valid_message, says, shouts, chat_tell, chat_receive,
}

abbrev pub AllPrintable : List ℕ → Type 0
AllPrintable [] = Unit {0}
AllPrintable (c ∷ cs) = (b' ' ≤ c) × (c < 127) × AllPrintable cs

abbrev Valid : List ℕ → ℕ → ℕ → Type 0
Valid cs i n =
    ((n ≡ i + length cs) × AllPrintable cs × (i + length cs ≤ 200))
    ⊎ ((n ≡ 0) × (¬ (AllPrintable cs × (i + length cs ≤ 200))))

valid_from_lem : (cs : List ℕ) (i : ℕ) → Valid cs i (valid_from cs i)
unfolding valid_from util_printable
valid_from_lem [] i = ground arith
valid_from_lem (c ∷ cs) i = let rest = valid_from_lem cs (i + 1) in ground arith

c_string-printable : (cs : List ℕ) → AllPrintable cs → c_string cs ≡ cs
c_string-printable [] h = refl
c_string-printable (c ∷ cs) (low, high, rest) = let e = c_string-printable cs rest in ground arith

-- A message is valid, with its length as the result, when every character is printable and there are
-- at most 200; otherwise the result is 0.
pub chat_valid_message_lem :
    (m : List ℕ)
    → ((chat_valid_message m ≡ length m) × AllPrintable m × (length m ≤ 200))
      ⊎ ((chat_valid_message m ≡ 0) × (¬ (AllPrintable m × (length m ≤ 200))))
unfolding chat_valid_message
chat_valid_message_lem m = ground (arith, valid_from_lem m 0)

-- The frame for a valid message.
unfoldable pub chat_frame : {H : Type 0} → Net H → Frame → List ℕ → ℕ → Frame
chat_frame net garbage m destination = record garbage {
  source = lownet_get_device_id net;
  destination = destination;
  protocol = 0x02;
  len = length m;
  payload = copy_over garbage.payload m (length m);
}

u8-small : (n : ℕ) → n ≤ 200 → u8 n ≡ n
u8-small n h = omega arith

chat_tell_lem :
    {H : Type 0} (net : Net H) (garbage : Frame) (m : List ℕ) (destination : ℕ)
    → AllPrintable m
    → 1 ≤ length m
    → length m ≤ 200
    → chat_tell net garbage (some m) destination ≡ some (chat_frame net garbage m destination)
unfolding chat_tell chat_frame
chat_tell_lem net garbage m destination printable some_text fits = elim (chat_valid_message_lem m) [
  | inl (e, p, l) ↦ let small = u8-small (length m) fits in rw (e, small) (ground arith)
  | inr (e, invalid) ↦ absurd (invalid (printable, fits))
]

take-append-short :
    (n : ℕ) (xs ys : List ℕ) → length (take n xs) ≡ n → take n (xs ++ ys) ≡ take n xs
take-append-short zero xs ys l = refl
take-append-short (suc n) [] ys l = absurd (omega arith)
take-append-short (suc n) (x ∷ xs) ys l = ap (◌∷◌ x) (take-append-short n xs ys (omega arith))

chat_receive_lem :
    {H : Type 0} (net : Net H) (beyond m : List ℕ) (out : Frame)
    → (out.destination ≡ net.identity.node) ⊎ (out.destination ≡ 0xff)
    → AllPrintable m
    → take out.len out.payload ≡ m
    → out.len ≡ length m
    → chat_receive net beyond out
      ≡ some (format_id out.source ++ ((if out.destination == 0xff then shouts else says) ++ m))
unfolding chat_receive lownet_get_device_id
chat_receive_lem net beyond m out for_us printable e len =
    let text : c_string (take out.len (out.payload ++ beyond)) ≡ m =
      ap c_string (take-append-short out.len out.payload beyond (ap length e ∙ sym len) ∙ e)
      ∙ c_string-printable m printable in
    ground arith

chat_frame-Agree :
    {H : Type 0} (sender receiver : Net H) (h : H) (garbage : Frame) (m : List ℕ) (destination : ℕ)
    → length garbage.payload ≡ 200
    → length m ≤ 200
    → sender.identity.node ≢ 0xff
    → receiver.broadcast.node ≡ 0xff
    → (destination ≡ receiver.identity.node) ⊎ (destination ≡ 0xff)
    → lownet_get_handler receiver.protocols 2 ≡ some h
    → Agree sender receiver h (chat_frame sender garbage m destination)
unfolding chat_frame
chat_frame-Agree sender receiver h garbage m destination held fits source broadcast for_us
      registered =
    record {
      payload_held =
          length-copy_over (length m) garbage.payload m (omega arith) (omega (arith, held)) ∙ held;
      fits = fits;
      sender_node = source;
      addressed = elim for_us [ inl e ↦ inl e | inr e ↦ inr (e ∙ sym broadcast) ];
      registered = registered;
    }

-- What one node says, another shows: a message of 1 to 200 printable characters that chat_tell is
-- given for the other node, or for everyone, becomes a frame whose bytes make the other node, if its
-- handler for protocol 2 is h and the keys agree or are absent, call h on a frame for which
-- chat_receive writes the sender's id, whether it was shouted, and exactly the message.
pub chat_tell-chat_receive :
    {H : Type 0} (sender receiver : Net H) (h : H) (noise entropy : ℕ → ℕ) (aes : AesCbc)
    (garbage : Frame) (beyond m : List ℕ) (destination : ℕ)
    → length garbage.payload ≡ 200
    → AllPrintable m
    → 1 ≤ length m
    → length m ≤ 200
    → sender.identity.node ≢ 0xff
    → receiver.broadcast.node ≡ 0xff
    → (destination ≡ receiver.identity.node) ⊎ (destination ≡ 0xff)
    → lownet_get_handler receiver.protocols 2 ≡ some h
    → IsAesCbc aes
    → SameKey sender receiver
    → (frame out : Frame) × (bytes : List ℕ) × (chat_tell sender garbage (some m) destination
        ≡ some frame)
      × (lownet_send sender noise (crypt_encrypt aes) entropy frame ≡ some bytes)
      × (receive_bytes (crypt_decrypt aes) receiver bytes ≡ some (handled h out))
      × (chat_receive receiver beyond out
          ≡ some (
              format_id sender.identity.node
              ++ ((if destination == 0xff then shouts else says) ++ m)))
unfolding chat_frame lownet_get_device_id
chat_tell-chat_receive sender receiver h noise entropy aes garbage beyond m destination held
      printable some_text fits source broadcast for_us registered laws keys =
    let frame = chat_frame sender garbage m destination in
    let (bytes, out, sent, got, from, to, protocol, len, payload) =
      lownet_delivery sender receiver h noise entropy aes frame
        (chat_frame-Agree sender receiver h garbage m destination held fits source broadcast for_us
          registered)
        laws keys in
    let text : take out.len out.payload ≡ m =
      ap (λ (n : ℕ). take n out.payload) len
      ∙ (payload ∙ take-copy_over (length m) garbage.payload m refl) in
    (
      frame,
      out,
      bytes,
      chat_tell_lem sender garbage m destination printable some_text fits,
      sent,
      got,
      chat_receive_lem receiver beyond m out
            (elim for_us [ inl e ↦ inl (to ∙ e) | inr e ↦ inr (to ∙ e) ]) printable text len
          ∙ ap₂ (λ (s d : ℕ). some (format_id s ++ ((if d == 0xff then shouts else says) ++ m)))
              from to,
    )
