-- ===== src/Chat.antt =====
-- managed_components/chat/chat.c. A C string is the list of its bytes up to the zero. `garbage` is
-- the uninitialised frame on the stack of chat_tell, `beyond` the memory behind the payload of the
-- frame that chat_receive is given.
pub mod Messages
pub mod Tell
use tol103m_assignment_p.Base.{
  ℕ, ◌+◌, List, [], ◌∷◌, ◌++◌, Option, none, some, Bool, not, ◌&&◌, ◌==◌, ltb, if◌then◌else◌, u8,
  take, copy_over,
}
use tol103m_assignment_p.Utility.{util_printable, format_id, c_string, node_argument}
use tol103m_assignment_p.Cli.{strtok, token}
use tol103m_assignment_p.Lownet.Frame.{Frame}
use tol103m_assignment_p.Lownet.Net.{Net, lownet_get_device_id}

abbrev pub chat_protocol : ℕ
chat_protocol = 0x02

-- The loop of chat_valid_message from index `i`, over the characters left.
unfoldable pub valid_from : List ℕ → ℕ → ℕ
valid_from [] i = if ltb 200 i then 0 else i
valid_from (c ∷ cs) i =
    let rest = valid_from cs (i + 1) in if util_printable c == 0 then 0 else rest

unfoldable pub chat_valid_message : List ℕ → ℕ
unfolding valid_from
chat_valid_message message = valid_from message 0

-- " says: " and " shouts: ".
abbrev pub says : List ℕ
says = b' ' ∷ b's' ∷ b'a' ∷ b'y' ∷ b's' ∷ b':' ∷ b' ' ∷ []

abbrev pub shouts : List ℕ
shouts = b' ' ∷ b's' ∷ b'h' ∷ b'o' ∷ b'u' ∷ b't' ∷ b's' ∷ b':' ∷ b' ' ∷ []

module _ {H : Type 0} (net : Net H) where
  -- The frame that is given to lownet_send. `none`: there is no message, or it is not valid.
  unfoldable pub chat_tell : Frame → Option (List ℕ) → ℕ → Option Frame
  chat_tell garbage none destination = none
  chat_tell garbage (some message) destination =
      if chat_valid_message message == 0
      then none
      else some (record garbage {
        source = lownet_get_device_id net;
        destination = destination;
        protocol = chat_protocol;
        len = u8 (chat_valid_message message);
        payload = copy_over garbage.payload message (chat_valid_message message);
      })

  unfoldable pub chat_shout : Frame → Option (List ℕ) → Option Frame
  chat_shout garbage message = chat_tell garbage message 0xff

  -- The line that is written, if any.
  unfoldable pub chat_receive : List ℕ → Frame → Option (List ℕ)
  chat_receive beyond frame =
      if not (frame.destination == lownet_get_device_id net) && not (frame.destination == 0xff)
      then none
      else some (
          format_id frame.source
          ++ ((if not (frame.destination == 0xff) then says else shouts)
              ++ c_string (take frame.len (frame.payload ++ beyond))))

-- What tell_command does with its argument: a fault on the NULL that strtok returns, one of the two
-- error lines, or chat_tell with a message and a node.
pub data Told : Type 0 where
  faults invalid_node no_message : Told
  tells : List ℕ → ℕ → Told

abbrev pub to_node : ℕ → Option (List ℕ) → Told
to_node d message =
    if d == 0 then invalid_node else (elim message [ none ↦ no_message | some m ↦ tells m d ])

-- A line has no newline, so the second strtok takes all that is left. `none` is a NULL argument, for
-- which strtok goes on where the main loop's line has ended.
unfoldable pub tell_command : Option (List ℕ) → Told
tell_command none = faults
tell_command (some args) = elim (strtok b' ' args) [
  | none ↦ faults
  | some (dest, rest) ↦ to_node (node_argument dest rest) (token (strtok 10 rest))
]
