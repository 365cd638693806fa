-- ===== src/App/Node.antt =====
-- One node: what main/app_main.c's loop does with a line, command by command, and what its handlers do
-- with a frame.
use tol103m_assignment_p.Base.{
  ℕ, List, [], ◌∷◌, ◌++◌, map, Option, none, some, Bool, if◌then◌else◌, bytes_eq, length, drop,
}
use tol103m_assignment_p.Utility.{c_string}
use tol103m_assignment_p.Lownet.Frame.{Frame}
use tol103m_assignment_p.Lownet.Keys.{Key, Keystore}
use tol103m_assignment_p.Lownet.Net.{Net}
use tol103m_assignment_p.Lownet.Receive.{Verdict, handled, receive_bytes}
use tol103m_assignment_p.Lownet.Text.{reply_line, id_command, date_command}
use tol103m_assignment_p.Lownet.Time.{Time}
use tol103m_assignment_p.Crypt.{AesCbc, crypt_decrypt, crypt_setkey_command}
use tol103m_assignment_p.Crypt.SelfTest.{
  Tested, nothing, no_key, overflows, unencrypted_changed, ivt_changed, successful, failed,
  crypt_test_command,
}
use tol103m_assignment_p.Chat
use tol103m_assignment_p.Chat.{
  Told, invalid_node, no_message, tells, chat_tell, chat_shout, tell_command,
}
use tol103m_assignment_p.Ping
use tol103m_assignment_p.Ping.{PingCommand, no_node, pings_node, ping, ping_command}
use tol103m_assignment_p.Crane.Packet.{crane_frame}
use tol103m_assignment_p.Crane.Machine.{AckQueue, Crane, Sent}
use tol103m_assignment_p.Crane.Machine
use tol103m_assignment_p.Crane.Script.{crane_command}
use tol103m_assignment_p.App.{
  Handler, Function, Reaction, ignores, invalid_command, calls, handle_line,
}
use tol103m_assignment_p.App.Help.{help_command}
use tol103m_assignment_p.App.Texts.{
  invalid_node_text, no_message_text, no_node_text, key_0_text, key_1_text, unknown_key_text,
  invalid_command_text, no_encryption_text, unencrypted_text, ivt_text, success_text, failure_text,
  same_text, different_text, content_label, vector_label, cipher_label,
}

pub record Node (Q : Type 0) : Type 0 where
  pub net : Net Handler
  pub store : Keystore
  pub client : Crane Q

-- What a step depends on but for the node: the time, the frames that the crane sends during each wait,
-- and what uninitialised variables and the memory behind a payload hold.
pub record Surroundings : Type 0 where
  pub timer : ℕ
  pub arrivals : List (List Frame)
  pub garbage : Frame
  pub stale : Time
  pub garbage_key : Key
  pub beyond : List ℕ

-- The node, the lines that are given to serial_write_line and the frames that are given to
-- lownet_send, in order.
pub record Done (Q : Type 0) : Type 0 where
  pub node : Node Q
  pub lines : List (List ℕ)
  pub frames : List Frame

pub data Result (Q : Type 0) : Type 0 where
  done : Done Q → Result Q
  faults : Result Q

abbrev pub result : {Q : Type 0} → Node Q → List (List ℕ) → List Frame → Result Q
result node lines frames = done (record { node = node; lines = lines; frames = frames })

abbrev pub at_most_one {ℓ} : {A : Type ℓ} → Option A → List A
at_most_one none = []
at_most_one (some a) = a ∷ []

abbrev sameness : Bool → List ℕ
sameness same = if same then same_text else different_text

-- The lines of crypt_test_command.
abbrev test_lines : Tested → Option (List (List ℕ))
test_lines nothing = some []
test_lines no_key = some (no_encryption_text ∷ [])
test_lines overflows = none
test_lines unencrypted_changed = some (unencrypted_text ∷ [])
test_lines ivt_changed = some (ivt_text ∷ [])
test_lines successful = some (success_text ∷ [])
test_lines (failed content vector cipher) = some (
    failure_text
    ∷ (content_label
        ++ (sameness content
            ++ (10
                ∷ (vector_label
                    ++ (sameness vector
                        ++ (10 ∷ (cipher_label ++ (sameness cipher ++ (10 ∷ [])))))))))
    ∷ [])

-- The line of crypt_setkey_command.
abbrev key_lines : Option (List ℕ) → List (List ℕ)
key_lines none = []
key_lines (some args) =
    (if bytes_eq args (b'0' ∷ [])
      then key_0_text
      else (if bytes_eq args (b'1' ∷ []) then key_1_text else unknown_key_text))
    ∷ []

module _ (os : AckQueue) (aes : AesCbc) (around : Surroundings) (node : Node os.Queue) where
  abbrev pub told : Told → Result os.Queue
  told Told.faults = faults
  told invalid_node = result node (invalid_node_text ∷ []) []
  told no_message = result node (no_message_text ∷ []) []
  told (tells m d) = result node [] (at_most_one (chat_tell node.net around.garbage (some m) d))

  abbrev pub pinged : PingCommand → Result os.Queue
  pinged no_node = result node (no_node_text ∷ []) []
  pinged PingCommand.invalid_node = result node (invalid_node_text ∷ []) []
  pinged (pings_node d) =
      result node [] (ping node.net around.timer around.garbage around.stale d none 0 ∷ [])

  abbrev sent_frame : Sent → Frame
  sent_frame s = crane_frame around.garbage s.destination s.packet

  abbrev craned : Option (List ℕ) → Result os.Queue
  craned args =
      let w = crane_command os args (record { client = node.client; arrivals = around.arrivals }) in
      result (record node { client = w.client })
        (drop (length (node.client).written) (w.client).written)
        (map sent_frame (drop (length (node.client).sent) (w.client).sent))

  abbrev pub tested : Tested → Result os.Queue
  tested t = elim (test_lines t) [ none ↦ faults | some ls ↦ result node ls [] ]

  abbrev pub keyed : Option (List ℕ) → Option (Net Handler) → Result os.Queue
  keyed args none = faults
  keyed args (some net) = result (record node { net = net }) (key_lines args) []

  -- command(args) of the loop.
  unfoldable pub call : Function → Option (List ℕ) → Result os.Queue
  call Function.shout_command args =
      result node [] (at_most_one (chat_shout node.net around.garbage args))
  call Function.tell_command args = told (tell_command args)
  call Function.ping_command args = pinged (ping_command args)
  call Function.date_command args = result node (date_command node.net around.timer ∷ []) []
  call Function.crypt_setkey_command args =
      keyed args (crypt_setkey_command node.net node.store around.garbage_key args)
  call Function.id_command args = result node (id_command node.net ∷ []) []
  call Function.crypt_test_command args = tested (crypt_test_command aes node.net args)
  call Function.crane_command args = craned args
  call Function.help_command args = result node help_command []

  abbrev pub react : Reaction → Result os.Queue
  react ignores = result node [] []
  react Reaction.faults = faults
  react (invalid_command name) = result node ((invalid_command_text ++ name) ∷ []) []
  react (calls f args) = call f args

  -- The body of the loop of app_main, on the buffer that serial_read_line filled.
  unfoldable pub main_line : List ℕ → Result os.Queue
  unfolding call
  main_line msg_in = react (handle_line (c_string msg_in))

  abbrev pub ping_reaction : Ping.Reaction → Result os.Queue
  ping_reaction Ping.Reaction.discarded = result node [] []
  ping_reaction Ping.Reaction.overruns = faults
  ping_reaction (Ping.Reaction.reply_from source rtt) = result node (reply_line source rtt ∷ []) []
  ping_reaction (Ping.Reaction.replies f) = result node [] (f ∷ [])

  -- handler(&frame) of the service.
  unfoldable pub dispatch : Handler → Frame → Result os.Queue
  dispatch Handler.chat_receive frame =
      result node (at_most_one (Chat.chat_receive node.net around.beyond frame)) []
  dispatch Handler.ping_receive frame =
      ping_reaction (Ping.ping_receive node.net around.timer around.garbage frame)
  dispatch Handler.crane_receive frame =
      let c = Machine.crane_receive os node.client frame in
      result (record node { client = c }) (drop (length (node.client).written) c.written)
        (map sent_frame (drop (length (node.client).sent) c.sent))

  abbrev pub judged : Option (Verdict Handler) → Result os.Queue
  judged (some (handled h f)) = dispatch h f
  judged _ = result node [] []

  -- The data of one transmission, with room in both queues.
  unfoldable pub receive_data : List ℕ → Result os.Queue
  unfolding dispatch
  receive_data bytes = judged (receive_bytes (crypt_decrypt aes) node.net bytes)
