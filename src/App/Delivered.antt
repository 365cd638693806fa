-- ===== src/App/Delivered.antt =====
-- From a line that is typed on one node to what is printed on another.
use tol103m_assignment_p.Base.{
  ℕ, ◌≤◌, ◌<◌, ◌≡◌, ◌≢◌, inl, refl, ap, ◌∙◌, arith, List, [], ◌∷◌, ◌++◌, Option, some, Bool, length,
  take,
}
use tol103m_assignment_p.Utility.{format_id}
use tol103m_assignment_p.Cli.Find.{NotIn}
use tol103m_assignment_p.Lownet.Frame.{Frame}
use tol103m_assignment_p.Lownet.Protocols.{lownet_get_handler}
use tol103m_assignment_p.Lownet.Send.{lownet_send}
use tol103m_assignment_p.Lownet.Receive.{handled, receive_bytes}
use tol103m_assignment_p.Crypt.{AesCbc, IsAesCbc, crypt_encrypt, crypt_decrypt}
use tol103m_assignment_p.Crypt.Delivery.{SameKey}
use tol103m_assignment_p.Chat
use tol103m_assignment_p.Chat.{tells, says, shouts, chat_tell, tell_command}
use tol103m_assignment_p.Chat.Messages.{AllPrintable, chat_tell-chat_receive}
use tol103m_assignment_p.Chat.Tell.{tell_command-format_id}
use tol103m_assignment_p.Crane.Machine.{AckQueue}
use tol103m_assignment_p.Queue.{MessageQueue, IsQueue}
use tol103m_assignment_p.Serial.{line_buffer, write_message}
use tol103m_assignment_p.Serial.Input.{padded}
use tol103m_assignment_p.Serial.Session.{reads_line, happen, begun}
use tol103m_assignment_p.Serial.Session.Typing.{typing, typed_line}
use tol103m_assignment_p.Serial.Output.{printf_format, write_message-line_buffer}
use tol103m_assignment_p.App.{Handler, registered, handle_line}
use tol103m_assignment_p.App.Start.{registered_handlers}
use tol103m_assignment_p.App.Node.{
  Node, Surroundings, result, at_most_one, told, judged, react, call, main_line, dispatch,
  receive_data,
}
use tol103m_assignment_p.App.Typed.{
  tell_line, arguments, message_line, c_string-padded, AllPrintable-NotIn, arguments-NotIn,
  tell_line-NotIn, message_line-Decided, message_line-NotIn, length-tell_line,
  handle_line-arguments,
}

-- Two nodes as they are after their start, and a text for the second one.
pub record Tells {Q : Type 0} (sender receiver : Node Q) (garbage : Frame) (text : List ℕ)
    : Type 0 where
  pub printable : AllPrintable text
  pub sender_node : (sender.net.identity).node ≢ 0xff
  pub some_node : (receiver.net.identity).node ≢ 0
  pub byte : (receiver.net.identity).node < 256
  pub broadcast : (receiver.net.broadcast).node ≡ 0xff
  pub protocols : receiver.net.protocols ≡ registered
  pub same_key : SameKey sender.net receiver.net
  pub payload : length garbage.payload ≡ 200

-- Such a line is no prompt.
printf_format-message_line :
    (a b : ℕ) (text : List ℕ)
    → printf_format (message_line a b text) ≡ take 126 (message_line a b text) ++ (10 ∷ [])
unfolding printf_format format_id
printf_format-message_line a b text = refl

module _ (os : AckQueue) (aes : AesCbc) (around : Surroundings) (sender receiver : Node os.Queue)
    (c : ℕ) (m : List ℕ) (t : Tells sender receiver around.garbage (c ∷ m)) where
  abbrev destination : ℕ
  destination = (receiver.net.identity).node

  abbrev source : ℕ
  source = (sender.net.identity).node

  abbrev typed : Bool → List ℕ
  typed short = tell_line short (arguments destination (c ∷ m))

  main_line-tell :
      (short : Bool) (frame : Frame)
      → length (typed short) ≤ 127
      → chat_tell sender.net around.garbage (some (c ∷ m)) destination ≡ some frame
      → main_line os aes around sender (padded 127 (typed short)) ≡ result sender [] (frame ∷ [])
  unfolding main_line call
  main_line-tell short frame fits sent =
      let args = arguments destination (c ∷ m) in
      let text_only : NotIn 0 args =
        arguments-NotIn 0 destination (c ∷ m) (omega arith) t.printable in
      ap (λ (l : List ℕ). react os aes around sender (handle_line l))
        (c_string-padded 127 (typed short) fits
          (tell_line-NotIn 0 short args (omega arith) text_only))
      ∙ (ap (react os aes around sender)
            (handle_line-arguments short destination (c ∷ m) t.printable)
          ∙ (ap (told os aes around sender) (
                tell_command-format_id destination c m t.byte t.some_node
                  (AllPrintable-NotIn 10 (c ∷ m) (omega arith) t.printable))
              ∙ ap (λ (f : Option Frame). result sender [] (at_most_one f)) sent))

  receive_data-chat :
      (bytes : List ℕ) (out : Frame) (line : List ℕ)
      → receive_bytes (crypt_decrypt aes) receiver.net bytes
        ≡ some (handled Handler.chat_receive out)
      → Chat.chat_receive receiver.net around.beyond out ≡ some line
      → receive_data os aes around receiver bytes ≡ result receiver (line ∷ []) []
  unfolding receive_data dispatch
  receive_data-chat bytes out line e e' =
      ap (judged os aes around receiver) e
      ∙ ap (λ (l : Option (List ℕ)). result receiver (at_most_one l) []) e'

  chat_handler : lownet_get_handler receiver.net.protocols 2 ≡ some Handler.chat_receive
  chat_handler = ap (λ p. lownet_get_handler p 2) t.protocols ∙ registered_handlers 2

  typed-NotIn : (short : Bool) → NotIn 10 (typed short)
  typed-NotIn short =
      tell_line-NotIn 10 short (arguments destination (c ∷ m)) (omega arith)
        (arguments-NotIn 10 destination (c ∷ m) (omega arith) t.printable)

  -- The way of a message: the line "/tell id text" or "@id text", of at most 127 characters, that is
  -- typed at one node and ended by a newline, is what its main loop reads; it makes that node give one
  -- frame to lownet_send; the bytes that it sends make the node with that id write one line, the
  -- sender's id, " says: " or " shouts: ", and the whole text; and of that line its service gives
  -- printf the first 126 characters and a newline, as the format: what is behind them is lost, and what
  -- printf makes of a % in them is not said. The text is printable and not empty, both nodes have
  -- started and have the same key or none.
  pub typed-shown :
      {writes reads : MessageQueue (List ℕ)}
      → IsQueue 16 writes
      → IsQueue 4 reads
      → IsAesCbc aes
      → (short : Bool) (noise entropy : ℕ → ℕ) (buffer : List ℕ) → length (typed short) ≤ 127
      → length buffer ≡ 128
      → let line = message_line source destination (c ∷ m) in
        (frame : Frame) × (bytes : List ℕ) × ((happen writes reads buffer
            (begun writes reads)
            (typing (typed short ++ (10 ∷ [])) ++ (reads_line ∷ []))).read
          ≡ padded 127 (typed short) ∷ [])
        × (main_line os aes around sender (padded 127 (typed short))
            ≡ result sender [] (frame ∷ []))
        × (lownet_send sender.net noise (crypt_encrypt aes) entropy frame ≡ some bytes)
        × (receive_data os aes around receiver bytes ≡ result receiver (line ∷ []) [])
        × (write_message buffer (line_buffer line) ≡ take 126 line ++ (10 ∷ []))
  typed-shown wl rl laws short noise entropy buffer fits held =
      let line = message_line source destination (c ∷ m) in
      let (frame, out, bytes, told_frame, sent, got, seen) =
        chat_tell-chat_receive sender.net receiver.net Handler.chat_receive noise entropy aes
          around.garbage around.beyond (c ∷ m) destination t.payload t.printable (omega arith)
          (omega (arith, length-tell_line short destination (c ∷ m))) t.sender_node t.broadcast
          (inl refl) chat_handler laws t.same_key in
      (
        frame,
        bytes,
        typed_line wl rl buffer (typed short) (typed-NotIn short),
        main_line-tell short frame fits told_frame,
        sent,
        receive_data-chat bytes out line got seen,
        write_message-line_buffer buffer line held
              (message_line-NotIn source destination (c ∷ m) t.printable)
              (message_line-Decided source destination (c ∷ m))
            ∙ printf_format-message_line source destination (c ∷ m),
      )
