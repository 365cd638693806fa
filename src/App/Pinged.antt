-- ===== src/App/Pinged.antt =====
-- From the ping command that is typed on one node to the reply's line on the same node.
use tol103m_assignment_p.Base.{
  ℕ, ◌≤◌, ◌<◌, ◌≡◌, ◌≢◌, ap, ◌∙◌, arith, List, [], ◌∷◌, some, none, length,
}
use tol103m_assignment_p.Utility.{format_id, node_argument}
use tol103m_assignment_p.Cli.{find_command}
use tol103m_assignment_p.Cli.Find.{NotIn}
use tol103m_assignment_p.Lownet.Frame.{Frame}
use tol103m_assignment_p.Lownet.Net.{lownet_get_time}
use tol103m_assignment_p.Lownet.Protocols.{lownet_get_handler}
use tol103m_assignment_p.Lownet.Send.{lownet_send}
use tol103m_assignment_p.Lownet.Receive.{handled, receive_bytes}
use tol103m_assignment_p.Lownet.Text.{reply_line}
use tol103m_assignment_p.Lownet.Time.{time_diff}
use tol103m_assignment_p.Crypt.{AesCbc, IsAesCbc, crypt_encrypt, crypt_decrypt}
use tol103m_assignment_p.Crypt.Delivery.{SameKey}
use tol103m_assignment_p.Chat.Tell.{node_argument-format_id}
use tol103m_assignment_p.Ping
use tol103m_assignment_p.Ping.{PingCommand, ping, pings_node, ping_command}
use tol103m_assignment_p.Ping.RoundTrip.{ping_round_trip}
use tol103m_assignment_p.Crane.Machine.{AckQueue}
use tol103m_assignment_p.Serial.Input.{padded}
use tol103m_assignment_p.App
use tol103m_assignment_p.App.{Handler, Function, calls, commands, registered, handle_line}
use tol103m_assignment_p.App.Lines.{handle_line_lem}
use tol103m_assignment_p.App.Start.{registered_handlers}
use tol103m_assignment_p.App.Typed.{c_string-padded, NotIn-format_id}
use tol103m_assignment_p.App.Node.{
  Node, Surroundings, result, pinged, ping_reaction, react, call, judged, main_line, dispatch,
  receive_data,
}

-- "/ping id".
abbrev pub ping_line : ℕ → List ℕ
ping_line id = b'/' ∷ b'p' ∷ b'i' ∷ b'n' ∷ b'g' ∷ b' ' ∷ format_id id

ping_line-NotIn : (id : ℕ) → NotIn 0 (ping_line id)
ping_line-NotIn id = (
  omega arith,
  (
    omega arith,
    (omega arith, (omega arith, (omega arith, (omega arith, NotIn-format_id 0 id (omega arith))))),
  ),
)

length-format_id : (id : ℕ) → length (format_id id) ≤ 4
unfolding format_id
length-format_id id = ground arith

handle_line-ping :
    (d : ℕ) (args : List ℕ)
    → NotIn 10 (d ∷ args)
    → handle_line (b'/' ∷ b'p' ∷ b'i' ∷ b'n' ∷ b'g' ∷ b' ' ∷ d ∷ args)
      ≡ calls App.Function.ping_command (some (d ∷ args))
unfolding find_command commands
handle_line-ping d args n =
    (handle_line_lem b'p' d (b'i' ∷ b'n' ∷ b'g' ∷ []) args
      (omega arith, (omega arith, (omega arith, (omega arith, tt)))) n).1

handle_line-ping_line :
    (id : ℕ) → handle_line (ping_line id) ≡ calls App.Function.ping_command (some (format_id id))
handle_line-ping_line id =
    let n = NotIn-format_id 10 id (omega arith) in unfold format_id in handle_line-ping b'0' _ n

ping_command-of :
    (args : List ℕ) (id : ℕ)
    → node_argument args [] ≡ id
    → id ≢ 0
    → ping_command (some args) ≡ pings_node id
unfolding ping_command
ping_command-of args id e h = ground arith

-- Two nodes as they are after their start, and the frames that are on the two stacks.
pub record Pings {Q : Type 0} (a b : Node Q) (asks answers : Surroundings) : Type 0 where
  pub differ : (a.net.identity).node ≢ (b.net.identity).node
  pub not_broadcast : (a.net.identity).node ≢ 0xff
  pub answering_node : (b.net.identity).node ≢ 0xff
  pub some_node : (b.net.identity).node ≢ 0
  pub byte : (b.net.identity).node < 256
  pub protocols : a.net.protocols ≡ registered
  pub answering_protocols : b.net.protocols ≡ registered
  pub same_key : SameKey a.net b.net
  pub payload : length asks.garbage.payload ≡ 200
  pub answering_payload : length answers.garbage.payload ≡ 200

module _ (os : AckQueue) (aes : AesCbc) where
  main_line-ping :
      (around : Surroundings) (node : Node os.Queue) (id : ℕ)
      → id < 256
      → id ≢ 0
      → main_line os aes around node (padded 127 (ping_line id))
        ≡ result node [] (ping node.net around.timer around.garbage around.stale id none 0 ∷ [])
  unfolding main_line call
  main_line-ping around node id byte some_node =
      ap (λ (l : List ℕ). react os aes around node (handle_line l))
        (c_string-padded 127 (ping_line id) (omega (arith, length-format_id id))
          (ping_line-NotIn id))
      ∙ (ap (react os aes around node) (handle_line-ping_line id)
          ∙ ap (pinged os aes around node)
              (ping_command-of (format_id id) id (node_argument-format_id id [] byte) some_node))

  receive_data-ping :
      (around : Surroundings) (node : Node os.Queue) (bytes : List ℕ) (out : Frame)
      (r : Ping.Reaction)
      → receive_bytes (crypt_decrypt aes) node.net bytes ≡ some (handled Handler.ping_receive out)
      → Ping.ping_receive node.net around.timer around.garbage out ≡ r
      → receive_data os aes around node bytes ≡ ping_reaction os aes around node r
  unfolding receive_data dispatch
  receive_data-ping around node bytes out r e e' =
      ap (judged os aes around node) e ∙ ap (ping_reaction os aes around node) e'

  -- The whole way of a ping: the line "/ping id" makes the main loop of node `a` give one frame to
  -- lownet_send; the bytes that it sends make node `b` with that id write nothing and give one frame
  -- to lownet_send; the bytes of that frame make `a` send nothing and write one line, `b`'s id and the
  -- time on `a`'s clock from the command to the reply's arrival; no node changes. The two nodes have
  -- started, they differ, neither is the broadcast address, `b`'s id is a byte that is not 0, and they
  -- have the same key or none.
  pub ping-replied :
      (asks answers hears : Surroundings) (a b : Node os.Queue)
      → Pings a b asks answers
      → IsAesCbc aes
      → (noise entropy noise' entropy' : ℕ → ℕ)
      → let id = (b.net.identity).node in
        (frame reply : Frame) × (bytes bytes' : List ℕ) × (main_line os aes asks a
            (padded 127 (ping_line id))
          ≡ result a [] (frame ∷ []))
        × (lownet_send a.net noise (crypt_encrypt aes) entropy frame ≡ some bytes)
        × (receive_data os aes answers b bytes ≡ result b [] (reply ∷ []))
        × (lownet_send b.net noise' (crypt_encrypt aes) entropy' reply ≡ some bytes')
        × (receive_data os aes hears a bytes'
            ≡ result a
                (reply_line id (
                    time_diff
                      (lownet_get_time a.net asks.timer)
                      (lownet_get_time a.net hears.timer))
                  ∷ [])
                [])
  ping-replied asks answers hears a b p laws noise entropy noise' entropy' =
      let id = (b.net.identity).node in
      let known : (node : Node os.Queue)
          → node.net.protocols ≡ registered
          → lownet_get_handler node.net.protocols 3 ≡ some Handler.ping_receive =
        λ node e. ap (λ t. lownet_get_handler t 3) e ∙ registered_handlers 3 in
      let (bytes, bytes', out, reply, out', sent, got, replied, sent', got', shown) =
        ping_round_trip a.net b.net Handler.ping_receive Handler.ping_receive aes noise entropy
          noise' entropy' asks.garbage answers.garbage hears.garbage asks.timer answers.timer
          hears.timer asks.stale none 0 p.payload p.answering_payload tt p.differ p.not_broadcast
          p.answering_node (known a p.protocols) (known b p.answering_protocols) laws p.same_key in
      (
        ping a.net asks.timer asks.garbage asks.stale id none 0,
        reply,
        bytes,
        bytes',
        main_line-ping asks a id p.byte p.some_node,
        sent,
        receive_data-ping answers b bytes out (Ping.Reaction.replies reply) got replied,
        sent',
        receive_data-ping hears a bytes' out' _ got' shown,
      )
