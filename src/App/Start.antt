-- ===== src/App/Start.antt =====
-- The protocols that the node answers.
use tol103m_assignment_p.Base.{ℕ, ◌≡◌, arith, none, some, ◌==◌, if◌then◌else◌}
use tol103m_assignment_p.Lownet.Protocols.{
  handler_from, lownet_get_handler, lownet_register_protocol, no_protocols,
}
use tol103m_assignment_p.App.{chat_receive, ping_receive, crane_receive, registered}

-- After the start, protocol 2 has the chat's handler, 3 the ping's, 5 the crane's, and every other
-- protocol none: 4, that of signed commands, is among them.
pub registered_handlers :
    (q : ℕ)
    → lownet_get_handler registered q ≡ (
        if q == 2
        then some chat_receive
        else (if q == 3 then some ping_receive else (if q == 5 then some crane_receive else none)))
unfolding registered lownet_get_handler lownet_register_protocol no_protocols handler_from
registered_handlers q = ground arith
