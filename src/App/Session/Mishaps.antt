-- ===== src/App/Session/Mishaps.antt =====
-- What can end the work of a node.
use tol103m_assignment_p.Base.{ℕ, ◌≡◌, ◌<◌, List, ◌∷◌, ◌++◌, Option, some, ◌⊎◌, length}
use tol103m_assignment_p.Utility.{c_string}
use tol103m_assignment_p.Lownet.Frame.{Frame}
use tol103m_assignment_p.Lownet.Receive.{handled, receive_bytes}
use tol103m_assignment_p.Crypt.{AesCbc, crypt_decrypt}
use tol103m_assignment_p.Chat.{Told, tell_command}
use tol103m_assignment_p.Ping
use tol103m_assignment_p.Ping.{PingCommand, ping_receive, ping_command}
use tol103m_assignment_p.Crane.Machine.{AckQueue}
use tol103m_assignment_p.App.{Handler, Function, Reaction, calls, handle_line}
use tol103m_assignment_p.App.Node.{Node, Done, done}
use tol103m_assignment_p.App.Session.Kept.{IsKept, Wild}
use tol103m_assignment_p.App.Session.{Event, typed, arrived, run}

-- The five faults: a "/" without a name; a message to a node without a word in it; a text of more than
-- 203 characters for the cipher's test; a key that is neither "0" nor "1", when the uninitialised key
-- has the size 32 and a pointer that 32 bytes cannot be read from; a ping whose length is more than the
-- payload's 200 bytes. Reading the memory behind a payload, as chat_receive does, is not counted.
abbrev pub Mishap : {Q : Type 0} → AesCbc → Node Q → Event → Type 0
Mishap aes n (typed around msg_in) =
    let reaction = handle_line (c_string msg_in) in
    (reaction ≡ Reaction.faults)
    ⊎ (((args : Option (List ℕ)) × (reaction ≡ calls Function.tell_command args)
          × (tell_command args ≡ Told.faults))
        ⊎ (((str : List ℕ) × (reaction ≡ calls Function.crypt_test_command (some str))
              × (203 < length str))
            ⊎ ((str : List ℕ) × (reaction ≡ calls Function.crypt_setkey_command (some str))
                × Wild around.garbage_key str)))
Mishap aes n (arrived around bytes) =
    (f : Frame) × (receive_bytes (crypt_decrypt aes) n.net bytes
      ≡ some (handled Handler.ping_receive f))
    × (200 < f.len)

module _ (os : AckQueue) (aes : AesCbc) where
  -- The run up to one of the events lives, and that event is a mishap.
  abbrev pub Ends : Node os.Queue → List Event → Type 0
  Ends n es =
      (before after : List Event) × (e : Event) × (d : Done os.Queue) × (es ≡ before ++ (e ∷ after))
      × (run os aes n before ≡ done d)
      × IsKept n d.node
      × Mishap aes d.node e
