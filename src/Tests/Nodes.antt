-- ===== src/Tests/Nodes.antt =====
-- Two nodes with the same key, and third-party code to run them with: a cipher that exclusive-ors
-- every byte with a constant, and a list as a queue.
use tol103m_assignment_p.Base.{
  ℕ, ◌≡◌, refl, ap, ap₂, ◌∙◌, List, [], ◌∷◌, ◌++◌, Option, none, some, length, replicate, bit_xor,
  bit_xor_cancel, ltb, if◌then◌else◌, arith,
}
use tol103m_assignment_p.DeviceTable.{Identifier, identifier}
use tol103m_assignment_p.Lownet.Frame.{Frame, zero_frame}
use tol103m_assignment_p.Lownet.Keys.{Key}
use tol103m_assignment_p.Lownet.Time.{Time}
use tol103m_assignment_p.Lownet.Net.{Net}
use tol103m_assignment_p.Crypt.{AesCbc, IsAesCbc}
use tol103m_assignment_p.Crane.Machine.{AckQueue, IsAckQueue}
use tol103m_assignment_p.App.{Handler, registered}

abbrev masked : List ℕ → List ℕ
masked [] = []
masked (x ∷ xs) = bit_xor x 0x5a ∷ masked xs

abbrev pub xor_cbc : AesCbc
xor_cbc = record {
  encrypt_cbc = λ key iv text. masked text;
  decrypt_cbc = λ key iv text. masked text;
}

length-masked : (xs : List ℕ) → length (masked xs) ≡ length xs
length-masked [] = refl
length-masked (x ∷ xs) = omega (arith, length-masked xs)

masked_twice : (xs : List ℕ) → masked (masked xs) ≡ xs
masked_twice [] = refl
masked_twice (x ∷ xs) =
    ap₂ (λ (y : ℕ) (ys : List ℕ). y ∷ ys) (bit_xor_cancel x 0x5a) (masked_twice xs)

pub xor_cbc-IsAesCbc : IsAesCbc xor_cbc
xor_cbc-IsAesCbc = record {
  length-encrypt = λ key iv text h. length-masked text ∙ h;
  decrypt-encrypt = λ key iv text h. masked_twice text;
}

abbrev pub first_id : Identifier
first_id = identifier (0xf0 ∷ 0x24 ∷ 0xf9 ∷ 0x0c ∷ 0xd6 ∷ 0x0c ∷ []) 0x95

abbrev pub second_id : Identifier
second_id = identifier (0xf0 ∷ 0x24 ∷ 0xf9 ∷ 0x0d ∷ 0xff ∷ 0xac ∷ []) 0x96

abbrev pub everyone : Identifier
everyone = identifier (0xff ∷ 0xff ∷ 0xff ∷ 0xff ∷ 0xff ∷ 0xff ∷ []) 0xff

abbrev pub shared_key : Key
shared_key = record { bytes = replicate 32 7; size = 32 }

abbrev pub noon : Time
noon = record { seconds = 43200; parts = 0 }

abbrev pub node_of : Identifier → Net Handler
node_of id = record {
  identity = id;
  broadcast = everyone;
  aes_key = shared_key;
  protocols = registered;
  sync_time = noon;
  sync_stamp = 0;
}

abbrev pub first_node : Net Handler
first_node = node_of first_id

abbrev pub second_node : Net Handler
second_node = node_of second_id

abbrev pub ones : ℕ → ℕ
ones i = 0xab

-- An uninitialised frame.
abbrev pub rubbish : Frame
rubbish = record zero_frame { payload = replicate 200 0xcc; source = 77; crc = 3 }

abbrev pub list_queue : AckQueue
list_queue = record {
  Queue = List ℕ;
  create = [];
  send = λ q x. if ltb (length q) 8 then q ++ (x ∷ []) else q;
  receive = first;
}
  where
    first : List ℕ → Option (ℕ × List ℕ)
    first [] = none
    first (x ∷ xs) = some (x, xs)

abbrev pub list_queue-IsAckQueue : IsAckQueue list_queue
list_queue-IsAckQueue = record {
  contents = λ q. q;
  contents-create = refl;
  contents-send = λ q x. refl;
  receive_empty = λ q e. ap list_queue.receive e;
  receive_first = λ q x xs e. (xs, ap list_queue.receive e, refl);
}
