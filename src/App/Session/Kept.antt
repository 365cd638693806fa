-- ===== src/App/Session/Kept.antt =====
-- What a command leaves of a node.
use tol103m_assignment_p.Base.{
  ℕ, ◌≡◌, ◌≢◌, ◌<◌, refl, sym, ap, ◌∙◌, arith, List, [], ◌∷◌, Option, none, some, ◌⊎◌, inl, inr,
  false, ltb, length, bytes_eq, bytes_eq_self, Bool-cases,
}
use tol103m_assignment_p.Lownet.Frame.{SecureFrame}
use tol103m_assignment_p.Lownet.Keys.{Key, Keystore, lownet_keystore_read}
use tol103m_assignment_p.Lownet.Net.{Net, lownet_set_key, lownet_get_key}
use tol103m_assignment_p.Crypt.{AesCbc, is_wild, crypt_encrypt, crypt_decrypt, crypt_setkey_command}
use tol103m_assignment_p.Crypt.SelfTest.{
  Tested, overflows, test_frame, compare_frames, crypt_test_command,
}
use tol103m_assignment_p.Crypt.SelfTest
use tol103m_assignment_p.Chat.{Told, tells, tell_command}
use tol103m_assignment_p.Ping.{PingCommand, ping_command}
use tol103m_assignment_p.Crane.Machine.{AckQueue, Crane}
use tol103m_assignment_p.Crane.Script.Preserved.{IsClient, command-IsClient}
use tol103m_assignment_p.App.{Function}
use tol103m_assignment_p.App.Node.{
  Node, Surroundings, Done, Result, done, told, pinged, tested, keyed, call,
}

-- From `n` to `m` only the key and the crane's client may have changed, and the client is in a state
-- that it can be in.
pub record IsKept {Q : Type 0} (n m : Node Q) : Type 0 where
  pub identity : m.net.identity ≡ n.net.identity
  pub broadcast : m.net.broadcast ≡ n.net.broadcast
  pub protocols : m.net.protocols ≡ n.net.protocols
  pub sync_time : m.net.sync_time ≡ n.net.sync_time
  pub sync_stamp : m.net.sync_stamp ≡ n.net.sync_stamp
  pub store : m.store ≡ n.store
  pub client : IsClient m.client

module _ {Q : Type 0} where
  pub client-IsKept : (n : Node Q) (c : Crane Q) → IsClient c → IsKept n (record n { client = c })
  client-IsKept n c i = record {
    identity = refl;
    broadcast = refl;
    protocols = refl;
    sync_time = refl;
    sync_stamp = refl;
    store = refl;
    client = i;
  }

  pub IsKept-same : (n : Node Q) → IsClient n.client → IsKept n n
  IsKept-same n i = client-IsKept n n.client i

  pub IsKept-trans : {n m l : Node Q} → IsKept n m → IsKept m l → IsKept n l
  IsKept-trans k k' = record {
    identity = k'.identity ∙ k.identity;
    broadcast = k'.broadcast ∙ k.broadcast;
    protocols = k'.protocols ∙ k.protocols;
    sync_time = k'.sync_time ∙ k.sync_time;
    sync_stamp = k'.sync_stamp ∙ k.sync_stamp;
    store = k'.store ∙ k.store;
    client = k'.client;
  }

-- It does not fault, and leaves a node that has kept what it should.
abbrev pub Lives : {Q : Type 0} → Node Q → Result Q → Type 0
Lives {Q} n r = (d : Done Q) × (r ≡ done d) × IsKept n d.node

set_key-IsKept :
    {Q : Type 0} (n : Node Q) (key : Option Key)
    → IsClient n.client
    → IsKept n (record n { net = lownet_set_key n.net key })
unfolding lownet_set_key
set_key-IsKept n none i = record {
  identity = refl;
  broadcast = refl;
  protocols = refl;
  sync_time = refl;
  sync_stamp = refl;
  store = refl;
  client = i;
}
set_key-IsKept n (some key) i = record {
  identity = ground arith;
  broadcast = ground arith;
  protocols = ground arith;
  sync_time = ground arith;
  sync_stamp = ground arith;
  store = refl;
  client = i;
}

-- An argument of crypt_setkey_command that makes it use its uninitialised key, which it cannot.
pub record Wild (garbage : Key) (args : List ℕ) : Type 0 where
  pub not_0 : args ≢ b'0' ∷ []
  pub not_1 : args ≢ b'1' ∷ []
  pub size : garbage.size ≡ 32
  pub unreadable : length garbage.bytes < 32

-- What the command does of the key.
setkey-cases :
    {H : Type 0} (net : Net H) (store : Keystore) (garbage : Key) (args : Option (List ℕ))
    → ((str : List ℕ) × (args ≡ some str) × Wild garbage str)
      ⊎ ((key : Option Key) × (crypt_setkey_command net store garbage args
            ≡ some (lownet_set_key net key)))
unfolding crypt_setkey_command
setkey-cases net store garbage none = inr (none, refl)
setkey-cases net store garbage (some args) = elim (Bool-cases (bytes_eq args (b'0' ∷ []))) [
  | inl e ↦ inr (some (lownet_keystore_read store 0), rw e refl)
  | inr e ↦ (elim (Bool-cases (bytes_eq args (b'1' ∷ []))) [
    | inl e' ↦ inr (some (lownet_keystore_read store 1), rw (e, e') refl)
    | inr e' ↦ (elim (Bool-cases (is_wild garbage)) [
      | inl w ↦ inl (
        args,
        refl,
        record {
          not_0 = differs args (b'0' ∷ []) e;
          not_1 = differs args (b'1' ∷ []) e';
          size = ground arith;
          unreadable = ground arith;
        },
      )
      | inr w ↦ inr (some garbage, rw (e, e', w) refl)
    ])
  ])
]
  where
    differs : (xs ys : List ℕ) → bytes_eq xs ys ≡ false → xs ≢ ys
    differs xs ys e same = cc (sym e ∙ (ap (λ (l : List ℕ). bytes_eq l ys) same ∙ bytes_eq_self ys))

module _ (os : AckQueue) (aes : AesCbc) (around : Surroundings) (n : Node os.Queue)
    (i : IsClient n.client) where
  told-Lives : (t : Told) → (t ≡ Told.faults) ⊎ Lives n (told os aes around n t)
  told-Lives Told.faults = inl refl
  told-Lives Told.invalid_node = inr (_, refl, IsKept-same n i)
  told-Lives Told.no_message = inr (_, refl, IsKept-same n i)
  told-Lives (tells m d) = inr (_, refl, IsKept-same n i)

  pinged-Lives : (p : PingCommand) → Lives n (pinged os aes around n p)
  pinged-Lives PingCommand.no_node = (_, refl, IsKept-same n i)
  pinged-Lives PingCommand.invalid_node = (_, refl, IsKept-same n i)
  pinged-Lives (PingCommand.pings_node d) = (_, refl, IsKept-same n i)

  compared-fits : (a b c : SecureFrame) → compare_frames aes n.net a b c ≢ overflows
  unfolding compare_frames
  compared-fits a b c = λ e. ground arith

  overflow_long :
      (args : Option (List ℕ))
      → crypt_test_command aes n.net args ≡ overflows
      → (str : List ℕ) × (args ≡ some str) × (203 < length str)
  overflow_long none e = absurd (unfold crypt_test_command in cc)
  overflow_long (some str) e = (
    str,
    refl,
    elim (Bool-cases (ltb 203 (length str))) [
      | inl e' ↦ ground arith
      | inr e' ↦
          (let key = n.net.aes_key in
            let plain = test_frame aes n.net str in
            let cipher = crypt_encrypt aes key plain in
            let fits = compared-fits plain cipher (crypt_decrypt aes key cipher) in
            unfold crypt_test_command lownet_get_key in absurd (ground arith))
    ],
  )

  tested-Lives : (t : Tested) → (t ≡ overflows) ⊎ Lives n (tested os aes around n t)
  tested-Lives SelfTest.nothing = inr (_, refl, IsKept-same n i)
  tested-Lives SelfTest.no_key = inr (_, refl, IsKept-same n i)
  tested-Lives SelfTest.overflows = inl refl
  tested-Lives SelfTest.unencrypted_changed = inr (_, refl, IsKept-same n i)
  tested-Lives SelfTest.ivt_changed = inr (_, refl, IsKept-same n i)
  tested-Lives SelfTest.successful = inr (_, refl, IsKept-same n i)
  tested-Lives (SelfTest.failed x y z) = inr (_, refl, IsKept-same n i)

  keyed-Lives :
      (args : Option (List ℕ))
      → ((str : List ℕ) × (args ≡ some str) × Wild around.garbage_key str)
        ⊎ Lives n (
            keyed os aes around n args (crypt_setkey_command n.net n.store around.garbage_key args))
  keyed-Lives args = elim (setkey-cases n.net n.store around.garbage_key args) [
    | inl w ↦ inl w
    | inr (key, e) ↦ inr (_, ap (keyed os aes around n args) e, set_key-IsKept n key i)
  ]

  -- A command and an argument that fault.
  abbrev pub Breaks : Function → Option (List ℕ) → Type 0
  Breaks f args =
      ((f ≡ Function.tell_command) × (tell_command args ≡ Told.faults))
      ⊎ (((str : List ℕ) × (f ≡ Function.crypt_test_command)
            × (args ≡ some str)
            × (203 < length str))
          ⊎ ((str : List ℕ) × (f ≡ Function.crypt_setkey_command)
              × (args ≡ some str)
              × Wild around.garbage_key str))

  pub call-Lives :
      (f : Function) (args : Option (List ℕ))
      → Breaks f args ⊎ Lives n (call os aes around n f args)
  unfolding call
  call-Lives Function.shout_command args = inr (_, refl, IsKept-same n i)
  call-Lives Function.tell_command args = elim (told-Lives (tell_command args)) [
    | inl e ↦ inl (inl (refl, e))
    | inr l ↦ inr l
  ]
  call-Lives Function.ping_command args = inr (pinged-Lives (ping_command args))
  call-Lives Function.date_command args = inr (_, refl, IsKept-same n i)
  call-Lives Function.crypt_setkey_command args = elim (keyed-Lives args) [
    | inl (str, e, w) ↦ inl (inr (inr (str, refl, e, w)))
    | inr l ↦ inr l
  ]
  call-Lives Function.id_command args = inr (_, refl, IsKept-same n i)
  call-Lives Function.crypt_test_command args =
      elim (tested-Lives (crypt_test_command aes n.net args)) [
        | inl e ↦
            (let (str, e', long) = overflow_long args e in inl (inr (inl (str, refl, e', long))))
        | inr l ↦ inr l
      ]
  call-Lives Function.crane_command args =
      let i' =
        command-IsClient os args (record { client = n.client; arrivals = around.arrivals }) i in
      inr (_, refl, client-IsKept n _ i')
  call-Lives Function.help_command args = inr (_, refl, IsKept-same n i)
