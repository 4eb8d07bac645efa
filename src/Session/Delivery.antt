-- ===== src/Session/Delivery.antt =====
-- Two ends of a session of phinet-core/src/session.rs that share a secret.
use phinet.Prelude.{
  ℕ, ◌≡◌, refl, List, [], ◌∷◌, ◌++◌, Bool, true, false, not, arith, map, if◌then◌else◌, Bool-cases,
  inl, inr,
}
use phinet.Prelude.Result.{Result, ok}
use phinet.Ntor.{Primitives}
use phinet.Session.{
  Aead, Session, bytes_lt, new_session, rotation_link_key, aad_send, aad_recv, nonce_ctr_send,
  nonce_ctr_recv, encrypt, decrypt,
}

-- What one end sends, the other expects.
pub record SendsTo (a b : Session) : Type 0 where
  pub key : a.send_key ≡ b.recv_key
  pub nonce : a.send_nonce ≡ b.recv_nonce
  pub id : a.session_id ≡ b.session_id
  pub role : a.is_initiator ≡ not b.is_initiator

pub record Linked (a b : Session) : Type 0 where
  pub forth : SendsTo a b
  pub back : SendsTo b a

pub new_session-Linked :
    (h : Primitives) (shared : List ℕ)
    → Linked (new_session h shared true) (new_session h shared false)
unfolding new_session
new_session-Linked h shared = record {
  forth = record { key = refl; nonce = refl; id = refl; role = refl };
  back = record { key = refl; nonce = refl; id = refl; role = refl };
}

pub ctr_agrees :
    (a b : Session) (n : ℕ)
    → a.is_initiator ≡ not b.is_initiator
    → nonce_ctr_send a n ≡ nonce_ctr_recv b n
unfolding nonce_ctr_send nonce_ctr_recv
ctr_agrees a b n role = ground arith

aad_agrees :
    (a b : Session)
    → a.session_id ≡ b.session_id
    → a.is_initiator ≡ not b.is_initiator
    → aad_send a ≡ aad_recv b
unfolding aad_send aad_recv
aad_agrees a b id role = ground arith

module _ (aead : Aead) where
  -- One message over a reliable connection: the two ends after it, and what arrived.
  unfoldable pub deliver : List ℕ → Session → Session → Session × Session × Result (List ℕ)
  deliver message a b =
      let sent = encrypt aead message a in
      let received = decrypt aead sent.1 b in (sent.0, received.0, received.1)

  pub opened :
      (message : List ℕ) (a b : Session) → SendsTo a b → (deliver message a b).2 ≡ ok message
  unfolding deliver encrypt decrypt
  opened message a b to =
      rw
        (
          ← ctr_agrees a b b.recv_nonce to.role,
          ← aad_agrees a b to.id to.role,
          ← to.key,
          ← to.nonce,
          aead.open_sealed-seal,
        )
        refl

  pub forth-after :
      (message : List ℕ) (a b : Session)
      → SendsTo a b
      → SendsTo (deliver message a b).0 (deliver message a b).1
  unfolding deliver encrypt decrypt
  forth-after message a b to = record {
    key = to.key;
    nonce = ground (arith, to.nonce);
    id = to.id;
    role = to.role;
  }

  pub back-after :
      (message : List ℕ) (a b : Session)
      → SendsTo b a
      → SendsTo (deliver message a b).1 (deliver message a b).0
  unfolding deliver encrypt decrypt
  back-after message a b to = record { key = to.key; nonce = to.nonce; id = to.id; role = to.role }

  -- A conversation in any order of turns: `true` is a message from the first end.
  pub talk : List (Bool × List ℕ) → Session → Session → List (Result (List ℕ))
  talk [] a b = []
  talk ((true, message) ∷ turns) a b =
      let turn = deliver message a b in turn.2 ∷ talk turns turn.0 turn.1
  talk ((false, message) ∷ turns) a b =
      let turn = deliver message b a in turn.2 ∷ talk turns turn.1 turn.0

  talk_delivers :
      (turns : List (Bool × List ℕ)) (a b : Session)
      → Linked a b
      → talk turns a b ≡ map (λ turn. ok turn.1) turns
  unfolding talk
  talk_delivers [] a b linked = refl
  talk_delivers ((true, message) ∷ turns) a b linked =
      let rest = talk_delivers turns _ _ (record {
        forth = forth-after message a b linked.forth;
        back = back-after message a b linked.back;
      }) in
      rw (opened message a b linked.forth, rest) refl
  talk_delivers ((false, message) ∷ turns) a b linked =
      let rest = talk_delivers turns _ _ (record {
        forth = back-after message b a linked.forth;
        back = forth-after message b a linked.back;
      }) in
      rw (opened message b a linked.back, rest) refl

  -- The two ends of a shared secret deliver every message of every conversation, whoever speaks
  -- when and however long it goes on, as it was sent.
  pub new_session-talk :
      (h : Primitives) (shared : List ℕ) (turns : List (Bool × List ℕ))
      → talk turns (new_session h shared true) (new_session h shared false)
        ≡ map (λ turn. ok turn.1) turns
  new_session-talk h shared turns = talk_delivers turns _ _ (new_session-Linked h shared)

bytes_lt-antisym : (x y : List ℕ) → bytes_lt x y ≡ false → bytes_lt y x ≡ false → x ≡ y
unfolding bytes_lt
bytes_lt-antisym [] [] h k = refl
bytes_lt-antisym [] (b ∷ y) h k = cc
bytes_lt-antisym (a ∷ x) [] h k = cc
bytes_lt-antisym (a ∷ x) (b ∷ y) h k = ground (arith, bytes_lt-antisym x y)

bytes_lt-asym : (x y : List ℕ) → bytes_lt x y ≡ true → bytes_lt y x ≡ false
unfolding bytes_lt
bytes_lt-asym [] [] h = cc
bytes_lt-asym [] (b ∷ y) h = refl
bytes_lt-asym (a ∷ x) [] h = cc
bytes_lt-asym (a ∷ x) (b ∷ y) h = ground (arith, bytes_lt-asym x y)

in_order :
    (x y : List ℕ)
    → (if bytes_lt x y then x ++ y else y ++ x) ≡ (if bytes_lt y x then y ++ x else x ++ y)
in_order x y = elim (Bool-cases (bytes_lt x y)) [
  | inl less ↦ rw (less, bytes_lt-asym x y less) refl
  | inr not_less ↦ elim (Bool-cases (bytes_lt y x)) [
    | inl greater ↦ rw (not_less, greater) refl
    | inr same ↦ rw (bytes_lt-antisym x y not_less same) refl
  ]
]

-- Both ends of a link, at whatever counters, derive the same key for certificate rotation.
pub rotation_link_key-Linked :
    (h : Primitives) (a b : Session) → Linked a b → rotation_link_key h a ≡ rotation_link_key h b
unfolding rotation_link_key
rotation_link_key-Linked h a b linked =
    rw (← linked.forth.key, linked.back.key, in_order a.send_key a.recv_key) refl
