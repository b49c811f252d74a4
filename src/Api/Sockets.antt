-- ===== src/Api/Sockets.antt =====
-- The WebSocket clients of backend/internal/api/handlers.go: the map `wsClients`, and the messages that
-- each client was sent. A client is a number; whether a write to it fails is an argument.
use secure_mail_scope_sih.Common.{
  ℕ, ◌≡◌, refl, sym, ap, ◌∙◌, inl, inr, Bool, true, false, not, List, [], ◌∷◌, ◌++◌, arith,
  Bool-cases, ◌==◌, if◌then◌else◌, any, ◌&&◌, ==_iff,
}
use mathlib.Core.List.{append-nil, append_assoc}

-- `sent` are the messages that arrived, with their client.
pub record Sockets {ℓ} (M : Type ℓ) : Type ℓ where
  pub clients : List ℕ
  pub sent : List (ℕ × M)

unfoldable pub remove : ℕ → List ℕ → List ℕ
remove client [] = []
remove client (c ∷ cs) = let rest = remove client cs in if c == client then rest else c ∷ rest

-- Whether a connection is one of the clients
abbrev pub is_client : ℕ → List ℕ → Bool
is_client client cs = any (λ c. c == client) cs

remove-is_client :
    (client c : ℕ) (cs : List ℕ)
    → is_client client (remove c cs) ≡ is_client client cs && not (c == client)
unfolding remove any
remove-is_client client c [] = ground arith
remove-is_client client c (d ∷ cs) =
    ground (arith, remove-is_client client c cs, ==_iff d c, ==_iff c client, ==_iff d client)

module _ {ℓ} {M : Type ℓ} where
  -- `s.wsClients[ws] = true`
  unfoldable pub connect : ℕ → Sockets M → Sockets M
  unfolding remove
  connect client s = record s { clients = client ∷ remove client s.clients }

  -- `delete(s.wsClients, ws)`, when a read or a write fails
  unfoldable pub disconnect : ℕ → Sockets M → Sockets M
  unfolding remove
  disconnect client s = record s { clients = remove client s.clients }

  -- The write of a message to one client
  unfoldable pub write_to : (ℕ → Bool) → M → ℕ → Sockets M → Sockets M
  unfolding disconnect
  write_to fails message client s =
      if fails client
      then disconnect client s
      else record s { sent = s.sent ++ (client, message) ∷ [] }

  unfoldable pub write_all : (ℕ → Bool) → M → List ℕ → Sockets M → Sockets M
  unfolding write_to
  write_all fails message [] s = s
  write_all fails message (c ∷ cs) s = write_all fails message cs (write_to fails message c s)

  -- `broadcastWSEvent` and `broadcastRawWSEvent`: to the clients of the moment, outside the lock
  unfoldable pub broadcast : (ℕ → Bool) → M → Sockets M → Sockets M
  unfolding write_all
  broadcast fails message s = write_all fails message s.clients s

  -- The clients of a list whose write succeeds, each with the message
  unfoldable pub delivered : (ℕ → Bool) → M → List ℕ → List (ℕ × M)
  delivered fails message [] = []
  delivered fails message (c ∷ cs) =
      let rest = delivered fails message cs in if fails c then rest else (c, message) ∷ rest

  write_to-sent :
      (fails : ℕ → Bool) (message : M) (c : ℕ) (cs : List ℕ) (s : Sockets M)
      → (write_to fails message c s).sent ++ delivered fails message cs
        ≡ s.sent ++ delivered fails message (c ∷ cs)
  unfolding write_to disconnect delivered
  write_to-sent fails message c cs s = elim (Bool-cases (fails c)) [
    | inl e ↦ rw e refl
    | inr e ↦ rw e (append_assoc s.sent ((c, message) ∷ []) (delivered fails message cs))
  ]

  write_all-sent :
      (fails : ℕ → Bool) (message : M) (cs : List ℕ) (s : Sockets M)
      → (write_all fails message cs s).sent ≡ s.sent ++ delivered fails message cs
  unfolding write_all delivered
  write_all-sent fails message [] s = sym (append-nil s.sent)
  write_all-sent fails message (c ∷ cs) s =
      write_all-sent fails message cs (write_to fails message c s)
      ∙ write_to-sent fails message c cs s

  write_to-clients :
      (fails : ℕ → Bool) (message : M) (client c : ℕ) (s : Sockets M)
      → is_client client (write_to fails message c s).clients
        ≡ is_client client s.clients && not (fails client && c == client)
  unfolding write_to disconnect
  write_to-clients fails message client c s = elim (Bool-cases (c == client)) [
    | inl same ↦
        let q : fails c ≡ fails client = ap fails ((==_iff c client).0 same) in
        elim (Bool-cases (fails c)) [
          | inl e ↦
              let r = remove-is_client client c s.clients in
              let f : fails client ≡ true = sym q ∙ e in rw e (ground (arith, r, same, f))
          | inr e ↦ let f : fails client ≡ false = sym q ∙ e in rw e (ground (arith, same, f))
        ]
    | inr other ↦ elim (Bool-cases (fails c)) [
      | inl e ↦ rw e (let r = remove-is_client client c s.clients in ground (arith, r, other))
      | inr e ↦ rw e (ground (arith, other))
    ]
  ]

  write_all-clients :
      (fails : ℕ → Bool) (message : M) (client : ℕ) (cs : List ℕ) (s : Sockets M)
      → is_client client (write_all fails message cs s).clients
        ≡ is_client client s.clients && not (fails client && is_client client cs)
  unfolding write_all any
  write_all-clients fails message client [] s = ground arith
  write_all-clients fails message client (c ∷ cs) s =
      let rest = write_all-clients fails message client cs (write_to fails message c s) in
      let first = write_to-clients fails message client c s in ground (arith, rest, first)

  -- A broadcast is delivered to each client of the moment whose write succeeds, once and in order, and
  -- a client whose write fails is a client no more, while every other stays one.
  pub broadcast_lem :
      (fails : ℕ → Bool) (message : M) (s : Sockets M) (client : ℕ)
      → let after = broadcast fails message s in
        (after.sent ≡ s.sent ++ delivered fails message s.clients)
        × (is_client client after.clients ≡ is_client client s.clients && not (fails client))
  unfolding broadcast
  broadcast_lem fails message s client = (
    write_all-sent fails message s.clients s,
    (let found = write_all-clients fails message client s.clients s in ground (arith, found)),
  )
