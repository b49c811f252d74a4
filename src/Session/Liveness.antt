-- ===== src/Session/Liveness.antt =====
-- The callbacks of backend/internal/session/reassembler.go find their stream in the map.
use secure_mail_scope_sih.Common.{
  ℕ, ◌≡◌, refl, ◌∙◌, inl, inr, true, some, List, arith, Text, text_eq_iff, returns,
}
use secure_mail_scope_sih.Common.{text_key, lookup, insert, lookup-insert, insert-keeps}
use secure_mail_scope_sih.Session.Keys.{make_connection_key}
use secure_mail_scope_sih.Session.Reassembler.{
  ReassembledStream, Streams, process_packet, BidiStream, flow_stream, new_stream, Reassembly,
  add_reassemblies, reassembled, reassembly_complete,
}
use secure_mail_scope_sih.Session.Callbacks.{
  Step, packet, created, data_in, complete, Reach, here, next, reassembled-cases, complete-cases,
  new_stream-cases,
}

-- The key has a stream.
abbrev HasKey : Text → Streams → Type 0
HasKey key m = (s : ReassembledStream) × (lookup key m ≡ some s)

insert-HasKey :
    (key j : Text) (v : ReassembledStream) (m : Streams) → HasKey j m → HasKey j (insert key v m)
insert-HasKey key j v m (w, e) = insert-keeps key j v w m e

Step-HasKey : (key : Text) {m m' : Streams} → Step m m' → HasKey key m → HasKey key m'
unfolding process_packet
Step-HasKey key (packet pkt m) h = insert-HasKey _ key _ m h
Step-HasKey key (created a p b q m) h = elim (new_stream-cases a p b q m).1 [
  | inl (s, e, same) ↦ rw same h
  | inr made ↦ rw made (insert-HasKey _ key _ m h)
]
Step-HasKey key (data_in b rs {m} e) h = elim (reassembled-cases b rs e) [
  | inl same ↦ rw (← same) h
  | inr (s, found, made) ↦ rw (← made) (insert-HasKey b.key key _ m h)
]
Step-HasKey key (complete b {m} e) h =
    let (s, found, made) = complete-cases b m e in rw (← made) (insert-HasKey b.key key _ m h)

Reach-HasKey : (key : Text) {m m' : Streams} → Reach m m' → HasKey key m → HasKey key m'
Reach-HasKey key here h = h
Reach-HasKey key (next r st) h = Step-HasKey key st (Reach-HasKey key r h)

new_stream-HasKey :
    (a : Text) (p : ℕ) (b : Text) (q : ℕ) (m : Streams)
    → let r = new_stream a p b q m in HasKey r.0.key r.1
new_stream-HasKey a p b q m =
    let key = make_connection_key a p b q in
    let (named, made) = new_stream-cases a p b q m in
    rw named (elim made [
      | inl (s, e, same) ↦ rw same (s, e)
      | inr fresh ↦ rw fresh (
        flow_stream key a p b q,
        lookup-insert key key (flow_stream key a p b q) m ∙ rw ((text_eq_iff key key).1 refl),
      )
    ])

reassembled_of_some :
    (b : BidiStream) (rs : List Reassembly) (m : Streams) (s : ReassembledStream)
    → lookup b.key m ≡ some s
    → reassembled b rs m ≡ returns (insert b.key (add_reassemblies b.is_client rs s) m)
unfolding reassembled
reassembled_of_some b rs m s e = ground (arith, e)

complete_of_some :
    (b : BidiStream) (m : Streams) (s : ReassembledStream)
    → lookup b.key m ≡ some s
    → reassembly_complete b m ≡ returns (insert b.key (record s { stream_complete = true }) m)
unfolding reassembly_complete
complete_of_some b m s e = ground (arith, e)

-- A stream that `New` made finds its entry in the map in every later state: its two other callbacks
-- return, with no nil dereference.
pub callbacks-Total :
    (a : Text) (p : ℕ) (b : Text) (q : ℕ) (rs : List Reassembly) (m : Streams) {n : Streams}
    → Reach (new_stream a p b q m).1 n
    → ((n' : Streams) × (reassembled (new_stream a p b q m).0 rs n ≡ returns n'))
      × ((n' : Streams) × (reassembly_complete (new_stream a p b q m).0 n ≡ returns n'))
callbacks-Total a p b q rs m {n} reached =
    let (s, e) = Reach-HasKey _ reached (new_stream-HasKey a p b q m) in
    ((_, reassembled_of_some _ rs n s e), (_, complete_of_some _ n s e))
