-- ===== src/Session/Callbacks.antt =====
-- What holds of the map of streams of backend/internal/session/reassembler.go, whatever packets come
-- and in whatever order the assembler makes its callbacks.
use secure_mail_scope_sih.Common.{
  ℕ, ◌≡◌, refl, ◌∙◌, ◌⊎◌, inl, inr, Bool, true, some, List, [], ◌∷◌, arith, Option-cases, All, Text,
  returns,
}
use secure_mail_scope_sih.Common.{text_key, lookup, insert, All-lookup, All-insert}
use secure_mail_scope_sih.Session.Keys.{make_connection_key}
use secure_mail_scope_sih.Session.Payloads.{
  IsCounted, side_bytes, all_bytes, add_reassemblies-IsCounted,
}
use secure_mail_scope_sih.Session.Reassembler.{
  ReassembledStream, Streams, Packet, packet_stream, stream_or, count_packet, process_packet,
  BidiStream, flow_stream, new_stream, Reassembly, add_reassembly, add_reassemblies, reassembled,
  reassembly_complete,
}

-- One step of the reassembler: a packet, or a callback of the assembler.
pub data Step : Streams → Streams → Type 0 where
  packet : (pkt : Packet) (m : Streams) → Step m (process_packet pkt m)
  created :
      (src_ip : Text) (src_port : ℕ) (dst_ip : Text) (dst_port : ℕ) (m : Streams)
      → Step m (new_stream src_ip src_port dst_ip dst_port m).1
  data_in :
      (b : BidiStream) (rs : List Reassembly) {m m' : Streams}
      → reassembled b rs m ≡ returns m'
      → Step m m'
  complete : (b : BidiStream) {m m' : Streams} → reassembly_complete b m ≡ returns m' → Step m m'

pub data Reach (m : Streams) : Streams → Type 0 where
  here : Reach m m
  next : {n k : Streams} → Reach m n → Step n k → Reach m k

-- A stream stands under its own key, with its bytes counted.
abbrev pub IsSound : Text × ReassembledStream → Type 0
IsSound e = (e.1.key ≡ e.0) × IsCounted e.1

abbrev pub AllSound : Streams → Type 0
AllSound = All IsSound

stream_or-IsSound :
    (key : Text) (made : ReassembledStream) (m : Streams)
    → AllSound m
    → IsSound (key, made)
    → IsSound (key, stream_or made (lookup key m))
unfolding stream_or
stream_or-IsSound key made m h k = elim (Option-cases (lookup key m)) [
  | inl e ↦ rw (e, stream_or) k
  | inr (s, e) ↦ rw (e, stream_or) (All-lookup IsSound key m s h e)
]

packet_stream-IsSound : (key : Text) (pkt : Packet) → IsSound (key, packet_stream key pkt)
unfolding packet_stream side_bytes all_bytes
packet_stream-IsSound key pkt = ground arith

flow_stream-IsSound :
    (key src_ip : Text) (src_port : ℕ) (dst_ip : Text) (dst_port : ℕ)
    → IsSound (key, flow_stream key src_ip src_port dst_ip dst_port)
unfolding flow_stream side_bytes all_bytes
flow_stream-IsSound key src_ip src_port dst_ip dst_port = ground arith

add_reassembly-key :
    (is_client : Bool) (r : Reassembly) (s : ReassembledStream)
    → (add_reassembly is_client r s).key ≡ s.key
unfolding add_reassembly
add_reassembly-key is_client r s = ground arith

add_reassemblies-key :
    (is_client : Bool) (rs : List Reassembly) (s : ReassembledStream)
    → (add_reassemblies is_client rs s).key ≡ s.key
unfolding add_reassemblies
add_reassemblies-key is_client [] s = refl
add_reassemblies-key is_client (r ∷ rs) s =
    add_reassemblies-key is_client rs (add_reassembly is_client r s)
    ∙ add_reassembly-key is_client r s

count_packet-IsSound :
    (key : Text) (time : ℕ) (s : ReassembledStream)
    → IsSound (key, s)
    → IsSound (key, count_packet time s)
unfolding count_packet
count_packet-IsSound key time s h = ground arith

-- What a callback that returns has done.
pub reassembled-cases :
    (b : BidiStream) (rs : List Reassembly) {m m' : Streams}
    → reassembled b rs m ≡ returns m'
    → (m ≡ m')
      ⊎ ((s : ReassembledStream) × (lookup b.key m ≡ some s)
          × (insert b.key (add_reassemblies b.is_client rs s) m ≡ m'))
unfolding reassembled
reassembled-cases b rs {m} h = elim (Option-cases (lookup b.key m)) [
  | inl e ↦ inl (ground (arith, e))
  | inr (s, e) ↦ inr (s, e, ground (arith, e))
]

pub complete-cases :
    (b : BidiStream) (m : Streams) {m' : Streams}
    → reassembly_complete b m ≡ returns m'
    → (s : ReassembledStream) × (lookup b.key m ≡ some s)
      × (insert b.key (record s { stream_complete = true }) m ≡ m')
unfolding reassembly_complete
complete-cases b m h = elim (Option-cases (lookup b.key m)) [
  | inl e ↦ cc e
  | inr (s, e) ↦ (s, e, ground (arith, e))
]

pub new_stream-cases :
    (src_ip : Text) (src_port : ℕ) (dst_ip : Text) (dst_port : ℕ) (m : Streams)
    → let key = make_connection_key src_ip src_port dst_ip dst_port in
      let r = new_stream src_ip src_port dst_ip dst_port m in
      (r.0.key ≡ key)
      × (((s : ReassembledStream) × (lookup key m ≡ some s) × (r.1 ≡ m))
          ⊎ (r.1 ≡ insert key (flow_stream key src_ip src_port dst_ip dst_port) m))
unfolding new_stream stream_or
new_stream-cases src_ip src_port dst_ip dst_port m =
    elim (Option-cases (lookup (make_connection_key src_ip src_port dst_ip dst_port) m)) [
      | inl e ↦ (refl, inr (ground (arith, e)))
      | inr (s, e) ↦ (refl, inl (s, e, ground (arith, e)))
    ]

complete-IsSound :
    (key : Text) (s : ReassembledStream)
    → IsSound (key, s)
    → IsSound (key, record s { stream_complete = true })
complete-IsSound key s h = ground arith

Step-AllSound : {m m' : Streams} → Step m m' → AllSound m → AllSound m'
unfolding process_packet
Step-AllSound (packet pkt m) h =
    let key = make_connection_key pkt.src_ip pkt.src_port pkt.dst_ip pkt.dst_port in
    All-insert IsSound key _ m
      (count_packet-IsSound key pkt.timestamp _
        (stream_or-IsSound key (packet_stream key pkt) m h (packet_stream-IsSound key pkt)))
      h
Step-AllSound (created a p b q m) h = elim (new_stream-cases a p b q m).1 [
  | inl (s, e, same) ↦ rw same h
  | inr made ↦ rw made (All-insert IsSound _ _ m (flow_stream-IsSound _ a p b q) h)
]
Step-AllSound (data_in b rs {m} e) h = elim (reassembled-cases b rs e) [
  | inl same ↦ rw (← same) h
  | inr (s, found, made) ↦
      let sound = All-lookup IsSound b.key m s h found in
      rw (← made) (
        All-insert IsSound b.key _ m
          (
            add_reassemblies-key b.is_client rs s ∙ sound.0,
            add_reassemblies-IsCounted b.is_client rs s sound.1,
          )
          h)
]
Step-AllSound (complete b {m} e) h =
    let (s, found, made) = complete-cases b m e in
    let sound = All-lookup IsSound b.key m s h found in
    rw (← made) (All-insert IsSound b.key _ m (complete-IsSound b.key s sound) h)

Reach-AllSound : {m m' : Streams} → AllSound m → Reach m m' → AllSound m'
Reach-AllSound h here = h
Reach-AllSound h (next r st) = Step-AllSound st (Reach-AllSound h r)

-- In every map that packets and callbacks lead to from the empty one, a stream stands under its own
-- key, its client and server payloads are the bytes of the chunks of that side in order, its full
-- payload those of all chunks, and its two counters are the lengths of the payloads.
pub Reach-IsCounted :
    (key : Text) {m : Streams} {s : ReassembledStream}
    → Reach [] m
    → lookup key m ≡ some s
    → (s.key ≡ key) × IsCounted s
Reach-IsCounted key {m} {s} r e = All-lookup IsSound key m s (Reach-AllSound tt r) e
