-- ===== src/Session/Reassembler.antt =====
-- `StreamReassembler` of backend/internal/session/reassembler.go: its map of streams, what
-- `ProcessPacket` does to it before the packet goes to `tcpassembly`, and the three callbacks through
-- which that package hands reassembled data back. The assembler itself is not part of the repository:
-- it decides which callbacks come, in which order.
use secure_mail_scope_sih.Common.{
  ℕ, ◌+◌, Bool, true, false, not, ◌&&◌, ◌||◌, Option, none, some, List, [], ◌∷◌, ◌++◌, ltb, ◌==◌,
  if◌then◌else◌, length, any, Text, text_eq, Bytes, Go, returns, panics,
}
use secure_mail_scope_sih.Common.{text_key, lookup, insert}
use secure_mail_scope_sih.Session.Keys.{make_connection_key, is_server_port}

-- `PayloadChunk`
pub record PayloadChunk : Type 0 where
  pub timestamp : ℕ
  pub is_client : Bool
  pub payload : Bytes

-- `ReassembledStream`. The counters are ints of 64 bits, which no capture fills.
pub record ReassembledStream : Type 0 where
  pub key : Text
  pub client_ip : Text
  pub client_port : ℕ
  pub server_ip : Text
  pub server_port : ℕ
  pub start_time : ℕ
  pub end_time : ℕ
  pub packet_count : ℕ
  pub client_bytes : ℕ
  pub server_bytes : ℕ
  pub stream_complete : Bool
  pub reassembly_gap : Bool
  pub client_payload : Bytes
  pub server_payload : Bytes
  pub full_payload : Bytes
  pub retransmissions : ℕ
  pub chunks : List PayloadChunk

-- The map `streams` of `StreamReassembler`.
abbrev pub Streams : Type 0
Streams = List (Text × ReassembledStream)

-- What `ProcessPacket` reads of a `capture.PacketMetadata`; the flag is `TCPFlags == "SYN "`.
pub record Packet : Type 0 where
  pub timestamp : ℕ
  pub src_ip : Text
  pub src_port : ℕ
  pub dst_ip : Text
  pub dst_port : ℕ
  pub is_syn : Bool

-- `&ReassembledStream{…}` between a client and a server.
abbrev pub fresh_stream : Text → Text → ℕ → Text → ℕ → ℕ → ReassembledStream
fresh_stream key client_ip client_port server_ip server_port time = record {
  key = key;
  client_ip = client_ip;
  client_port = client_port;
  server_ip = server_ip;
  server_port = server_port;
  start_time = time;
  end_time = time;
  packet_count = 0;
  client_bytes = 0;
  server_bytes = 0;
  stream_complete = false;
  reassembly_gap = false;
  client_payload = [];
  server_payload = [];
  full_payload = [];
  retransmissions = 0;
  chunks = [];
}

-- The stream that `ProcessPacket` makes for a new connection: a SYN comes from the client, and else
-- the end on a mail port is the server.
unfoldable pub packet_stream : Text → Packet → ReassembledStream
packet_stream key pkt =
    if pkt.is_syn
    then fresh_stream key pkt.src_ip pkt.src_port pkt.dst_ip pkt.dst_port pkt.timestamp
    else if is_server_port pkt.src_port && not (is_server_port pkt.dst_port)
    then fresh_stream key pkt.dst_ip pkt.dst_port pkt.src_ip pkt.src_port pkt.timestamp
    else fresh_stream key pkt.src_ip pkt.src_port pkt.dst_ip pkt.dst_port pkt.timestamp

-- `streams[key]`, or the stream made for a key that is not there.
unfoldable pub stream_or : ReassembledStream → Option ReassembledStream → ReassembledStream
stream_or made (some stream) = stream
stream_or made none = made

-- The times and the count of a packet.
unfoldable pub count_packet : ℕ → ReassembledStream → ReassembledStream
count_packet time s = record s {
  start_time = if s.start_time == 0 || ltb time s.start_time then time else s.start_time;
  end_time = if ltb s.end_time time then time else s.end_time;
  packet_count = s.packet_count + 1;
}

-- `ProcessPacket`, up to the call of the assembler.
unfoldable pub process_packet : Packet → Streams → Streams
process_packet pkt streams =
    let key = make_connection_key pkt.src_ip pkt.src_port pkt.dst_ip pkt.dst_port in
    let stream = stream_or (packet_stream key pkt) (lookup key streams) in
    insert key (count_packet pkt.timestamp stream) streams

-- A `bidiStream`: its key and its side.
pub record BidiStream : Type 0 where
  pub key : Text
  pub is_client : Bool

-- The stream that `New` makes for a new connection.
unfoldable pub flow_stream : Text → Text → ℕ → Text → ℕ → ReassembledStream
flow_stream key src_ip src_port dst_ip dst_port =
    if is_server_port src_port && not (is_server_port dst_port)
    then fresh_stream key dst_ip dst_port src_ip src_port 0
    else fresh_stream key src_ip src_port dst_ip dst_port 0

-- `streamFactory.New`
unfoldable pub new_stream : Text → ℕ → Text → ℕ → Streams → BidiStream × Streams
new_stream src_ip src_port dst_ip dst_port streams =
    let key = make_connection_key src_ip src_port dst_ip dst_port in
    let found = lookup key streams in
    let stream = stream_or (flow_stream key src_ip src_port dst_ip dst_port) found in
    let is_client = text_eq src_ip stream.client_ip && src_port == stream.client_port in
    let streams' : Streams = elim found [ some _ ↦ streams | none ↦ insert key stream streams ] in
    (record { key = key; is_client = is_client }, streams')

-- A `tcpassembly.Reassembly`: how many bytes were skipped before it, its bytes and its time.
pub record Reassembly : Type 0 where
  pub skip_positive : Bool
  pub payload : Bytes
  pub seen : ℕ

mark_gap : Bool → ReassembledStream → ReassembledStream
mark_gap gap s = if gap then record s { reassembly_gap = true } else s

count_bytes : Bool → Bytes → ReassembledStream → ReassembledStream
count_bytes true b s = record s {
  client_bytes = s.client_bytes + length b;
  client_payload = s.client_payload ++ b;
}
count_bytes false b s = record s {
  server_bytes = s.server_bytes + length b;
  server_payload = s.server_payload ++ b;
}

-- One round of the loop of `Reassembled`.
unfoldable pub add_reassembly : Bool → Reassembly → ReassembledStream → ReassembledStream
unfolding mark_gap count_bytes
add_reassembly is_client r s =
    let s' = mark_gap r.skip_positive s in
    if ltb 0 (length r.payload)
    then (let t = count_bytes is_client r.payload s' in
        record t {
          full_payload = t.full_payload ++ r.payload;
          chunks =
              t.chunks
              ++ record { timestamp = r.seen; is_client = is_client; payload = r.payload } ∷ [];
        })
    else s'

unfoldable pub add_reassemblies : Bool → List Reassembly → ReassembledStream → ReassembledStream
add_reassemblies is_client [] s = s
add_reassemblies is_client (r ∷ rs) s = add_reassemblies is_client rs (add_reassembly is_client r s)

-- Whether a round of the loop of `Reassembled` reads its stream.
unfoldable pub touches : Reassembly → Bool
touches r = r.skip_positive || ltb 0 (length r.payload)

-- `Reassembled`, on `streams[s.key]`: where there is none the pointer is nil, and using it faults.
unfoldable pub reassembled : BidiStream → List Reassembly → Streams → Go Streams
reassembled b rs streams = elim (lookup b.key streams) [
  | some s ↦ returns (insert b.key (add_reassemblies b.is_client rs s) streams)
  | none ↦ if any touches rs then panics else returns streams
]

-- `ReassemblyComplete`
unfoldable pub reassembly_complete : BidiStream → Streams → Go Streams
reassembly_complete b streams = elim (lookup b.key streams) [
  | some s ↦ returns (insert b.key (record s { stream_complete = true }) streams)
  | none ↦ panics
]
