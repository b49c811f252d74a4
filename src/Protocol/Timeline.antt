-- ===== src/Protocol/Timeline.antt =====
-- The loop of `Analyze` of backend/internal/protocol/timeline.go over the chunks of a stream. The
-- inner loop over lines runs on fuel: each round takes one byte of the buffer at least.
use secure_mail_scope_sih.Common.{
  ℕ, zero, suc, Bool, true, false, not, ◌&&◌, ◌||◌, none, some, List, [], ◌∷◌, ◌++◌, ltb, leb, ◌==◌,
  if◌then◌else◌, length, Text, cut_at, Bytes, byte_at,
}
use secure_mail_scope_sih.Models.{
  EmailProtocol, StartTlsInfo, plaintext, encrypted, start_tls_not_used, ProtocolEvent,
}
use secure_mail_scope_sih.Session.Reassembler.{PayloadChunk}
use secure_mail_scope_sih.Protocol.Lines.{
  Timeline, update_last, process_client_line, process_server_line,
}

-- `bytesContainTLSClientHello`
unfoldable pub bytes_contain_tls_client_hello : Bytes → Bool
bytes_contain_tls_client_hello [] = false
bytes_contain_tls_client_hello (x ∷ payload) =
    (ltb 5 (length (x ∷ payload))
      && x == 0x16
      && byte_at payload 0 == 0x03
      && leb (byte_at payload 1) 0x04
      && byte_at payload 4 == 0x01)
    || bytes_contain_tls_client_hello payload

-- The state of `Analyze`: the closures' variables, and the two buffers.
pub record Analysis : Type 0 where
  pub timeline : Timeline
  pub client_buf : Bytes
  pub server_buf : Bytes

-- `if len(events) > events_len { events[len(events)-1].Timestamp = chunk.Timestamp }`
unfoldable pub stamp : ℕ → Timeline → Timeline → Timeline
stamp time before after =
    if ltb (length before.events) (length after.events)
    then record after { events = update_last (λ e. record e { timestamp = time }) after.events }
    else after

-- The `for` loop over the lines of a buffer: it ends with no newline left, or when TLS was accepted.
unfoldable pub lines_loop :
    (Text → Timeline → Timeline) → ℕ → ℕ → Bytes → Timeline → Bytes × Timeline
lines_loop process time zero buf t = (buf, t)
lines_loop process time (suc f) buf t =
    let (line, rest) = cut_at b'\n' buf in
    elim rest [
      | none ↦ (buf, t)
      | some buf' ↦
          let t' = stamp time t (process line t) in
          elim t'.start_tls.accepted_flag [
            | true ↦ (buf', t')
            | false ↦ lines_loop process time f buf' t'
          ]
    ]

unfoldable pub client_chunk : EmailProtocol → ℕ → PayloadChunk → Analysis → Analysis
client_chunk proto start chunk a =
    let buf = a.client_buf ++ chunk.payload in
    let (buf', t) =
      lines_loop (process_client_line proto start) chunk.timestamp (suc (length buf)) buf
        a.timeline in
    record a { timeline = t; client_buf = buf' }

unfoldable pub server_chunk : EmailProtocol → ℕ → PayloadChunk → Analysis → Analysis
server_chunk proto start chunk a =
    let buf = a.server_buf ++ chunk.payload in
    let (buf', t) =
      lines_loop (process_server_line proto start) chunk.timestamp (suc (length buf)) buf
        a.timeline in
    record a { timeline = t; server_buf = buf' }

-- What follows the lines of a chunk: a ClientHello behind an accepted STARTTLS.
unfoldable pub note_encryption : PayloadChunk → StartTlsInfo → StartTlsInfo
note_encryption chunk i =
    if i.accepted_flag && bytes_contain_tls_client_hello chunk.payload
    then record i { state = encrypted; tls_established = true }
    else i

abbrev encrypt : PayloadChunk → Timeline → Timeline
encrypt chunk t = record t { start_tls = note_encryption chunk t.start_tls }

-- One round of the loop over `stream.Chunks`.
unfoldable pub analyze_chunk : EmailProtocol → ℕ → PayloadChunk → Analysis → Analysis
unfolding client_chunk server_chunk
analyze_chunk proto start chunk a =
    let a' =
      if chunk.is_client
      then client_chunk proto start chunk a
      else server_chunk proto start chunk a in
    record a' { timeline = encrypt chunk a'.timeline }

unfoldable pub analyze_chunks : EmailProtocol → ℕ → List PayloadChunk → Analysis → Analysis
analyze_chunks proto start [] a = a
analyze_chunks proto start (c ∷ cs) a =
    analyze_chunks proto start cs (analyze_chunk proto start c a)

abbrev pub initial : Analysis
initial = record {
  timeline = record {
    events = [];
    start_tls = record {
      state = plaintext;
      supported = false;
      requested = false;
      accepted_flag = false;
      tls_started = false;
      tls_established = false;
      response_code = [];
    };
    last_client_cmd = [];
  };
  client_buf = [];
  server_buf = [];
}

-- The end of `Analyze`.
unfoldable pub conclude : StartTlsInfo → StartTlsInfo
conclude i =
    if not i.supported && not i.requested then record i { state = start_tls_not_used } else i

-- `Analyze`, of the chunks of a stream that started at the instant `start`.
unfoldable pub analyze : EmailProtocol → ℕ → List PayloadChunk → List ProtocolEvent × StartTlsInfo
unfolding conclude
analyze proto start chunks =
    let a = analyze_chunks proto start chunks initial in
    (a.timeline.events, conclude a.timeline.start_tls)
