-- ===== src/Protocol/Drain.antt =====
-- What `Analyze` of backend/internal/protocol/timeline.go leaves in its two buffers, and that the fuel of
-- its loops over lines is enough.
use secure_mail_scope_sih.Common.{
  ℕ, zero, suc, ◌<◌, ◌≡◌, refl, ◌⊎◌, inl, inr, true, Option, none, some, List, [], ◌∷◌, ◌++◌, arith,
  Bool-cases, Option-cases, length, Text, trim_space, cut_at, Bytes, cut_at-shorter,
}
use secure_mail_scope_sih.Models.{EmailProtocol, ProtocolEvent}
use secure_mail_scope_sih.Session.Reassembler.{PayloadChunk}
use secure_mail_scope_sih.Protocol.Lines.{
  Timeline, client_command, process_client_line, correlate, answer, unsolicited, answer_or_not,
  server_response, awaited, last_event, process_server_line,
}
use secure_mail_scope_sih.Protocol.Timeline.{
  Analysis, stamp, lines_loop, note_encryption, client_chunk, server_chunk, analyze_chunk,
  analyze_chunks, initial,
}

abbrev pub IsAccepted : Timeline → Type 0
IsAccepted t = t.start_tls.accepted_flag ≡ true

-- The buffer holds no complete line, or TLS was accepted.
abbrev pub IsDrained : Bytes → Timeline → Type 0
IsDrained buf t = ((cut_at b'\n' buf).1 ≡ none) ⊎ IsAccepted t

-- A step that does not take back that TLS was accepted.
abbrev Keeps : (Text → Timeline → Timeline) → Type 0
Keeps process = (line : Text) (t : Timeline) → IsAccepted t → IsAccepted (process line t)

client_line-Keeps : (proto : EmailProtocol) (start : ℕ) → Keeps (process_client_line proto start)
unfolding process_client_line client_command
client_line-Keeps proto start line t h = ground arith

answer_or_not-IsAccepted :
    (proto : EmailProtocol) (start : ℕ) (line : Text) (last : Option ProtocolEvent) (t : Timeline)
    → IsAccepted t
    → IsAccepted (answer_or_not proto start line last t)
unfolding answer_or_not answer unsolicited correlate
answer_or_not-IsAccepted proto start line none t h = ground arith
answer_or_not-IsAccepted proto start line (some e) t h = ground arith

server_line-Keeps : (proto : EmailProtocol) (start : ℕ) → Keeps (process_server_line proto start)
unfolding process_server_line server_response
server_line-Keeps proto start line t h =
    let last = awaited t.last_client_cmd (last_event t.events) in
    ground (arith, answer_or_not-IsAccepted proto start (trim_space line) last t h)

stamp-accepted :
    (time : ℕ) (t t' : Timeline)
    → (stamp time t t').start_tls.accepted_flag ≡ t'.start_tls.accepted_flag
unfolding stamp
stamp-accepted time t t' = ground arith

lines_loop-IsDrained :
    (process : Text → Timeline → Timeline) (time f : ℕ) (buf : Bytes) (t : Timeline)
    → length buf < f
    → let r = lines_loop process time f buf t in IsDrained r.0 r.1
unfolding lines_loop
lines_loop-IsDrained process time zero buf t h = absurd (omega arith)
lines_loop-IsDrained process time (suc f) buf t h = elim (Option-cases (cut_at b'\n' buf).1) [
  | inl last ↦ rw (last, lines_loop) (inl last)
  | inr (buf', more) ↦
      let t' = stamp time t (process (cut_at b'\n' buf).0 t) in
      let shorter = cut_at-shorter b'\n' buf buf' more in
      elim (Bool-cases t'.start_tls.accepted_flag) [
        | inl over ↦ rw (more, over, lines_loop) (inr over)
        | inr on ↦
            rw (more, on, lines_loop)
              (lines_loop-IsDrained process time f buf' t' (omega (arith, shorter)))
      ]
]

lines_loop-IsAccepted :
    (process : Text → Timeline → Timeline) (time : ℕ)
    → Keeps process
    → (f : ℕ) (buf : Bytes) (t : Timeline) → IsAccepted t
    → IsAccepted (lines_loop process time f buf t).1
unfolding lines_loop
lines_loop-IsAccepted process time keep zero buf t h = h
lines_loop-IsAccepted process time keep (suc f) buf t h = elim (Option-cases (cut_at b'\n' buf).1) [
  | inl last ↦ rw (last, lines_loop) h
  | inr (buf', more) ↦
      let t' = stamp time t (process (cut_at b'\n' buf).0 t) in
      let h' : IsAccepted t' = rw stamp-accepted (keep (cut_at b'\n' buf).0 t h) in
      rw (more, h', lines_loop) h'
]

pub record IsRead (a : Analysis) : Type 0 where
  pub client_read : IsDrained a.client_buf a.timeline
  pub server_read : IsDrained a.server_buf a.timeline

still :
    (buf : Bytes) (t t' : Timeline)
    → (IsAccepted t → IsAccepted t')
    → IsDrained buf t
    → IsDrained buf t'
still buf t t' keep (inl e) = inl e
still buf t t' keep (inr h) = inr (keep h)

client_chunk-IsRead :
    (proto : EmailProtocol) (start : ℕ) (chunk : PayloadChunk) (a : Analysis)
    → IsRead a
    → IsRead (client_chunk proto start chunk a)
unfolding client_chunk
client_chunk-IsRead proto start chunk a h =
    let buf = a.client_buf ++ chunk.payload in
    let process = process_client_line proto start in
    record {
      client_read =
          lines_loop-IsDrained process chunk.timestamp (suc (length buf)) buf a.timeline
            (omega arith);
      server_read =
          still a.server_buf a.timeline
            (lines_loop process chunk.timestamp (suc (length buf)) buf a.timeline).1
            (lines_loop-IsAccepted process chunk.timestamp (client_line-Keeps proto start)
              (suc (length buf)) buf a.timeline)
            h.server_read;
    }

server_chunk-IsRead :
    (proto : EmailProtocol) (start : ℕ) (chunk : PayloadChunk) (a : Analysis)
    → IsRead a
    → IsRead (server_chunk proto start chunk a)
unfolding server_chunk
server_chunk-IsRead proto start chunk a h =
    let buf = a.server_buf ++ chunk.payload in
    let process = process_server_line proto start in
    record {
      client_read =
          still a.client_buf a.timeline
            (lines_loop process chunk.timestamp (suc (length buf)) buf a.timeline).1
            (lines_loop-IsAccepted process chunk.timestamp (server_line-Keeps proto start)
              (suc (length buf)) buf a.timeline)
            h.client_read;
      server_read =
          lines_loop-IsDrained process chunk.timestamp (suc (length buf)) buf a.timeline
            (omega arith);
    }

note_encryption-accepted :
    (chunk : PayloadChunk) (t : Timeline)
    → (note_encryption chunk t.start_tls).accepted_flag ≡ t.start_tls.accepted_flag
unfolding note_encryption
note_encryption-accepted chunk t = ground arith

analyze_chunk-IsRead :
    (proto : EmailProtocol) (start : ℕ) (chunk : PayloadChunk) (a : Analysis)
    → IsRead a
    → IsRead (analyze_chunk proto start chunk a)
unfolding analyze_chunk cut_at note_encryption
analyze_chunk-IsRead proto start chunk a h = elim (Bool-cases chunk.is_client) [
  | inl e ↦
      let a' = client_chunk proto start chunk a in
      let r = client_chunk-IsRead proto start chunk a h in
      rw e (record {
        client_read = rw (note_encryption-accepted chunk a'.timeline) r.client_read;
        server_read = rw (note_encryption-accepted chunk a'.timeline) r.server_read;
      })
  | inr e ↦
      let a' = server_chunk proto start chunk a in
      let r = server_chunk-IsRead proto start chunk a h in
      rw e (record {
        client_read = rw (note_encryption-accepted chunk a'.timeline) r.client_read;
        server_read = rw (note_encryption-accepted chunk a'.timeline) r.server_read;
      })
]

chunks-IsRead :
    (proto : EmailProtocol) (start : ℕ) (chunks : List PayloadChunk) (a : Analysis)
    → IsRead a
    → IsRead (analyze_chunks proto start chunks a)
unfolding analyze_chunks
chunks-IsRead proto start [] a h = h
chunks-IsRead proto start (c ∷ cs) a h =
    chunks-IsRead proto start cs (analyze_chunk proto start c a)
      (analyze_chunk-IsRead proto start c a h)

-- Once all chunks of a stream are read, neither buffer holds a complete line that was not looked at,
-- unless STARTTLS was accepted.
pub analyze_chunks-IsRead :
    (proto : EmailProtocol) (start : ℕ) (chunks : List PayloadChunk)
    → IsRead (analyze_chunks proto start chunks initial)
unfolding cut_at
analyze_chunks-IsRead proto start chunks =
    chunks-IsRead proto start chunks initial
      (record { client_read = inl refl; server_read = inl refl })
