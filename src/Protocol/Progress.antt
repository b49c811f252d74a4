-- ===== src/Protocol/Progress.antt =====
-- What the STARTTLS fields that `Analyze` of backend/internal/protocol/timeline.go returns have to do with
-- one another.
use secure_mail_scope_sih.Common.{
  ℕ, zero, suc, ◌≡◌, refl, ◌≢◌, ◌↔◌, inl, inr, Bool, true, false, Option, none, some, List, [], ◌∷◌,
  ◌++◌, arith, if◌then◌else◌, Bool-cases, Option-cases, length, Text, is_empty, to_upper,
  trim_space, cut_at, Bytes,
}
use secure_mail_scope_sih.Models.{
  ProtocolEvent, EmailProtocol, StartTlsInfo, command_sent, accepted, failed_state, encrypted,
  plaintext, tls_handshake, start_tls_not_used,
}
use secure_mail_scope_sih.Session.Reassembler.{PayloadChunk}
use secure_mail_scope_sih.Protocol.Lines.{
  Timeline, request_tls, recorded_start_tls, accepts_tls, client_command, process_client_line,
  correlate, answer, unsolicited, answer_or_not, server_response, awaited, last_event,
  process_server_line,
}
use secure_mail_scope_sih.Protocol.Timeline.{
  Analysis, stamp, lines_loop, note_encryption, client_chunk, server_chunk, analyze_chunk,
  analyze_chunks, initial, conclude, analyze,
}

-- The states and flags that a stream can lead to. "Command sent" and "failed" say nothing of the acceptance:
-- they belong to the last request, the flags also to those before it.
pub record IsPossible (i : StartTlsInfo) : Type 0 where
  pub accepted_requested : i.accepted_flag ≡ true → i.requested ≡ true
  pub started_accepted : i.tls_started ≡ i.accepted_flag
  pub established_accepted : i.tls_established ≡ true → i.accepted_flag ≡ true
  pub plaintext_unrequested : i.state ≡ plaintext → i.requested ≡ false
  pub sent_requested : i.state ≡ command_sent → i.requested ≡ true
  pub failed_requested : i.state ≡ failed_state → i.requested ≡ true
  pub accepted_state : i.state ≡ accepted → i.accepted_flag ≡ true
  pub encrypted_state : i.state ≡ encrypted → i.tls_established ≡ true
  pub no_handshake_state : i.state ≢ tls_handshake

-- While the stream is read, the state is not yet "not used".
record IsRunning (i : StartTlsInfo) : Type 0 where
  possible : IsPossible i
  in_use : i.state ≢ start_tls_not_used

client_command-IsRunning :
    (proto : EmailProtocol) (start : ℕ) (line : Text) (t : Timeline)
    → IsRunning t.start_tls
    → IsRunning (client_command proto start line t).start_tls
unfolding client_command
client_command-IsRunning proto start line t h = ground arith

client_line-IsRunning :
    (proto : EmailProtocol) (start : ℕ) (line : Text) (t : Timeline)
    → IsRunning t.start_tls
    → IsRunning (process_client_line proto start line t).start_tls
unfolding process_client_line
client_line-IsRunning proto start line t h = elim (Bool-cases (is_empty (trim_space line))) [
  | inl e ↦ rw e h
  | inr e ↦ rw e (client_command-IsRunning proto start (trim_space line) t h)
]

correlate-IsRunning :
    (proto : EmailProtocol) (command upper : Text) (i : StartTlsInfo)
    → IsRunning i
    → IsRunning (correlate proto command upper i)
unfolding correlate
correlate-IsRunning proto command upper i h = ground arith

-- A request that is refused behind one that was accepted: the state is "failed", and TLS stays accepted.
refused_again :
    (proto : EmailProtocol) (command upper : Text) (i : StartTlsInfo)
    → i.accepted_flag ≡ true
    → recorded_start_tls proto (to_upper command) ≡ true
    → accepts_tls proto upper ≡ false
    → ((correlate proto command upper (request_tls i)).state ≡ failed_state)
      × ((correlate proto command upper (request_tls i)).accepted_flag ≡ true)
unfolding correlate
refused_again proto command upper i h r a = (rw (r, a) refl, rw (r, a) h)

answer_or_not-IsRunning :
    (proto : EmailProtocol) (start : ℕ) (line : Text) (last : Option ProtocolEvent) (t : Timeline)
    → IsRunning t.start_tls
    → IsRunning (answer_or_not proto start line last t).start_tls
unfolding answer_or_not answer unsolicited
answer_or_not-IsRunning proto start line none t h = ground arith
answer_or_not-IsRunning proto start line (some e) t h =
    correlate-IsRunning proto e.command (to_upper line) t.start_tls h

server_response-IsRunning :
    (proto : EmailProtocol) (start : ℕ) (line : Text) (t : Timeline)
    → IsRunning t.start_tls
    → IsRunning (server_response proto start line t).start_tls
unfolding server_response
server_response-IsRunning proto start line t h = ground (
  arith,
  answer_or_not-IsRunning proto start line (awaited t.last_client_cmd (last_event t.events)) t h,
)

server_line-IsRunning :
    (proto : EmailProtocol) (start : ℕ) (line : Text) (t : Timeline)
    → IsRunning t.start_tls
    → IsRunning (process_server_line proto start line t).start_tls
unfolding process_server_line
server_line-IsRunning proto start line t h = elim (Bool-cases (is_empty (trim_space line))) [
  | inl e ↦ rw e h
  | inr e ↦ rw e (server_response-IsRunning proto start (trim_space line) t h)
]

stamp-start_tls : (time : ℕ) (t t' : Timeline) → (stamp time t t').start_tls ≡ t'.start_tls
unfolding stamp
stamp-start_tls time t t' = ground arith

lines_loop-IsRunning :
    (process : Text → Timeline → Timeline) (time : ℕ)
    → ((line : Text) (t : Timeline) → IsRunning t.start_tls → IsRunning (process line t).start_tls)
    → (f : ℕ) (buf : Bytes) (t : Timeline) → IsRunning t.start_tls
    → IsRunning (lines_loop process time f buf t).1.start_tls
unfolding lines_loop
lines_loop-IsRunning process time keep zero buf t h = h
lines_loop-IsRunning process time keep (suc f) buf t h = elim (Option-cases (cut_at b'\n' buf).1) [
  | inl last ↦ rw (last, lines_loop) h
  | inr (buf', more) ↦
      let t' = stamp time t (process (cut_at b'\n' buf).0 t) in
      let h' : IsRunning t'.start_tls = rw stamp-start_tls (keep (cut_at b'\n' buf).0 t h) in
      elim (Bool-cases t'.start_tls.accepted_flag) [
        | inl over ↦ rw (more, over, lines_loop) h'
        | inr on ↦ rw (more, on, lines_loop) (lines_loop-IsRunning process time keep f buf' t' h')
      ]
]

note_encryption-IsRunning :
    (chunk : PayloadChunk) (i : StartTlsInfo) → IsRunning i → IsRunning (note_encryption chunk i)
unfolding note_encryption
note_encryption-IsRunning chunk i h = ground arith

client_chunk-IsRunning :
    (proto : EmailProtocol) (start : ℕ) (chunk : PayloadChunk) (a : Analysis)
    → IsRunning a.timeline.start_tls
    → IsRunning (client_chunk proto start chunk a).timeline.start_tls
unfolding client_chunk
client_chunk-IsRunning proto start chunk a h =
    lines_loop-IsRunning (process_client_line proto start) chunk.timestamp
      (client_line-IsRunning proto start) (suc (length (a.client_buf ++ chunk.payload)))
      (a.client_buf ++ chunk.payload) a.timeline h

server_chunk-IsRunning :
    (proto : EmailProtocol) (start : ℕ) (chunk : PayloadChunk) (a : Analysis)
    → IsRunning a.timeline.start_tls
    → IsRunning (server_chunk proto start chunk a).timeline.start_tls
unfolding server_chunk
server_chunk-IsRunning proto start chunk a h =
    lines_loop-IsRunning (process_server_line proto start) chunk.timestamp
      (server_line-IsRunning proto start) (suc (length (a.server_buf ++ chunk.payload)))
      (a.server_buf ++ chunk.payload) a.timeline h

either_branch {ℓ} :
    {A : Type ℓ} (P : A → Type 0) (b : Bool) (x y : A) → P x → P y → P (if b then x else y)
either_branch P true x y h k = h
either_branch P false x y h k = k

analyze_chunk-IsRunning :
    (proto : EmailProtocol) (start : ℕ) (chunk : PayloadChunk) (a : Analysis)
    → IsRunning a.timeline.start_tls
    → IsRunning (analyze_chunk proto start chunk a).timeline.start_tls
unfolding analyze_chunk
analyze_chunk-IsRunning proto start chunk a h = note_encryption-IsRunning chunk _ (
    either_branch (λ (x : Analysis). IsRunning x.timeline.start_tls) chunk.is_client _ _
      (client_chunk-IsRunning proto start chunk a h) (server_chunk-IsRunning proto start chunk a h))

analyze_chunks-IsRunning :
    (proto : EmailProtocol) (start : ℕ) (chunks : List PayloadChunk) (a : Analysis)
    → IsRunning a.timeline.start_tls
    → IsRunning (analyze_chunks proto start chunks a).timeline.start_tls
unfolding analyze_chunks
analyze_chunks-IsRunning proto start [] a h = h
analyze_chunks-IsRunning proto start (c ∷ cs) a h =
    analyze_chunks-IsRunning proto start cs (analyze_chunk proto start c a)
      (analyze_chunk-IsRunning proto start c a h)

-- The end of the analysis: "not used" is the state of a stream without STARTTLS only.
conclude-IsPossible :
    (i : StartTlsInfo)
    → IsRunning i
    → IsPossible (conclude i)
      × (((conclude i).state ≡ start_tls_not_used)
          ↔ (((conclude i).supported ≡ false) × ((conclude i).requested ≡ false)))
unfolding conclude
conclude-IsPossible i h = (ground arith, (ground arith, ground arith))

-- The STARTTLS fields at the end of any stream: TLS is started exactly if some request was accepted,
-- accepted only if requested, established only if accepted; the state "plaintext" is that of a stream
-- without a request, "command sent" and "failed" come with a request, "accepted" with the acceptance and
-- "encrypted" with TLS established; "TLS handshake" is never the state, and "not used" is exactly if
-- STARTTLS was neither advertised nor requested. After a second request, "command sent" and "failed" may
-- stand beside the acceptance of the first.
pub analyze-IsPossible :
    (proto : EmailProtocol) (start : ℕ) (chunks : List PayloadChunk)
    → IsPossible (analyze proto start chunks).1
      × (((analyze proto start chunks).1.state ≡ start_tls_not_used) ↔ (
          ((analyze proto start chunks).1.supported ≡ false)
          × ((analyze proto start chunks).1.requested ≡ false)))
unfolding analyze
analyze-IsPossible proto start chunks =
    conclude-IsPossible _ (analyze_chunks-IsRunning proto start chunks initial (ground arith))
