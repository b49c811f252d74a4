-- ===== src/Streams/Total.antt =====
-- The readers of parser/internal/reassembly/stream.go end on every stream of bytes, with no panic.
use secure_mail_scope_sih.Common.{
  ℕ, zero, suc, ◌+◌, ◌*◌, ◌≤◌, ◌<◌, inl, inr, Bool, true, List, arith, Bool-cases, Option-cases,
  length, take, drop, trim_space, cut_at, Bytes, byte_at,
}
use secure_mail_scope_sih.Common.{byte_at-take, cut_at-shorter}
use secure_mail_scope_sih.Handshake.Types.{CertInfo, Parser, new_parser}
use secure_mail_scope_sih.Handshake.Records.{process_record}
use secure_mail_scope_sih.Handshake.Loops.{Total, Total-returns, Total-bind}
use secure_mail_scope_sih.Handshake.Total.{process_record-Total}
use secure_mail_scope_sih.Streams.Ports.{is_direct_tls_port}
use native.Mathlib.Decide.{dec_le}
use secure_mail_scope_sih.Streams.Run.{
  EmailSession, EmailStream, max_records, records_loop, parse_tls_stream, note_banner,
  plaintext_loop, new_session, run,
}

module _ (info : Bytes → CertInfo) where
  -- The length field of the record that is read whole is the one that was peeked at.
  record-Total :
      (p : Parser) (buf : Bytes)
      → 256 * byte_at buf 3 + byte_at buf 4 ≤ 16384
      → Total (process_record info p (take (5 + (256 * byte_at buf 3 + byte_at buf 4)) buf))
  record-Total p buf h =
      let len = 256 * byte_at buf 3 + byte_at buf 4 in
      process_record-Total info p (take (5 + len) buf) (
        omega (
          arith,
          byte_at-take (5 + len) 3 buf (omega arith),
          byte_at-take (5 + len) 4 buf (omega arith),
        ))

  records_loop-Total :
      (rounds : ℕ) (buf : Bytes) (p : Parser) → Total (records_loop info rounds buf p)
  unfolding records_loop
  records_loop-Total zero buf p = tt
  records_loop-Total (suc rounds) buf p =
      let len = 256 * byte_at buf 3 + byte_at buf 4 in
      elim (dec_le len 16384) [
        | no long ↦ ground arith
        | yes fits ↦
            let (r, e) = Total-returns _ (record-Total p buf fits) in
            ground (arith, e, records_loop-Total rounds (drop (5 + len) buf) r.0)
      ]

  parse_tls_stream-Total :
      (buf : Bytes) (session : EmailSession) → Total (parse_tls_stream info buf session)
  unfolding parse_tls_stream
  parse_tls_stream-Total buf session =
      Total-bind _ _ (records_loop-Total max_records buf new_parser) (λ p. tt)

  plaintext_loop-Total :
      (is_server : Bool) (f : ℕ) (buf : Bytes) (session : EmailSession)
      → length buf < f
      → Total (plaintext_loop info is_server f buf session)
  unfolding plaintext_loop
  plaintext_loop-Total is_server zero buf session h = elim h [ ]
  plaintext_loop-Total is_server (suc f) buf session h = elim (Option-cases (cut_at b'\n' buf).1) [
    | inl last ↦ ground (arith, last)
    | inr (buf', more) ↦
        let line = trim_space (cut_at b'\n' buf).0 in
        let noted = note_banner line session in
        let started = record noted { has_start_tls = true; is_encrypted = true } in
        let shorter = cut_at-shorter b'\n' buf buf' more in
        ground (
          arith,
          more,
          parse_tls_stream-Total buf' started,
          plaintext_loop-Total is_server f buf' noted (omega (arith, shorter)),
          plaintext_loop-Total is_server f buf' started (omega (arith, shorter)),
        )
  ]

  -- Whatever bytes a mail connection carries, on whatever port and from whichever side, reading it
  -- returns the collector's sessions: no index is out of range, and both loops end.
  pub run-Total :
      (start end : ℕ) (s : EmailStream) (buf : Bytes) (sessions : List EmailSession)
      → Total (run info start end s buf sessions)
  unfolding run
  run-Total start end s buf sessions =
      let session = new_session start s in
      elim (Bool-cases (is_direct_tls_port s.email_port)) [
        | inl direct ↦ rw direct (Total-bind _ _ (parse_tls_stream-Total buf session) (λ r. tt))
        | inr plain ↦ rw plain (
            Total-bind _ _
              (plaintext_loop-Total s.is_server (suc (length buf)) buf session (omega arith))
              (λ r. tt))
      ]
