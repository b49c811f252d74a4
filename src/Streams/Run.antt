-- ===== src/Streams/Run.antt =====
-- `emailStream` of parser/internal/reassembly/stream.go, over the bytes that its reader yields up to
-- the end of the stream, and `EmailSession` of parser/internal/models/session.go.
use secure_mail_scope_sih.Common.{
  ℕ, zero, suc, ◌+◌, ◌*◌, Bool, true, false, not, ◌&&◌, ◌||◌, Option, none, some, List, [], ◌∷◌,
  ◌++◌, ltb, if◌then◌else◌, length, take, drop, Text, codes, is_empty, has_prefix, contains,
  to_upper, trim_space, cut_at, decimal, Bytes, Go, returns, unfinished, ◌>>=◌, byte_at,
}
use secure_mail_scope_sih.Handshake.Types.{TlsHandshake, CertInfo, Parser, new_parser}
use secure_mail_scope_sih.Handshake.Records.{process_record, get_result}
use secure_mail_scope_sih.Streams.Ports.{is_direct_tls_port}

pub record EmailSession : Type 0 where
  pub session_id : Text
  pub src_ip : Text
  pub src_port : ℕ
  pub dst_ip : Text
  pub dst_port : ℕ
  pub protocol : Text
  pub protocol_port : ℕ
  pub start_time : ℕ
  pub end_time : ℕ
  pub has_start_tls : Bool
  pub is_encrypted : Bool
  pub tls_handshake : Option TlsHandshake
  pub certificates : List CertInfo
  pub raw_banner : Text

-- `emailStream`, without the reader and the shared collector
pub record EmailStream : Type 0 where
  pub src_ip : Text
  pub dst_ip : Text
  pub src_port : ℕ
  pub dst_port : ℕ
  pub protocol : Text
  pub email_port : ℕ
  pub is_server : Bool

-- `refineProtocol`
unfoldable pub refine_protocol : Text → EmailSession → EmailSession
refine_protocol banner session =
    let upper = to_upper banner in
    if contains upper (codes "SMTP") || has_prefix banner (codes "220")
    then (if is_empty session.protocol then record session { protocol = codes "SMTP" } else session)
    else if contains upper (codes "IMAP") || has_prefix banner (codes "* OK")
    then record session { protocol = codes "IMAP" }
    else if contains upper (codes "POP3") || has_prefix banner (codes "+OK")
    then record session { protocol = codes "POP3" }
    else session

-- The most records that `parseTLSStream` reads.
abbrev pub max_records : ℕ
max_records = 20

abbrev pub max_record_len : ℕ
max_record_len = 16384

-- The loop of `parseTLSStream`: an error of `ProcessRecord` is logged and the loop goes on.
unfoldable pub records_loop : (Bytes → CertInfo) → ℕ → Bytes → Parser → Go Parser
records_loop info zero buf p = returns p
records_loop info (suc rounds) buf p =
    let content_type = byte_at buf 0 in
    let record_len = 256 * byte_at buf 3 + byte_at buf 4 in
    let stops =
      ltb (length buf) 5
      || ltb content_type 20
      || ltb 23 content_type
      || ltb max_record_len record_len
      || ltb (length buf) (5 + record_len) in
    elim stops [
      | true ↦ returns p
      | false ↦ do
        (p', err) ← process_record info p (take (5 + record_len) buf)
        records_loop info rounds (drop (5 + record_len) buf) p'
    ]

some_certificates : List CertInfo → List CertInfo → List CertInfo
some_certificates old [] = old
some_certificates old (c ∷ cs) = c ∷ cs

-- What `parseTLSStream` stores of the results.
unfoldable pub store_result : TlsHandshake × List CertInfo → EmailSession → EmailSession
unfolding some_certificates
store_result (handshake, certs) session =
    let seen =
      not (is_empty handshake.negotiated_cipher)
      || not (is_empty handshake.client_hello_version)
      || not (is_empty handshake.server_hello_version) in
    record session {
      tls_handshake = if seen then some handshake else session.tls_handshake;
      certificates = some_certificates session.certificates certs;
    }

-- `parseTLSStream`
unfoldable pub parse_tls_stream : (Bytes → CertInfo) → Bytes → EmailSession → Go EmailSession
parse_tls_stream info buf session = do
  parser ← records_loop info max_records buf new_parser
  returns (store_result (get_result parser) session)

-- "Capture the first banner line"
unfoldable pub note_banner : Text → EmailSession → EmailSession
note_banner line session =
    if is_empty session.raw_banner && not (is_empty line)
    then refine_protocol line (record session { raw_banner = line })
    else session

-- `parsePlaintextStream`; each line takes a byte of the buffer at least, its newline.
unfoldable pub plaintext_loop :
    (Bytes → CertInfo) → Bool → ℕ → Bytes → EmailSession → Go EmailSession
plaintext_loop info is_server zero buf session = unfinished
plaintext_loop info is_server (suc f) buf session =
    let (front, rest) = cut_at b'\n' buf in
    elim rest [
      | none ↦ returns session
      | some buf' ↦
          let line = trim_space front in
          let upper = to_upper line in
          let noted = note_banner line session in
          elim (contains upper (codes "STARTTLS")) [
            | false ↦ plaintext_loop info is_server f buf' noted
            | true ↦
                let started = record noted { has_start_tls = true; is_encrypted = true } in
                elim (is_server && (has_prefix line (codes "220") || contains upper (codes "OK"))) [
                  | true ↦ parse_tls_stream info buf' started
                  | false ↦ plaintext_loop info is_server f buf' started
                ]
          ]
    ]

-- The session that `run` starts from, at the instant `now`.
unfoldable pub new_session : ℕ → EmailStream → EmailSession
new_session now s = record {
  session_id =
      s.src_ip
      ++ (codes ":"
          ++ (decimal s.src_port
              ++ (codes "-" ++ (s.dst_ip ++ (codes ":" ++ decimal s.dst_port)))));
  src_ip = s.src_ip;
  src_port = s.src_port;
  dst_ip = s.dst_ip;
  dst_port = s.dst_port;
  protocol = s.protocol;
  protocol_port = s.email_port;
  start_time = now;
  end_time = 0;
  has_start_tls = false;
  is_encrypted = is_direct_tls_port s.email_port;
  tls_handshake = none;
  certificates = [];
  raw_banner = [];
}

has_handshake : Option TlsHandshake → Bool
has_handshake none = false
has_handshake (some h) = true

-- "Only add sessions that have meaningful data"
unfoldable pub is_worth_keeping : EmailSession → Bool
unfolding has_handshake
is_worth_keeping session =
    has_handshake session.tls_handshake
    || session.has_start_tls
    || not (is_empty session.raw_banner)

-- The sessions of a `SessionCollector`, after `AddSession` where `run` calls it.
collect : List EmailSession → EmailSession → List EmailSession
collect sessions session = if is_worth_keeping session then sessions ++ session ∷ [] else sessions

-- `run`, which starts at the instant `start` and ends at the instant `end`.
unfoldable pub run :
    (Bytes → CertInfo) → ℕ → ℕ → EmailStream → Bytes → List EmailSession → Go (List EmailSession)
unfolding collect
run info start end s buf sessions = do
  session ←
      (if is_direct_tls_port s.email_port
        then parse_tls_stream info buf (new_session start s)
        else plaintext_loop info s.is_server (suc (length buf)) buf (new_session start s))
  returns (collect sessions (record session { end_time = end }))
