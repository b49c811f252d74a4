-- ===== src/Tests/Streams.antt =====
-- The handshake parser, the streams and the timelines on small inputs.
use secure_mail_scope_sih.Common.{
  ◌≡◌, refl, ◌∙◌, ◌↔◌, true, false, some, List, [], ◌∷◌, arith, Text, codes, text_eq_iff,
  has_prefix, to_upper, Bytes, returns, panics, byte_at,
}
use secure_mail_scope_sih.Common.{text_key, has_byte, lookup, insert, lookup-insert}
use secure_mail_scope_sih.Models.{client_to_server, smtp, imap, pop3, start_tls_not_used}
use secure_mail_scope_sih.Handshake.Types.{CertInfo, new_parser}
use secure_mail_scope_sih.Handshake.Names.{
  cipher_suite_name, has_forward_secrecy, key_exchange_type,
}
use secure_mail_scope_sih.Handshake.Records.{process_record}
use secure_mail_scope_sih.Handshake.Secrecy.{is_ephemeral, has_forward_secrecy-cipher_suite_name}
use secure_mail_scope_sih.Handshake.Loops.{Total}
use secure_mail_scope_sih.Handshake.Total.{process_record-Total, process_record_panics}
use secure_mail_scope_sih.Streams.Run.{EmailStream, run}
use secure_mail_scope_sih.Streams.Total.{run-Total}
use secure_mail_scope_sih.Session.Keys.{make_connection_key, make_connection_key_comm}
use secure_mail_scope_sih.Session.Reassembler.{
  stream_or, ReassembledStream, count_packet, packet_stream, PayloadChunk, Streams, Packet,
  process_packet, new_stream, Reassembly, reassembled, reassembly_complete,
}
use secure_mail_scope_sih.Session.Callbacks.{here, next, packet, Reach-IsCounted}
use secure_mail_scope_sih.Session.Liveness.{callbacks-Total}
use secure_mail_scope_sih.Session.Payloads.{IsCounted}
use secure_mail_scope_sih.Protocol.Detector.{detect}
use secure_mail_scope_sih.Protocol.Selection.{IsBest, stream_score, detect-IsBest}
use secure_mail_scope_sih.Protocol.Timeline.{analyze, initial}
use secure_mail_scope_sih.Protocol.Lines.{client_command, clean_command}
use secure_mail_scope_sih.Protocol.Timeline.{analyze_chunks}
use secure_mail_scope_sih.Protocol.Drain.{IsRead, analyze_chunks-IsRead}
use secure_mail_scope_sih.Protocol.Progress.{IsPossible, analyze-IsPossible}
use secure_mail_scope_sih.Protocol.Redaction.{
  pop3_pass, client_command_redacts, clean_command_leaks,
}

-- A certificate that no field of says anything.
abbrev empty_certificate : CertInfo
empty_certificate = record {
  subject = [];
  issuer = [];
  serial_number = [];
  not_before = 0;
  not_after = 0;
  public_key_algorithm = [];
  public_key_bit_length = 0;
  signature_algorithm = [];
  is_self_signed = false;
  is_expired = false;
  is_weak_key = false;
  is_weak_signature = false;
  dns_names = [];
  version = 0;
}

abbrev read_nothing : Bytes → CertInfo
read_nothing der = empty_certificate

-- A ServerHello of TLS 1.2 that picks 0xC02F, with no extensions.
abbrev server_hello_body : Bytes
server_hello_body =
    3
    ∷ 3
    ∷ (0 ∷ 0 ∷ 0 ∷ 0 ∷ 0 ∷ 0 ∷ 0 ∷ 0 ∷ 0 ∷ 0 ∷ 0 ∷ 0 ∷ 0 ∷ 0 ∷ 0 ∷ 0 ∷ 0 ∷ 0 ∷ 0 ∷ 0 ∷ 0 ∷ 0 ∷ 0 ∷ 0
        ∷ 0 ∷ 0 ∷ 0 ∷ 0 ∷ 0 ∷ 0 ∷ 0 ∷ 0 ∷ 0 ∷ 0xC0 ∷ 0x2F ∷ 0 ∷ [])

abbrev server_hello_message : Bytes
server_hello_message = 2 ∷ 0 ∷ 0 ∷ 38 ∷ server_hello_body

abbrev server_hello_record : Bytes
server_hello_record = 22 ∷ 3 ∷ 3 ∷ 0 ∷ 42 ∷ server_hello_message

abbrev longest_record : Bytes
longest_record = 22 ∷ 3 ∷ 3 ∷ 255 ∷ 255 ∷ []

process_record-Total_example : Total (process_record read_nothing new_parser server_hello_record)
unfolding byte_at
process_record-Total_example =
    process_record-Total read_nothing new_parser server_hello_record (omega arith)

process_record_panics_example : process_record read_nothing new_parser longest_record ≡ panics
unfolding byte_at
process_record_panics_example =
    process_record_panics read_nothing new_parser longest_record (omega arith) (omega arith)
      (omega arith)

has_forward_secrecy-cipher_suite_name_example :
    has_forward_secrecy (cipher_suite_name 0xC02F)
    ≡ is_ephemeral (key_exchange_type (cipher_suite_name 0xC02F))
has_forward_secrecy-cipher_suite_name_example = has_forward_secrecy-cipher_suite_name 0xC02F

abbrev client : Text
client = codes "10.0.0.1"

abbrev server : Text
server = codes "10.0.0.2"

abbrev direct_stream : EmailStream
direct_stream = record {
  src_ip = server;
  dst_ip = client;
  src_port = 465;
  dst_port = 50000;
  protocol = codes "SMTPS";
  email_port = 465;
  is_server = true;
}

run-Total_example : Total (run read_nothing 1 2 direct_stream server_hello_record [])
run-Total_example = run-Total read_nothing 1 2 direct_stream server_hello_record []

make_connection_key_comm_example :
    make_connection_key client 50000 server 25 ≡ make_connection_key server 25 client 50000
make_connection_key_comm_example = make_connection_key_comm client server 50000 25

abbrev first_packet : Packet
first_packet = record {
  timestamp = 1;
  src_ip = client;
  src_port = 50000;
  dst_ip = server;
  dst_port = 25;
  is_syn = true;
}

abbrev greeting : Reassembly
greeting = record { skip_positive = false; payload = codes "220 mail"; seen = 2 }

callbacks-Total_example :
    ((n' : Streams) × (reassembled
          (new_stream server 25 client 50000 []).0
          (greeting ∷ [])
          (process_packet first_packet (new_stream server 25 client 50000 []).1)
        ≡ returns n'))
    × ((n' : Streams) × (reassembly_complete
            (new_stream server 25 client 50000 []).0
            (process_packet first_packet (new_stream server 25 client 50000 []).1)
          ≡ returns n'))
callbacks-Total_example =
    callbacks-Total server 25 client 50000 (greeting ∷ []) [] (next here (packet first_packet _))

abbrev flow_key : Text
flow_key = make_connection_key client 50000 server 25

abbrev pub first_stream : ReassembledStream
first_stream = count_packet 1 (packet_stream flow_key first_packet)

first_stream-found : lookup flow_key (process_packet first_packet []) ≡ some first_stream
unfolding process_packet stream_or insert lookup
first_stream-found =
    lookup-insert flow_key flow_key first_stream [] ∙ rw ((text_eq_iff flow_key flow_key).1 refl)

Reach-IsCounted_example : (first_stream.key ≡ flow_key) × IsCounted first_stream
Reach-IsCounted_example =
    Reach-IsCounted flow_key {m = process_packet first_packet []} {s = first_stream}
      (next here (packet first_packet [])) first_stream-found

detect-IsBest_example :
    IsBest (stream_score 50000 25 (codes "EHLO mail")) (detect 50000 25 (codes "EHLO mail"))
detect-IsBest_example = detect-IsBest 50000 25 (codes "EHLO mail")

abbrev smtp_chunks : List PayloadChunk
smtp_chunks =
    record { timestamp = 5; is_client = true; payload = codes "STARTTLS\r\n" }
    ∷ record { timestamp = 6; is_client = false; payload = codes "220 ready\r\n" }
    ∷ []

analyze-IsPossible_example :
    IsPossible (analyze smtp 5 smtp_chunks).1
    × (((analyze smtp 5 smtp_chunks).1.state ≡ start_tls_not_used) ↔ (
        ((analyze smtp 5 smtp_chunks).1.supported ≡ false)
        × ((analyze smtp 5 smtp_chunks).1.requested ≡ false)))
analyze-IsPossible_example = analyze-IsPossible smtp 5 smtp_chunks

analyze_chunks-IsRead_example : IsRead (analyze_chunks smtp 5 smtp_chunks initial)
analyze_chunks-IsRead_example = analyze_chunks-IsRead smtp 5 smtp_chunks

abbrev pass_line : Text
pass_line = codes "pass secret"

client_command_redacts_example :
    (client_command pop3 7 pass_line initial.timeline).events
    ≡ record {
      timestamp = 7;
      direction = client_to_server;
      command = codes "PASS <redacted>";
      response = [];
    }
      ∷ []
unfolding has_prefix codes to_upper
client_command_redacts_example =
    client_command_redacts pop3 (codes "PASS") 7 pass_line initial.timeline pop3_pass refl

clean_command_leaks_example :
    clean_command imap (codes "a1 login bob hunter2") ≡ codes "LOGIN BOB HUNTER2 <redacted>"
unfolding has_byte codes to_upper
clean_command_leaks_example =
    clean_command_leaks (codes "A1") (codes "BOB HUNTER2") (codes "a1 login bob hunter2") refl refl
