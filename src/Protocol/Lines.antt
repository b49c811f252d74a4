-- ===== src/Protocol/Lines.antt =====
-- What `Analyze` of backend/internal/protocol/timeline.go does with one line: its closures
-- `processClientLine` and `processServerLine`.
use secure_mail_scope_sih.Common.{
  ℕ, Bool, true, false, ◌&&◌, ◌||◌, Option, none, some, List, [], ◌∷◌, ◌++◌, if◌then◌else◌, any,
  Text, codes, text_eq, is_empty, has_prefix, contains, to_upper, trim_space, cut_at,
}
use secure_mail_scope_sih.Models.{
  EmailProtocol, smtp, imap, pop3, unknown_protocol, StartTlsInfo, StartTlsState, command_sent,
  accepted, failed_state, ProtocolEvent, client_to_server, server_to_client,
}

-- The variables that the closures share: the events, the STARTTLS state and the last command in
-- upper case, empty when it was answered.
pub record Timeline : Type 0 where
  pub events : List ProtocolEvent
  pub start_tls : StartTlsInfo
  pub last_client_cmd : Text

front_word : Text × Option Text → Text
front_word (front, rest) = front

imap_word : Text → Text × Option Text → Text
imap_word upper (front, none) = upper
imap_word upper (front, some rest) = rest

-- `cmdWord`: an IMAP command without its tag, the first word of an SMTP or POP3 command.
unfoldable pub cmd_word : EmailProtocol → Text → Text
unfolding front_word imap_word
cmd_word imap upper = imap_word upper (cut_at 32 upper)
cmd_word pop3 upper = front_word (cut_at 32 upper)
cmd_word smtp upper = front_word (cut_at 32 upper)
cmd_word unknown_protocol upper = upper

-- Whether a command of the client is recorded.
unfoldable pub is_meaningful_command : EmailProtocol → Text → Bool
is_meaningful_command smtp w = any (text_eq w) (
    codes "EHLO"
    ∷ codes "HELO"
    ∷ codes "STARTTLS"
    ∷ codes "AUTH"
    ∷ codes "MAIL"
    ∷ codes "RCPT"
    ∷ codes "DATA"
    ∷ codes "QUIT"
    ∷ [])
is_meaningful_command imap w = any (has_prefix w) (
    codes "CAPABILITY"
    ∷ codes "STARTTLS"
    ∷ codes "LOGIN"
    ∷ codes "AUTHENTICATE"
    ∷ codes "SELECT"
    ∷ codes "FETCH"
    ∷ codes "LOGOUT"
    ∷ [])
is_meaningful_command pop3 w =
    any (text_eq w)
      (codes "STLS" ∷ codes "USER" ∷ codes "PASS" ∷ codes "LIST" ∷ codes "RETR" ∷ codes "QUIT" ∷ [])
is_meaningful_command unknown_protocol w = false

-- Whether a command carries credentials.
unfoldable pub is_redacted : Text → Bool
is_redacted upper =
    has_prefix upper (codes "AUTH")
    || contains upper (codes "LOGIN ")
    || has_prefix upper (codes "PASS ")

-- `cleanCmd`
unfoldable pub clean_command : EmailProtocol → Text → Text
unfolding is_redacted
clean_command proto line =
    let upper = to_upper line in
    if is_redacted upper then cmd_word proto upper ++ codes " <redacted>" else line

-- Whether the client asks for TLS.
unfoldable pub is_start_tls_command : EmailProtocol → Text → Bool
is_start_tls_command smtp w = text_eq w (codes "STARTTLS")
is_start_tls_command imap w = has_prefix w (codes "STARTTLS")
is_start_tls_command pop3 w = text_eq w (codes "STLS")
is_start_tls_command unknown_protocol w = false

-- "STARTTLS tracking"
abbrev pub request_tls : StartTlsInfo → StartTlsInfo
request_tls i = record i { requested = true; state = command_sent }

-- `processClientLine`, of a trimmed line that is not empty; an event has the instant `start`.
unfoldable pub client_command : EmailProtocol → ℕ → Text → Timeline → Timeline
client_command proto start line t =
    let upper = to_upper line in
    let word = cmd_word proto upper in
    let seen =
      if is_meaningful_command proto word
      then record t {
        events =
            t.events
            ++ record {
              timestamp = start;
              direction = client_to_server;
              command = clean_command proto line;
              response = [];
            }
              ∷ [];
        last_client_cmd = upper;
      }
      else t in
    if is_start_tls_command proto word
    then record seen { start_tls = request_tls seen.start_tls }
    else seen

-- `processClientLine`
unfoldable pub process_client_line : EmailProtocol → ℕ → Text → Timeline → Timeline
process_client_line proto start line t =
    let trimmed = trim_space line in
    if is_empty trimmed then t else client_command proto start trimmed t

-- Whether the last command, as it was recorded, asks for TLS.
unfoldable pub recorded_start_tls : EmailProtocol → Text → Bool
recorded_start_tls smtp cmd = has_prefix cmd (codes "STARTTLS")
recorded_start_tls imap cmd = contains cmd (codes "STARTTLS")
recorded_start_tls pop3 cmd = has_prefix cmd (codes "STLS")
recorded_start_tls unknown_protocol cmd = false

-- Whether a response accepts it.
unfoldable pub accepts_tls : EmailProtocol → Text → Bool
accepts_tls smtp upper = has_prefix upper (codes "220")
accepts_tls imap upper = contains upper (codes "OK")
accepts_tls pop3 upper = has_prefix upper (codes "+OK")
accepts_tls unknown_protocol upper = false

is_command_sent : StartTlsState → Bool
is_command_sent command_sent = true
is_command_sent _ = false

-- "STARTTLS exact command correlation"
unfoldable pub correlate : EmailProtocol → Text → Text → StartTlsInfo → StartTlsInfo
unfolding is_command_sent
correlate proto command upper i =
    if is_command_sent i.state && recorded_start_tls proto (to_upper command)
    then (if accepts_tls proto upper
        then record i { accepted_flag = true; state = accepted; tls_started = true }
        else record i { state = failed_state })
    else i

-- Whether a line of the server that answers no command is recorded.
unfoldable pub is_meaningful_response : EmailProtocol → Text → Bool
is_meaningful_response smtp upper = has_prefix upper (codes "220") || has_prefix upper (codes "250")
is_meaningful_response imap upper =
    has_prefix upper (codes "* OK") || has_prefix upper (codes "* CAPABILITY")
is_meaningful_response pop3 upper = has_prefix upper (codes "+OK")
is_meaningful_response unknown_protocol upper = false

-- "STARTTLS support advertized?"
unfoldable pub advertises_tls : EmailProtocol → Text → Bool
advertises_tls smtp upper = contains upper (codes "STARTTLS")
advertises_tls imap upper = contains upper (codes "STARTTLS")
advertises_tls pop3 upper = contains upper (codes "STLS")
advertises_tls unknown_protocol upper = false

-- The last event of a list, and the list with the last event changed.
unfoldable pub last_event : List ProtocolEvent → Option ProtocolEvent
last_event [] = none
last_event (e ∷ []) = some e
last_event (e ∷ e' ∷ es) = last_event (e' ∷ es)

unfoldable pub update_last :
    (ProtocolEvent → ProtocolEvent) → List ProtocolEvent → List ProtocolEvent
update_last f [] = []
update_last f (e ∷ []) = f e ∷ []
update_last f (e ∷ e' ∷ es) = e ∷ update_last f (e' ∷ es)

-- A line of the server that answers the last event.
unfoldable pub answer : EmailProtocol → Text → ProtocolEvent → Timeline → Timeline
answer proto line last t = record t {
  events = update_last (λ e. record e { response = line }) t.events;
  start_tls = correlate proto last.command (to_upper line) t.start_tls;
  last_client_cmd = [];
}

-- A line of the server that answers nothing.
unfoldable pub unsolicited : EmailProtocol → ℕ → Text → Timeline → Timeline
unsolicited proto start line t =
    if is_meaningful_response proto (to_upper line)
    then record t {
      events =
          t.events
          ++ record {
            timestamp = start;
            direction = server_to_client;
            command = [];
            response = line;
          }
            ∷ [];
    }
    else t

-- `lastClientCmd != "" && len(events) > 0`, with the last event
unfoldable pub awaited : Text → Option ProtocolEvent → Option ProtocolEvent
awaited [] last = none
awaited (c ∷ cmd) last = last

unfoldable pub answer_or_not : EmailProtocol → ℕ → Text → Option ProtocolEvent → Timeline → Timeline
answer_or_not proto start line (some last) t = answer proto line last t
answer_or_not proto start line none t = unsolicited proto start line t

-- `processServerLine`, of a trimmed line that is not empty.
unfoldable pub server_response : EmailProtocol → ℕ → Text → Timeline → Timeline
server_response proto start line t =
    let seen = answer_or_not proto start line (awaited t.last_client_cmd (last_event t.events)) t in
    if advertises_tls proto (to_upper line)
    then record seen { start_tls = record (seen.start_tls) { supported = true } }
    else seen

-- `processServerLine`
unfoldable pub process_server_line : EmailProtocol → ℕ → Text → Timeline → Timeline
process_server_line proto start line t =
    let trimmed = trim_space line in
    if is_empty trimmed then t else server_response proto start trimmed t
