-- ===== src/Protocol/Detector.antt =====
-- backend/internal/protocol/detector.go. A score is a number of tenths: the floats 0.5 and k * 0.2 and
-- their sums compare as these do.
use secure_mail_scope_sih.Common.{
  ℕ, ◌+◌, ◌*◌, Bool, not, ◌&&◌, ◌||◌, List, [], ◌∷◌, ◌++◌, ltb, leb, ◌==◌, if◌then◌else◌, length,
  Text, codes, contains, to_upper, Bytes,
}
use secure_mail_scope_sih.Models.{EmailProtocol, smtp, imap, pop3, unknown_protocol}

-- `ProtocolDetection`, with the confidence in tenths
pub record ProtocolDetection : Type 0 where
  pub protocol : EmailProtocol
  pub confidence : ℕ
  pub evidence : List Text

-- `isSMTPPort`
unfoldable pub is_smtp_port : ℕ → Bool
is_smtp_port port =
    port == 25
    || port == 465
    || port == 587
    || port == 2525
    || port == 10025
    || port == 10466
    || port == 10465
    || port == 10587

-- `isIMAPPort`
unfoldable pub is_imap_port : ℕ → Bool
is_imap_port port = port == 143 || port == 993 || port == 10143 || port == 10993

-- `isPOP3Port`
unfoldable pub is_pop3_port : ℕ → Bool
is_pop3_port port = port == 110 || port == 995 || port == 10110 || port == 10995

-- `if test { signals++ }`
abbrev pub signal : Bool → ℕ
signal test = if test then 1 else 0

-- `strings.Contains(s, a) || strings.Contains(s, b)`
either : Text → Text → Text → Bool
either s a b = contains s a || contains s b

-- The SMTP indicators of an upper-case payload.
unfoldable pub smtp_signals : Text → ℕ
unfolding either
smtp_signals s =
    signal (either s (codes "220 ") (codes "220-"))
    + signal (either s (codes "EHLO") (codes "HELO"))
    + signal (either s (codes "MAIL FROM") (codes "RCPT TO"))
    + signal (either s (codes "250 ") (codes "250-"))
    + signal (contains s (codes "STARTTLS") && not (contains s (codes "STLS")))

-- The IMAP indicators.
unfoldable pub imap_signals : Text → ℕ
unfolding either
imap_signals s =
    signal (contains s (codes "* OK"))
    + signal (contains s (codes "CAPABILITY"))
    + signal (contains s (codes "IMAP"))
    + signal (either s (codes "LOGIN") (codes "AUTHENTICATE"))
    + signal (either s (codes "A001") (codes "A002"))

-- The POP3 indicators.
unfoldable pub pop3_signals : Text → ℕ
unfolding either
pop3_signals s =
    signal (contains s (codes "+OK"))
    + signal (contains s (codes "-ERR"))
    + signal (either s (codes "USER ") (codes "PASS "))
    + signal (contains s (codes "STLS"))
    + signal (either s (codes "RETR") (codes "LIST"))

-- The score of a protocol in tenths: half for a port, a fifth for each signal.
abbrev pub score : Bool → ℕ → ℕ
score port signals = (if port then 5 else 0) + 2 * signals

evidence_of : Bool → Text → List Text
evidence_of test line = if test then line ∷ [] else []

-- `if conf > 1.0 { conf = 1.0 }`
abbrev pub capped : ℕ → ℕ
capped conf = if ltb 10 conf then 10 else conf

-- "Select highest confidence protocol"
unfoldable pub select : ℕ → ℕ → ℕ → List Text → ProtocolDetection
select smtp_score imap_score pop3_score evidence =
    if ltb 0 smtp_score && leb imap_score smtp_score && leb pop3_score smtp_score
    then record { protocol = smtp; confidence = capped smtp_score; evidence = evidence }
    else if ltb 0 imap_score && leb pop3_score imap_score
    then record { protocol = imap; confidence = capped imap_score; evidence = evidence }
    else if ltb 0 pop3_score
    then record { protocol = pop3; confidence = capped pop3_score; evidence = evidence }
    else record {
      protocol = unknown_protocol;
      confidence = 0;
      evidence = codes "no matching email protocol signatures" ∷ [];
    }

-- The signals of a payload; an empty one has none.
abbrev pub payload_signals : (Text → ℕ) → Bytes → ℕ
payload_signals signals payload = if ltb 0 (length payload) then signals (to_upper payload) else 0

-- `Detect`
unfoldable pub detect : ℕ → ℕ → Bytes → ProtocolDetection
unfolding evidence_of
detect src_port dst_port payload =
    let smtp_port = is_smtp_port dst_port || is_smtp_port src_port in
    let imap_port = is_imap_port dst_port || is_imap_port src_port in
    let pop3_port = is_pop3_port dst_port || is_pop3_port src_port in
    let smtp_count = payload_signals smtp_signals payload in
    let imap_count = payload_signals imap_signals payload in
    let pop3_count = payload_signals pop3_signals payload in
    let evidence =
      evidence_of smtp_port (codes "SMTP port match")
      ++ (evidence_of imap_port (codes "IMAP port match")
          ++ (evidence_of pop3_port (codes "POP3 port match")
              ++ (evidence_of (ltb 0 smtp_count) (codes "SMTP application signatures detected")
                  ++ (evidence_of (ltb 0 imap_count) (codes "IMAP application signatures detected")
                      ++ evidence_of (ltb 0 pop3_count)
                          (codes "POP3 application signatures detected"))))) in
    select (score smtp_port smtp_count) (score imap_port imap_count) (score pop3_port pop3_count)
      evidence
