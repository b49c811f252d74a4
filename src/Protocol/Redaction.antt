-- ===== src/Protocol/Redaction.antt =====
-- What backend/internal/protocol/timeline.go keeps of a command that carries credentials.
use secure_mail_scope_sih.Common.{
  ℕ, ◌≡◌, refl, ap, ◌∙◌, true, false, [], ◌∷◌, ◌++◌, arith, any, Text, codes, text_eq, has_prefix,
  contains, to_upper, cut_at, has_prefix-contains,
}
use secure_mail_scope_sih.Common.{
  has_byte, has_prefix-split, has_prefix-front, contains-behind, has_prefix-append, cut_at-append,
}
use mathlib.Core.List.{append_assoc}
use secure_mail_scope_sih.Models.{EmailProtocol, smtp, imap, pop3, client_to_server}
use secure_mail_scope_sih.Protocol.Lines.{
  Timeline, cmd_word, is_meaningful_command, is_redacted, clean_command, client_command,
}

word_of_prefix :
    (upper word : Text)
    → has_byte 32 word ≡ false
    → has_prefix upper (word ++ 32 ∷ []) ≡ true
    → (cut_at 32 upper).0 ≡ word
word_of_prefix upper word lacks h =
    let (r, e) = has_prefix-split upper (word ++ 32 ∷ []) h in
    rw e (rw append_assoc (rw (cut_at-append 32 word r lacks)))

-- The commands that carry a password or an authentication exchange on their line.
pub data IsSecret : EmailProtocol → Text → Type 0 where
  pop3_pass : IsSecret pop3 (codes "PASS")
  smtp_auth : IsSecret smtp (codes "AUTH")

-- What `processClientLine` looks up of such a command.
IsSecret-facts :
    {proto : EmailProtocol} {word : Text} (upper : Text)
    → IsSecret proto word
    → has_prefix upper (word ++ 32 ∷ []) ≡ true
    → (cmd_word proto upper ≡ word)
      × (is_redacted upper ≡ true)
      × (is_meaningful_command proto word ≡ true)
unfolding cmd_word is_redacted is_meaningful_command any text_eq codes
IsSecret-facts upper pop3_pass h =
    (word_of_prefix upper (codes "PASS") (unfold has_byte in refl) h, ground (arith, h), refl)
IsSecret-facts upper smtp_auth h = (
  word_of_prefix upper (codes "AUTH") (unfold has_byte in refl) h,
  ground (arith, has_prefix-front upper (codes "AUTH") (32 ∷ []) h),
  refl,
)

client_command-events :
    (proto : EmailProtocol) (start : ℕ) (line : Text) (t : Timeline)
    → is_meaningful_command proto (cmd_word proto (to_upper line)) ≡ true
    → (client_command proto start line t).events
      ≡ t.events
        ++ record {
          timestamp = start;
          direction = client_to_server;
          command = clean_command proto line;
          response = [];
        }
          ∷ []
unfolding client_command
client_command-events proto start line t h = ground (arith, h)

-- A POP3 line that begins with PASS and a space, and an SMTP line that begins with AUTH and a space, in
-- any case, append one event whose command is the word and the mark "<redacted>": nothing else of the
-- line is kept.
pub client_command_redacts :
    (proto : EmailProtocol) (word : Text) (start : ℕ) (line : Text) (t : Timeline)
    → IsSecret proto word
    → has_prefix (to_upper line) (word ++ 32 ∷ []) ≡ true
    → (client_command proto start line t).events
      ≡ t.events
        ++ record {
          timestamp = start;
          direction = client_to_server;
          command = word ++ codes " <redacted>";
          response = [];
        }
          ∷ []
unfolding clean_command
client_command_redacts proto word start line t secret h =
    let (named, redacted, meaningful) = IsSecret-facts (to_upper line) secret h in
    client_command-events proto start line t (rw named meaningful) ∙ rw (redacted, named)

cmd_word-imap :
    (tag rest upper : Text)
    → has_byte 32 tag ≡ false
    → upper ≡ tag ++ 32 ∷ rest
    → cmd_word imap upper ≡ rest
unfolding cmd_word
cmd_word-imap tag rest upper lacks e = rw (ap (cut_at 32) e ∙ cut_at-append 32 tag rest lacks)

login-IsRedacted :
    (tag credentials upper : Text)
    → upper ≡ tag ++ 32 ∷ (codes "LOGIN " ++ credentials)
    → is_redacted upper ≡ true
unfolding is_redacted
login-IsRedacted tag credentials upper e =
    let login = codes "LOGIN " in
    let held = contains-behind tag (32 ∷ (login ++ credentials)) login (
      contains-behind (32 ∷ []) (login ++ credentials) login
        (has_prefix-contains _ login (has_prefix-append login credentials))) in
    let h : contains upper login ≡ true = rw e held in ground (arith, h)

-- Of an IMAP LOGIN the mark is put behind the whole command: for every tag without a space and all
-- credentials, the recorded command holds the credentials, in upper case.
pub clean_command_leaks :
    (tag credentials line : Text)
    → has_byte 32 tag ≡ false
    → to_upper line ≡ tag ++ 32 ∷ (codes "LOGIN " ++ credentials)
    → clean_command imap line ≡ codes "LOGIN " ++ (credentials ++ codes " <redacted>")
unfolding clean_command
clean_command_leaks tag credentials line lacks e =
    let rest = codes "LOGIN " ++ credentials in
    rw (login-IsRedacted tag credentials (to_upper line) e) (
      rw (cmd_word-imap tag rest (to_upper line) lacks e)
        (append_assoc (codes "LOGIN ") credentials (codes " <redacted>")))
