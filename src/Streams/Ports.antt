-- ===== src/Streams/Ports.antt =====
-- `detectEmailProtocol` of parser/internal/reassembly/stream.go and its tables.
use secure_mail_scope_sih.Common.{
  ℕ, Bool, ◌||◌, Option, none, some, List, [], ◌∷◌, ◌==◌, Text, codes,
}
use secure_mail_scope_sih.Common.{nat_key, lookup}

-- `emailPorts`
unfoldable pub email_ports : List (ℕ × Text)
email_ports =
    (25, codes "SMTP")
    ∷ (465, codes "SMTPS")
    ∷ (587, codes "SMTP")
    ∷ (143, codes "IMAP")
    ∷ (993, codes "IMAPS")
    ∷ (110, codes "POP3")
    ∷ (995, codes "POP3S")
    ∷ []

-- `directTLSPorts[port]`
unfoldable pub is_direct_tls_port : ℕ → Bool
is_direct_tls_port port = port == 465 || port == 993 || port == 995

with_port : ℕ → Option Text → Option (Text × ℕ)
with_port port none = none
with_port port (some protocol) = some (protocol, port)

-- `detectEmailProtocol`: the destination port is asked first.
unfoldable pub detect_email_protocol : ℕ → ℕ → Option (Text × ℕ)
unfolding with_port email_ports
detect_email_protocol src_port dst_port = elim (with_port dst_port (lookup dst_port email_ports)) [
  | some found ↦ some found
  | none ↦ with_port src_port (lookup src_port email_ports)
]
