-- ===== src/Tests/Capture.antt =====
-- The live capture manager and the certificate parsers on small inputs.
use secure_mail_scope_sih.Common.{ℕ, ◌+◌, ◌<◌, ◌≡◌, refl, true, false, [], ◌∷◌, Text, codes, Bytes}
use secure_mail_scope_sih.Capture.{
  Manager, new_manager, active, stopped, start, stop, look, is_active,
}
use secure_mail_scope_sih.Capture.Restart.{Runs, begin, move, started, Runs-look, look-start-stop}
use secure_mail_scope_sih.X509.{X509, Parse, parsed, rsa_key, sha1_with_rsa}
use secure_mail_scope_sih.Models.{CertificateInfo}
use secure_mail_scope_sih.Certificate.{ok, parse_raw_der}
use secure_mail_scope_sih.Handshake.Certificates.{parse_der_certificate}
use secure_mail_scope_sih.Certificate.Agreement.{Agrees, IsDocumented, parse_raw_der-Agrees}

abbrev eth : Text
eth = codes "eth0"

abbrev running : Manager
running = (start eth 7 new_manager).0

running-Runs : Runs running
running-Runs = move begin (started eth 7 new_manager)

running-active : running.status ≡ active
unfolding start is_active new_manager
running-active = refl

Runs-look_example :
    (running.status ≡ active → look running ≡ (running, true))
    × (running.status ≡ stopped → 0 < running.loops → (look running).1 ≡ false)
Runs-look_example = Runs-look {m = running} running-Runs

look-start-stop_example :
    ((look (start eth 9 (stop running).0).0).1 ≡ true)
    × ((start eth 9 (stop running).0).0.loops ≡ running.loops + 1)
look-start-stop_example = look-start-stop eth 9 {m = running} running-Runs running-active

abbrev old_certificate : X509
old_certificate = record {
  subject = codes "CN=mail";
  issuer = codes "CN=ca";
  serial_number = codes "1";
  not_before = 10;
  not_after = 20;
  signature_algorithm = sha1_with_rsa;
  signature_algorithm_name = codes "SHA1-RSA";
  public_key = rsa_key 1024;
  public_key_algorithm_name = codes "RSA";
  version = 3;
  dns_names = [];
  raw_sha256 = [];
}

abbrev read_old : Bytes → Parse
read_old der = parsed old_certificate

-- No dates are printed.
abbrev no_text : ℕ → Text
no_text time = []

old_certificate-IsDocumented :
    IsDocumented old_certificate.signature_algorithm old_certificate.signature_algorithm_name
old_certificate-IsDocumented = ((λ e. cc), (λ e. cc), (λ e. refl), (λ e. cc))

parse_raw_der-Agrees_example :
    (c : CertificateInfo) × (parse_raw_der read_old 30 (48 ∷ []) ≡ ok c)
    × Agrees no_text no_text
        (codes "S1")
        30
        old_certificate
        (parse_der_certificate read_old 30 (48 ∷ []))
        c
parse_raw_der-Agrees_example =
    parse_raw_der-Agrees no_text no_text (codes "S1") read_old 30 (48 ∷ []) old_certificate refl
      old_certificate-IsDocumented
