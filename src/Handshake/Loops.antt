-- ===== src/Handshake/Loops.antt =====
-- The loops of parser/internal/tlsparser/handshake.go stay in their slices, and end.
use secure_mail_scope_sih.Common.{
  ℕ, zero, suc, ◌+◌, ◌-◌, ◌*◌, ◌≤◌, ◌<◌, ◌≡◌, inl, inr, List, [], ◌∷◌, ◌++◌, arith, ltb, Bool-cases,
  length, take, drop, Text, Bytes, Go, returns, panics, unfinished, ◌>>=◌, Ensures, Ensures-returns,
  byte_at,
}
use secure_mail_scope_sih.Handshake.Names.{tls_version_name, cipher_suite_name}
use secure_mail_scope_sih.Handshake.Types.{TlsHandshake, CertInfo}
use secure_mail_scope_sih.Handshake.Hello.{
  parse_sni_extension, versions_loop, parse_supported_versions_client, extensions_loop,
  client_extension, suites_loop, server_extension, at_most,
}
use secure_mail_scope_sih.Handshake.Certificates.{certificates_loop}

-- The run returns.
abbrev pub Total {ℓ} : {A : Type ℓ} → Go A → Type 0
Total = Ensures (λ _. Unit {0})

pub Total-bind {ℓ κ} :
    {A : Type ℓ} {B : Type κ} (m : Go A) (f : A → Go B)
    → Total m
    → ((a : A) → Total (f a))
    → Total (m >>= f)
Total-bind (returns a) f h k = k a
Total-bind panics f h k = absurd h
Total-bind unfinished f h k = absurd h

pub Total-returns {ℓ} : {A : Type ℓ} (m : Go A) → Total m → (a : A) × (m ≡ returns a)
Total-returns m h = let (a, e, _) = Ensures-returns (λ _. Unit {0}) m h in (a, e)

module _ (d : Bytes) where
  versions_loop-Total :
      (f list_len offset : ℕ) (acc : List Text)
      → length d - offset < f
      → Total (versions_loop f d list_len offset acc)
  unfolding versions_loop
  versions_loop-Total zero list_len offset acc h = elim h [ ]
  versions_loop-Total (suc f) list_len offset acc h =
      let name = tls_version_name (byte_at d offset) (byte_at d (offset + 1)) in
      ground (arith, versions_loop-Total f list_len (offset + 2) (acc ++ name ∷ []))

  pub suites_loop-Total :
      (f offset len i : ℕ) (acc : List Text)
      → offset + len ≤ length d
      → len - i < f
      → Total (suites_loop f d offset len i acc)
  unfolding suites_loop
  suites_loop-Total zero offset len i acc h k = elim k [ ]
  suites_loop-Total (suc f) offset len i acc h k =
      let name = cipher_suite_name (256 * byte_at d (offset + i) + byte_at d (offset + i + 1)) in
      ground (arith, suites_loop-Total f offset len (i + 2) (acc ++ name ∷ []))

  pub certificates_loop-Total :
      (info : Bytes → CertInfo) (f cert_end offset : ℕ) (acc : List CertInfo)
      → cert_end ≤ length d
      → cert_end - offset < f
      → Total (certificates_loop info f d cert_end offset acc)
  unfolding certificates_loop
  certificates_loop-Total info zero cert_end offset acc h k = elim k [ ]
  certificates_loop-Total info (suc f) cert_end offset acc h k =
      let cert_len =
        65536 * byte_at d offset + 256 * byte_at d (offset + 1) + byte_at d (offset + 2) in
      let der = take (offset + 3 + cert_len - (offset + 3)) (drop (offset + 3) d) in
      ground (
        arith,
        certificates_loop-Total info f cert_end (offset + 3 + cert_len) (acc ++ info der ∷ []),
      )

  parse_sni_extension-Total : (hs : TlsHandshake) → Total (parse_sni_extension d hs)
  unfolding parse_sni_extension
  parse_sni_extension-Total hs = ground arith

  parse_supported_versions_client-Total :
      (hs : TlsHandshake) → Total (parse_supported_versions_client d hs)
  unfolding parse_supported_versions_client
  parse_supported_versions_client-Total hs = elim (Bool-cases (ltb (length d) 1)) [
    | inl short ↦ rw short tt
    | inr long ↦
        rw long
          (ground (arith, versions_loop-Total (length d) (byte_at d 0) 1 hs.supported_versions))
  ]

module _ (read : ℕ → Bytes → TlsHandshake → Go TlsHandshake)
    (read-Total : (t : ℕ) (x : Bytes) (hs : TlsHandshake) → Total (read t x hs)) (d : Bytes) where
  extensions_loop-Total :
      (f ext_end offset : ℕ) (hs : TlsHandshake)
      → ext_end ≤ length d
      → ext_end - offset < f
      → Total (extensions_loop read f d ext_end offset hs)
  unfolding extensions_loop
  extensions_loop-Total zero ext_end offset hs h k = elim k [ ]
  extensions_loop-Total (suc f) ext_end offset hs h k =
      let ext_type = 256 * byte_at d offset + byte_at d (offset + 1) in
      let len = 256 * byte_at d (offset + 2) + byte_at d (offset + 2 + 1) in
      let x = take (offset + 4 + len - (offset + 4)) (drop (offset + 4) d) in
      let (hs', e) = Total-returns _ (read-Total ext_type x hs) in
      ground (arith, e, extensions_loop-Total f ext_end (offset + 4 + len) hs')

pub client_extension-Total :
    (t : ℕ) (x : Bytes) (hs : TlsHandshake) → Total (client_extension t x hs)
unfolding client_extension
client_extension-Total t x hs =
    ground (arith, parse_sni_extension-Total x hs, parse_supported_versions_client-Total x hs)

pub server_extension-Total :
    (t : ℕ) (x : Bytes) (hs : TlsHandshake) → Total (server_extension t x hs)
unfolding server_extension
server_extension-Total t x hs = ground arith

pub at_most-le : (bound n : ℕ) → at_most bound n ≤ bound
at_most-le bound n = ground arith

pub hello_extensions-Total :
    (read : ℕ → Bytes → TlsHandshake → Go TlsHandshake)
    → ((t : ℕ) (x : Bytes) (hs : TlsHandshake) → Total (read t x hs))
    → (d : Bytes) (offset n : ℕ) (hs : TlsHandshake) → offset + 2 ≤ length d
    → (hs' : TlsHandshake) × (extensions_loop read
          (length d)
          d
          (at_most (length d) n)
          (offset + 2)
          hs
        ≡ returns hs')
hello_extensions-Total read read-Total d offset n hs h =
    let bound = at_most-le (length d) n in
    let (hs', e) = Total-returns _ (
      extensions_loop-Total read read-Total d (length d) (at_most (length d) n) (offset + 2) hs
        bound (omega (arith, bound))) in
    (hs', e)
