-- ===== src/Handshake/Names.antt =====
-- The tables and naming functions of parser/internal/tlsparser/handshake.go.
use secure_mail_scope_sih.Common.{
  ℕ, Bool, true, false, ◌&&◌, ◌||◌, Option, none, some, List, [], ◌∷◌, ◌++◌, ◌==◌, if◌then◌else◌,
  Text, codes, has_prefix, contains, decimal, hex4,
}

-- `CipherSuiteNames`, in the order of the source.
unfoldable pub cipher_suite_names : List (ℕ × Text)
cipher_suite_names =
    (0x0000, codes "TLS_NULL_WITH_NULL_NULL")
    ∷ (0x0001, codes "TLS_RSA_WITH_NULL_MD5")
    ∷ (0x0002, codes "TLS_RSA_WITH_NULL_SHA")
    ∷ (0x002F, codes "TLS_RSA_WITH_AES_128_CBC_SHA")
    ∷ (0x0033, codes "TLS_DHE_RSA_WITH_AES_128_CBC_SHA")
    ∷ (0x0035, codes "TLS_RSA_WITH_AES_256_CBC_SHA")
    ∷ (0x0039, codes "TLS_DHE_RSA_WITH_AES_256_CBC_SHA")
    ∷ (0x003C, codes "TLS_RSA_WITH_AES_128_CBC_SHA256")
    ∷ (0x003D, codes "TLS_RSA_WITH_AES_256_CBC_SHA256")
    ∷ (0x0067, codes "TLS_DHE_RSA_WITH_AES_128_CBC_SHA256")
    ∷ (0x006B, codes "TLS_DHE_RSA_WITH_AES_256_CBC_SHA256")
    ∷ (0x009C, codes "TLS_RSA_WITH_AES_128_GCM_SHA256")
    ∷ (0x009D, codes "TLS_RSA_WITH_AES_256_GCM_SHA384")
    ∷ (0x009E, codes "TLS_DHE_RSA_WITH_AES_128_GCM_SHA256")
    ∷ (0x009F, codes "TLS_DHE_RSA_WITH_AES_256_GCM_SHA384")
    ∷ (0x00FF, codes "TLS_EMPTY_RENEGOTIATION_INFO_SCSV")
    ∷ (0x1301, codes "TLS_AES_128_GCM_SHA256")
    ∷ (0x1302, codes "TLS_AES_256_GCM_SHA384")
    ∷ (0x1303, codes "TLS_CHACHA20_POLY1305_SHA256")
    ∷ (0xC009, codes "TLS_ECDHE_ECDSA_WITH_AES_128_CBC_SHA")
    ∷ (0xC00A, codes "TLS_ECDHE_ECDSA_WITH_AES_256_CBC_SHA")
    ∷ (0xC013, codes "TLS_ECDHE_RSA_WITH_AES_128_CBC_SHA")
    ∷ (0xC014, codes "TLS_ECDHE_RSA_WITH_AES_256_CBC_SHA")
    ∷ (0xC023, codes "TLS_ECDHE_ECDSA_WITH_AES_128_CBC_SHA256")
    ∷ (0xC024, codes "TLS_ECDHE_ECDSA_WITH_AES_256_CBC_SHA384")
    ∷ (0xC027, codes "TLS_ECDHE_RSA_WITH_AES_128_CBC_SHA256")
    ∷ (0xC028, codes "TLS_ECDHE_RSA_WITH_AES_256_CBC_SHA384")
    ∷ (0xC02B, codes "TLS_ECDHE_ECDSA_WITH_AES_128_GCM_SHA256")
    ∷ (0xC02C, codes "TLS_ECDHE_ECDSA_WITH_AES_256_GCM_SHA384")
    ∷ (0xC02F, codes "TLS_ECDHE_RSA_WITH_AES_128_GCM_SHA256")
    ∷ (0xC030, codes "TLS_ECDHE_RSA_WITH_AES_256_GCM_SHA384")
    ∷ (0xCCA8, codes "TLS_ECDHE_RSA_WITH_CHACHA20_POLY1305_SHA256")
    ∷ (0xCCA9, codes "TLS_ECDHE_ECDSA_WITH_CHACHA20_POLY1305_SHA256")
    ∷ (0xCCAA, codes "TLS_DHE_RSA_WITH_CHACHA20_POLY1305_SHA256")
    ∷ (0x0004, codes "TLS_RSA_WITH_RC4_128_MD5")
    ∷ (0x0005, codes "TLS_RSA_WITH_RC4_128_SHA")
    ∷ (0x000A, codes "TLS_RSA_WITH_3DES_EDE_CBC_SHA")
    ∷ (0x0016, codes "TLS_DHE_RSA_WITH_3DES_EDE_CBC_SHA")
    ∷ (0xC003, codes "TLS_ECDH_ECDSA_WITH_3DES_EDE_CBC_SHA")
    ∷ (0xC008, codes "TLS_ECDHE_ECDSA_WITH_3DES_EDE_CBC_SHA")
    ∷ (0xC012, codes "TLS_ECDHE_RSA_WITH_3DES_EDE_CBC_SHA")
    ∷ (0x5600, codes "TLS_FALLBACK_SCSV")
    ∷ []

unfoldable pub lookup_code : ℕ → List (ℕ × Text) → Option Text
lookup_code k [] = none
lookup_code k ((j, v) ∷ m) = if j == k then some v else lookup_code k m

-- `TLSVersionName`
unfoldable pub tls_version_name : ℕ → ℕ → Text
tls_version_name major minor =
    if major == 3 && minor == 0
    then codes "SSLv3"
    else if major == 3 && minor == 1
    then codes "TLS 1.0"
    else if major == 3 && minor == 2
    then codes "TLS 1.1"
    else if major == 3 && minor == 3
    then codes "TLS 1.2"
    else if major == 3 && minor == 4
    then codes "TLS 1.3"
    else codes "Unknown(" ++ (decimal major ++ (codes "." ++ (decimal minor ++ codes ")")))

-- `fmt.Sprintf("Unknown(0x%04X)", code)`
unfoldable pub unknown_suite : ℕ → Text
unknown_suite code = codes "Unknown(" ++ (hex4 code ++ codes ")")

unfoldable pub name_or_unknown : ℕ → Option Text → Text
name_or_unknown code (some name) = name
name_or_unknown code none = unknown_suite code

-- `CipherSuiteName`
unfoldable pub cipher_suite_name : ℕ → Text
unfolding name_or_unknown lookup_code cipher_suite_names unknown_suite
cipher_suite_name code = name_or_unknown code (lookup_code code cipher_suite_names)

-- `HasForwardSecrecy`
unfoldable pub has_forward_secrecy : Text → Bool
has_forward_secrecy name =
    if contains name (codes "ECDHE") || contains name (codes "DHE")
    then true
    else if has_prefix name (codes "TLS_AES_") || has_prefix name (codes "TLS_CHACHA20_")
    then true
    else false

-- `KeyExchangeType`
unfoldable pub key_exchange_type : Text → Text
key_exchange_type name =
    if contains name (codes "ECDHE")
    then codes "ECDHE"
    else if contains name (codes "DHE")
    then codes "DHE"
    else if contains name (codes "ECDH")
    then codes "ECDH"
    else if contains name (codes "RSA")
    then codes "RSA"
    else if has_prefix name (codes "TLS_AES_") || has_prefix name (codes "TLS_CHACHA20_")
    then codes "ECDHE"
    else codes "Unknown"
