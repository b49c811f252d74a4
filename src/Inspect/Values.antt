-- ===== src/Inspect/Values.antt =====
-- The functions on single values of backend/internal/tlsinspect/inspector.go.
use secure_mail_scope_sih.Common.{
  ℕ, ◌/◌, ◌%◌, Bool, false, not, ◌&&◌, ◌||◌, Option, none, some, List, [], ◌∷◌, ◌==◌, if◌then◌else◌,
  drop, Text, codes, text_eq, is_empty, has_prefix, contains, to_upper, to_lower,
}
use secure_mail_scope_sih.Common.{parse_int}
use secure_mail_scope_sih.Models.{ForwardSecrecyStatus, fs_yes, fs_no, fs_unknown}

-- A `switch` on a text whose cases return a text.
unfoldable pub text_case : Text → List (Text × Text) → Option Text
text_case s [] = none
text_case s ((k, v) ∷ cases) = if text_eq s k then some v else text_case s cases

version_cases : List (Text × Text)
version_cases =
    (codes "0x0300", codes "SSLv3")
    ∷ (codes "0x0301", codes "TLS 1.0")
    ∷ (codes "0x0302", codes "TLS 1.1")
    ∷ (codes "0x0303", codes "TLS 1.2")
    ∷ (codes "0x0304", codes "TLS 1.3")
    ∷ []

named_version : Text → Option Text → Text
named_version ver (some name) = name
named_version ver none =
    if has_prefix ver (codes "TLS") || has_prefix ver (codes "SSL") then ver else []

-- `normalizeTLSVersion`
unfoldable pub normalize_tls_version : Text → Text
unfolding named_version version_cases text_case
normalize_tls_version ver = named_version ver (text_case ver version_cases)

suite_cases : List (Text × Text)
suite_cases =
    (codes "0x1301", codes "TLS_AES_128_GCM_SHA256")
    ∷ (codes "0x1302", codes "TLS_AES_256_GCM_SHA384")
    ∷ (codes "0x1303", codes "TLS_CHACHA20_POLY1305_SHA256")
    ∷ (codes "0xc02f", codes "TLS_ECDHE_RSA_WITH_AES_128_GCM_SHA256")
    ∷ (codes "0xc030", codes "TLS_ECDHE_RSA_WITH_AES_256_GCM_SHA384")
    ∷ (codes "0xc027", codes "TLS_ECDHE_RSA_WITH_AES_128_CBC_SHA256")
    ∷ (codes "0xc028", codes "TLS_ECDHE_RSA_WITH_AES_256_CBC_SHA384")
    ∷ (codes "0x009c", codes "TLS_RSA_WITH_AES_128_GCM_SHA256")
    ∷ (codes "0x009d", codes "TLS_RSA_WITH_AES_256_GCM_SHA384")
    ∷ (codes "0x002f", codes "TLS_RSA_WITH_AES_128_CBC_SHA")
    ∷ (codes "0x0035", codes "TLS_RSA_WITH_AES_256_CBC_SHA")
    ∷ (codes "0x000a", codes "TLS_RSA_WITH_3DES_EDE_CBC_SHA")
    ∷ (codes "0x0005", codes "TLS_RSA_WITH_RC4_128_SHA")
    ∷ []

named_or : Text → Option Text → Text
named_or text (some name) = name
named_or text none = text

-- `formatCipherSuite`
unfoldable pub format_cipher_suite : Text → Text
unfolding named_or suite_cases text_case
format_cipher_suite cipher_hex =
    if is_empty cipher_hex
    then []
    else named_or cipher_hex (text_case (to_lower cipher_hex) suite_cases)

group_cases : List (Text × Text)
group_cases =
    (codes "0x001d", codes "X25519")
    ∷ (codes "29", codes "X25519")
    ∷ (codes "0x0017", codes "secp256r1")
    ∷ (codes "23", codes "secp256r1")
    ∷ (codes "0x0018", codes "secp384r1")
    ∷ (codes "24", codes "secp384r1")
    ∷ (codes "0x001e", codes "X448")
    ∷ (codes "30", codes "X448")
    ∷ []

-- `formatKeyExchangeGroup`
unfoldable pub format_key_exchange_group : Text → Text
unfolding named_or group_cases text_case
format_key_exchange_group group =
    if is_empty group then [] else named_or group (text_case (to_lower group) group_cases)

-- `AssessForwardSecrecy`
unfoldable pub assess_forward_secrecy : Text → Text → Text → ForwardSecrecyStatus
assess_forward_secrecy tls_version cipher key_exchange_grp =
    let upper = to_upper cipher in
    if text_eq tls_version (codes "TLS 1.3")
    then fs_yes
    else if not (is_empty key_exchange_grp) && not (text_eq key_exchange_grp (codes "None"))
    then fs_yes
    else if is_empty cipher
    then fs_unknown
    else if contains upper (codes "ECDHE")
        || contains upper (codes "_DHE_")
        || contains upper (codes "DHE_RSA")
    then fs_yes
    else if contains upper (codes "RSA_WITH")
        || contains upper (codes "3DES")
        || contains upper (codes "RC4")
        || contains upper (codes "DES_CBC")
    then fs_no
    else fs_unknown

-- `num != 0 && (num&0x0F0F) == 0x0A0A && (num>>8) == (num&0xFF)`
unfoldable pub is_grease_number : ℕ → Bool
is_grease_number num =
    not (num == 0) && num % 16 == 10 && num / 256 % 16 == 10 && num / 256 == num % 256

is_grease_result : Option ℕ → Bool
is_grease_result none = false
is_grease_result (some num) = is_grease_number num

-- `isGrease`
unfoldable pub is_grease : Text → Bool
unfolding is_grease_result
is_grease val =
    if is_empty val
    then false
    else if has_prefix (to_lower val) (codes "0x")
    then is_grease_result (parse_int 16 (drop 2 val))
    else is_grease_result (parse_int 10 val)
