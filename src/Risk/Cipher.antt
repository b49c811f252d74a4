-- ===== src/Risk/Cipher.antt =====
-- backend/internal/risk/cipher.go.
use secure_mail_scope_sih.Common.{
  ℕ, Bool, true, false, ◌||◌, if◌then◌else◌, Text, codes, text_eq, contains, to_upper,
}

pub data CipherType : Type 0 where
  cipher_aead cipher_block cipher_stream cipher_unknown : CipherType

-- The string of a `CipherType`.
unfoldable pub cipher_type_text : CipherType → Text
cipher_type_text cipher_aead = codes "AEAD"
cipher_type_text cipher_block = codes "BLOCK"
cipher_type_text cipher_stream = codes "STREAM"
cipher_type_text cipher_unknown = codes "UNKNOWN"

pub record CipherInfo : Type 0 where
  pub name : Text
  pub kind : CipherType
  pub is_aead : Bool
  pub is_weak : Bool
  pub key_size : ℕ
  pub key_exchange_alg : Text
  pub is_pfs : Bool

unfoldable pub unclassified : Text → CipherInfo
unclassified name = record {
  name = name;
  kind = cipher_unknown;
  is_aead = false;
  is_weak = false;
  key_size = 0;
  key_exchange_alg = codes "UNKNOWN";
  is_pfs = false;
}

-- "Key Exchange / PFS"
unfoldable pub classify_exchange : Text → CipherInfo → CipherInfo
classify_exchange upper info =
    if contains upper (codes "ECDHE") || contains upper (codes "DHE")
    then record info { is_pfs = true; key_exchange_alg = codes "ECDHE/DHE" }
    else if contains upper (codes "RSA")
    then record info { key_exchange_alg = codes "RSA" }
    else info

-- The condition of "TLS 1.3 Ciphers"
unfoldable pub is_tls13_cipher : Text → Bool
is_tls13_cipher upper =
    text_eq upper (codes "TLS_AES_128_GCM_SHA256")
    || text_eq upper (codes "TLS_AES_256_GCM_SHA384")
    || text_eq upper (codes "TLS_CHACHA20_POLY1305_SHA256")

unfoldable pub classify_tls13 : Text → CipherInfo → CipherInfo
classify_tls13 upper info = record info {
  is_pfs = true;
  is_aead = true;
  is_weak = false;
  kind = cipher_aead;
  key_size = if contains upper (codes "128") then 128 else 256;
  key_exchange_alg = codes "TLS1.3";
}

-- "AEAD vs Block/Stream"
unfoldable pub classify_kind : Text → CipherInfo → CipherInfo
classify_kind upper info =
    if contains upper (codes "GCM")
      || contains upper (codes "POLY1305")
      || contains upper (codes "CCM")
    then record info { is_aead = true; kind = cipher_aead; is_weak = false }
    else if contains upper (codes "CBC")
    then record info { kind = cipher_block; is_weak = true }
    else if contains upper (codes "RC4")
    then record info { kind = cipher_stream; is_weak = true }
    else info

-- "Key Size"
unfoldable pub classify_size : Text → CipherInfo → CipherInfo
classify_size upper info =
    if contains upper (codes "256")
    then record info { key_size = 256 }
    else if contains upper (codes "128")
    then record info { key_size = 128 }
    else if contains upper (codes "3DES")
    then record info { key_size = 112; is_weak = true }
    else if contains upper (codes "DES")
    then record info { key_size = 56; is_weak = true }
    else info

-- "Explicit weaknesses"
unfoldable pub classify_weak : Text → CipherInfo → CipherInfo
classify_weak upper info =
    if contains upper (codes "MD5")
      || contains upper (codes "NULL")
      || contains upper (codes "EXPORT")
    then record info { is_weak = true }
    else info

-- `ClassifyCipher`
unfoldable pub classify_cipher : Text → CipherInfo
classify_cipher name =
    let upper = to_upper name in
    let info = classify_exchange upper (unclassified name) in
    if is_tls13_cipher upper
    then classify_tls13 upper info
    else classify_weak upper (classify_size upper (classify_kind upper info))
