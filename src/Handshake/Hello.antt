-- ===== src/Handshake/Hello.antt =====
-- ClientHello and ServerHello: `parseClientHello`, `parseServerHello` and the extensions that they
-- read, of parser/internal/tlsparser/handshake.go. Each early `return nil` is a branch; a loop runs on
-- fuel, the length of the message.
use secure_mail_scope_sih.Common.{
  ℕ, zero, suc, ◌+◌, ◌-◌, Bool, true, false, not, ◌&&◌, Option, none, some, List, [], ◌∷◌, ◌++◌,
  ltb, leb, ◌==◌, if◌then◌else◌, length, Text, is_empty, Bytes, Go, returns, unfinished, ◌>>=◌,
  index, slice, uint16_at,
}
use secure_mail_scope_sih.Handshake.Names.{
  tls_version_name, cipher_suite_name, has_forward_secrecy, key_exchange_type,
}
use secure_mail_scope_sih.Handshake.Types.{
  TlsHandshake, ParseError, client_hello_too_short, server_hello_too_short,
}

abbrev ext_server_name : ℕ
ext_server_name = 0

abbrev ext_supported_versions : ℕ
ext_supported_versions = 43

-- `if n > bound { n = bound }`
abbrev pub at_most : ℕ → ℕ → ℕ
at_most bound n = if ltb bound n then bound else n

-- A message's result: the handshake so far, and the error returned.
abbrev pub Parsed : Type 0
Parsed = TlsHandshake × Option ParseError

-- `parseSNIExtension`
unfoldable pub parse_sni_extension : Bytes → TlsHandshake → Go TlsHandshake
parse_sni_extension d hs = if ltb (length d) 5 then returns hs else do
  name_type ← index d 2
  if not (name_type == 0) then returns hs else do
    name_len ← uint16_at d 3
    if ltb (length d) (5 + name_len)
        then returns hs
        else do name ← slice d 5 (5 + name_len); returns (record hs { sni = name })

-- The loop of `parseSupportedVersionsClient`.
unfoldable pub versions_loop : ℕ → Bytes → ℕ → ℕ → List Text → Go (List Text)
versions_loop zero d list_len offset acc = unfinished
versions_loop (suc f) d list_len offset acc =
    elim (ltb (offset + 1) (length d) && ltb offset (1 + list_len)) [
      | true ↦ do
        major ← index d offset
        minor ← index d (offset + 1)
        versions_loop f d list_len (offset + 2) (acc ++ tls_version_name major minor ∷ [])
      | false ↦ returns acc
    ]

-- `parseSupportedVersionsClient`
unfoldable pub parse_supported_versions_client : Bytes → TlsHandshake → Go TlsHandshake
parse_supported_versions_client d hs = if ltb (length d) 1 then returns hs else do
  list_len ← index d 0
  versions ← versions_loop (length d) d list_len 1 hs.supported_versions
  returns (record hs { supported_versions = versions })

-- The `for offset+4 <= extEnd` loop, which the two hellos share but for what they do with an
-- extension of a given type.
unfoldable pub extensions_loop :
    (ℕ → Bytes → TlsHandshake → Go TlsHandshake)
    → ℕ
    → Bytes
    → ℕ
    → ℕ
    → TlsHandshake
    → Go TlsHandshake
extensions_loop read zero d ext_end offset hs = unfinished
extensions_loop read (suc f) d ext_end offset hs = elim (leb (offset + 4) ext_end) [
  | true ↦ do
    ext_type ← uint16_at d offset
    ext_data_len ← uint16_at d (offset + 2)
    elim (ltb ext_end (offset + 4 + ext_data_len)) [
      | true ↦ returns hs
      | false ↦ do
        ext_data ← slice d (offset + 4) (offset + 4 + ext_data_len)
        hs' ← read ext_type ext_data hs
        extensions_loop read f d ext_end (offset + 4 + ext_data_len) hs'
    ]
  | false ↦ returns hs
]

-- The `switch extType` of a ClientHello.
unfoldable pub client_extension : ℕ → Bytes → TlsHandshake → Go TlsHandshake
client_extension ext_type ext_data hs =
    if ext_type == ext_server_name
    then parse_sni_extension ext_data hs
    else if ext_type == ext_supported_versions
    then parse_supported_versions_client ext_data hs
    else returns hs

-- The extensions of a ClientHello, behind their length.
unfoldable pub client_extensions : Bytes → ℕ → TlsHandshake → Go Parsed
client_extensions d offset hs = if ltb (length d) (offset + 2) then returns (hs, none) else do
  ext_len ← uint16_at d offset
  let ext_end = at_most (length d) (offset + 2 + ext_len)
  hs' ← extensions_loop client_extension (length d) d ext_end (offset + 2) hs
  returns (hs', none)

-- The compression methods of a ClientHello, which are skipped.
unfoldable pub client_compression : Bytes → ℕ → TlsHandshake → Go Parsed
client_compression d offset hs =
    if leb (length d) offset
    then returns (hs, none)
    else do comp_len ← index d offset; client_extensions d (offset + 1 + comp_len) hs

-- `for i := 0; i+1 < cipherSuitesLen; i += 2`
unfoldable pub suites_loop : ℕ → Bytes → ℕ → ℕ → ℕ → List Text → Go (List Text)
suites_loop zero d offset len i acc = unfinished
suites_loop (suc f) d offset len i acc = elim (ltb (i + 1) len) [
  | true ↦ do
    code ← uint16_at d (offset + i)
    suites_loop f d offset len (i + 2) (acc ++ cipher_suite_name code ∷ [])
  | false ↦ returns acc
]

-- The cipher suites of a ClientHello.
unfoldable pub client_suites : Bytes → ℕ → TlsHandshake → Go Parsed
client_suites d offset hs = if ltb (length d) (offset + 2) then returns (hs, none) else do
  declared ← uint16_at d offset
  let len = if ltb (length d) (offset + 2 + declared) then length d - (offset + 2) else declared
  suites ← suites_loop (length d) d (offset + 2) len 0 []
  client_compression d (offset + 2 + len) (record hs { cipher_suites_offered = suites })

-- `parseClientHello`
unfoldable pub parse_client_hello : Bytes → TlsHandshake → Go Parsed
parse_client_hello d hs =
    if ltb (length d) 38 then returns (hs, some client_hello_too_short) else do
      major ← index d 0
      minor ← index d 1
      let hs' = record hs { client_hello_version = tls_version_name major minor }
      if leb (length d) 34
          then returns (hs', none)
          else do session_id_len ← index d 34; client_suites d (34 + 1 + session_id_len) hs'

-- What a ServerHello does with an extension: only supported_versions is read.
unfoldable pub server_extension : ℕ → Bytes → TlsHandshake → Go TlsHandshake
server_extension ext_type ext_data hs =
    if ext_type == ext_supported_versions && leb 2 (length ext_data)
    then (do
      major ← index ext_data 0
      minor ← index ext_data 1
      returns (record hs { negotiated_version = tls_version_name major minor }))
    else returns hs

-- The end of `parseServerHello`, behind the cipher suite. The flag is `IsComplete`.
unfoldable pub server_extensions :
    Bytes → ℕ → TlsHandshake → Go (TlsHandshake × Bool × Option ParseError)
server_extensions d offset hs =
    if ltb (length d) (offset + 2)
    then returns (record hs { negotiated_version = hs.server_hello_version }, false, none)
    else do
      ext_len ← uint16_at d offset
      let ext_end = at_most (length d) (offset + 2 + ext_len)
      hs' ← extensions_loop server_extension (length d) d ext_end (offset + 2) hs
      let version =
          if is_empty hs'.negotiated_version
          then hs'.server_hello_version
          else hs'.negotiated_version
      returns (record hs' { negotiated_version = version }, true, none)

-- The compression method of a ServerHello.
unfoldable pub server_compression :
    Bytes → ℕ → TlsHandshake → Go (TlsHandshake × Bool × Option ParseError)
server_compression d offset hs =
    if ltb offset (length d)
    then (do
      method ← index d offset
      server_extensions d (offset + 1) (record hs { compression_method = method }))
    else server_extensions d offset hs

-- The cipher suite of a ServerHello.
unfoldable pub server_suite :
    Bytes → ℕ → TlsHandshake → Go (TlsHandshake × Bool × Option ParseError)
server_suite d offset hs = if ltb (length d) (offset + 2) then returns (hs, false, none) else do
  code ← uint16_at d offset
  let name = cipher_suite_name code
  let hs' = record hs {
    negotiated_cipher = name;
    negotiated_cipher_hex = code;
    has_forward_secrecy = has_forward_secrecy name;
    key_exchange = key_exchange_type name;
  }
  server_compression d (offset + 2) hs'

-- `parseServerHello`; the flag is set where the source sets `IsComplete`.
unfoldable pub parse_server_hello :
    Bytes → TlsHandshake → Go (TlsHandshake × Bool × Option ParseError)
parse_server_hello d hs =
    if ltb (length d) 38 then returns (hs, false, some server_hello_too_short) else do
      major ← index d 0
      minor ← index d 1
      let hs' = record hs { server_hello_version = tls_version_name major minor }
      if leb (length d) 34
          then returns (hs', false, none)
          else do session_id_len ← index d 34; server_suite d (34 + 1 + session_id_len) hs'
