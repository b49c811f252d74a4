-- ===== src/Api/Packets.antt =====
-- `ViewPackets` of backend/internal/api/handlers.go: the packets of a capture, from the lines that TShark
-- prints.
use secure_mail_scope_sih.Common.{
  ℕ, zero, suc, Bool, ◌≡◌, refl, ap, ◌∙◌, false, Option, none, some, List, [], ◌∷◌, ◌++◌, ◌==◌,
  if◌then◌else◌, Text, codes, is_empty, trim_space, cut_at, has_byte,
}
use secure_mail_scope_sih.Common.{cut_at-append}
use secure_mail_scope_sih.Models.{Analysis}
use secure_mail_scope_sih.Api.Response.{Response, ok, fails, panics}

pub record PacketSummary : Type 0 where
  pub packet_number : Text
  pub timestamp : Text
  pub source : Text
  pub destination : Text
  pub protocol : Text
  pub length : Text
  pub summary : Text

-- `strings.SplitN(line, sep, n + 1)`
unfoldable pub split_n : ℕ → ℕ → Text → List Text
split_n zero sep line = line ∷ []
split_n (suc n) sep line =
    let (front, behind) = cut_at sep line in
    front ∷ (elim behind [ none ↦ [] | some rest ↦ split_n n sep rest ])

onto_first : ℕ → List Text → List Text
onto_first c [] = (c ∷ []) ∷ []
onto_first c (line ∷ lines) = (c ∷ line) ∷ lines

-- `strings.Split(out, "\n")`
unfoldable pub split_lines : Text → List Text
unfolding onto_first
split_lines [] = [] ∷ []
split_lines (c ∷ s) = let rest = split_lines s in if c == 10 then [] ∷ rest else onto_first c rest

-- The packet of the parts of a line; fewer than six make none.
unfoldable pub packet_of_parts : List Text → Option PacketSummary
packet_of_parts (a ∷ b ∷ c ∷ d ∷ e ∷ f ∷ []) = some (record {
  packet_number = a;
  timestamp = b;
  source = c;
  destination = d;
  protocol = e;
  length = f;
  summary = [];
})
packet_of_parts (a ∷ b ∷ c ∷ d ∷ e ∷ f ∷ g ∷ more) = some (record {
  packet_number = a;
  timestamp = b;
  source = c;
  destination = d;
  protocol = e;
  length = f;
  summary = g;
})
packet_of_parts _ = none

unfoldable pub packet_of_line : Text → Option PacketSummary
unfolding packet_of_parts
packet_of_line line =
    if is_empty (trim_space line) then none else packet_of_parts (split_n 6 b'|' line)

with_packet : Option PacketSummary → List PacketSummary → List PacketSummary
with_packet none packets = packets
with_packet (some p) packets = p ∷ packets

-- The loop over the lines
unfoldable pub packets_of_lines : List Text → List PacketSummary
unfolding packet_of_line with_packet
packets_of_lines [] = []
packets_of_lines (line ∷ lines) = with_packet (packet_of_line line) (packets_of_lines lines)

-- `ViewPackets`, of what `GetAnalysis` answers, whether the file is there, and TShark's output
unfoldable pub view_packets :
    Response Analysis → (Text → Bool) → (Text → Option Text) → Response (List PacketSummary)
unfolding packets_of_lines split_lines
view_packets (ok analysis) is_there tshark =
    if is_there analysis.pcap_path
    then (elim (tshark analysis.pcap_path) [
      | none ↦ fails 500 (codes "Failed to read packets")
      | some out ↦ ok (packets_of_lines (split_lines out))
    ])
    else fails 404 (codes "PCAP file not found on disk")
view_packets (fails status text) is_there tshark = fails status text
view_packets panics is_there tshark = panics

-- The line that TShark prints of a packet, with "|" between the fields
unfoldable pub line_of_packet : PacketSummary → Text
line_of_packet p =
    p.packet_number
    ++ b'|'
      ∷ (p.timestamp
          ++ b'|'
            ∷ (p.source
                ++ b'|'
                  ∷ (p.destination
                      ++ b'|' ∷ (p.protocol ++ b'|' ∷ (p.length ++ b'|' ∷ p.summary)))))

-- No separator in the field
abbrev pub IsField : Text → Type 0
IsField field = has_byte b'|' field ≡ false

split_n-field :
    (n : ℕ) (field rest : Text)
    → IsField field
    → split_n (suc n) b'|' (field ++ b'|' ∷ rest) ≡ field ∷ split_n n b'|' rest
unfolding split_n
split_n-field n field rest h = rw (cut_at-append b'|' field rest h) refl

-- A printed packet is read back, with a summary that may hold separators itself, where the line is not
-- blank.
pub packet_of_line-line_of_packet :
    (p : PacketSummary)
    → IsField p.packet_number
    → IsField p.timestamp
    → IsField p.source
    → IsField p.destination
    → IsField p.protocol
    → IsField p.length
    → is_empty (trim_space (line_of_packet p)) ≡ false
    → packet_of_line (line_of_packet p) ≡ some p
unfolding packet_of_line packet_of_parts split_n line_of_packet
packet_of_line-line_of_packet p a b c d e f g = rw g (
    ap packet_of_parts (
      split_n-field 5 _ _ a
      ∙ ap (λ r. p.packet_number ∷ r)
          (split_n-field 4 _ _ b
            ∙ ap (λ r. p.timestamp ∷ r)
                (split_n-field 3 _ _ c
                  ∙ ap (λ r. p.source ∷ r)
                      (split_n-field 2 _ _ d
                        ∙ ap (λ r. p.destination ∷ r)
                            (split_n-field 1 _ _ e
                              ∙ ap (λ r. p.protocol ∷ r) (split_n-field 0 _ _ f)))))))
