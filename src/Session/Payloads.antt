-- ===== src/Session/Payloads.antt =====
-- What the payload fields of a stream of backend/internal/session/reassembler.go have to do with its chunks.
use secure_mail_scope_sih.Common.{
  ◌≡◌, Bool, true, false, not, List, [], ◌∷◌, ◌++◌, arith, if◌then◌else◌, length, length-append,
  Bytes,
}
use mathlib.Core.List.{append-nil, append_assoc}
use secure_mail_scope_sih.Session.Reassembler.{
  PayloadChunk, ReassembledStream, Reassembly, add_reassembly, add_reassemblies,
}

same_side : Bool → Bool → Bool
same_side true b = b
same_side false b = not b

-- The bytes of the chunks of one side, in order.
unfoldable pub side_bytes : Bool → List PayloadChunk → Bytes
unfolding same_side
side_bytes side [] = []
side_bytes side (c ∷ cs) =
    (if same_side side c.is_client then c.payload else []) ++ side_bytes side cs

-- The bytes of all chunks, in order.
unfoldable pub all_bytes : List PayloadChunk → Bytes
all_bytes [] = []
all_bytes (c ∷ cs) = c.payload ++ all_bytes cs

-- The payloads are those of the chunks, and the counters are their lengths.
pub record IsCounted (s : ReassembledStream) : Type 0 where
  pub client_counted : s.client_bytes ≡ length s.client_payload
  pub server_counted : s.server_bytes ≡ length s.server_payload
  pub client_side : s.client_payload ≡ side_bytes true s.chunks
  pub server_side : s.server_payload ≡ side_bytes false s.chunks
  pub whole : s.full_payload ≡ all_bytes s.chunks

side_bytes-snoc :
    (side : Bool) (cs : List PayloadChunk) (c : PayloadChunk)
    → side_bytes side (cs ++ c ∷ [])
      ≡ side_bytes side cs ++ (if same_side side c.is_client then c.payload else [])
unfolding side_bytes
side_bytes-snoc side [] c = append-nil _
side_bytes-snoc side (x ∷ cs) c = simp (side_bytes-snoc side cs c, append_assoc)

all_bytes-snoc :
    (cs : List PayloadChunk) (c : PayloadChunk)
    → all_bytes (cs ++ c ∷ []) ≡ all_bytes cs ++ c.payload
unfolding all_bytes
all_bytes-snoc [] c = append-nil _
all_bytes-snoc (x ∷ cs) c = simp (all_bytes-snoc cs c, append_assoc)

add_reassembly-IsCounted :
    (is_client : Bool) (r : Reassembly) (s : ReassembledStream)
    → IsCounted s
    → IsCounted (add_reassembly is_client r s)
unfolding add_reassembly same_side
add_reassembly-IsCounted is_client r s h =
    let c : PayloadChunk = record {
      timestamp = r.seen;
      is_client = is_client;
      payload = r.payload;
    } in
    ground (
      arith,
      side_bytes-snoc true s.chunks c,
      side_bytes-snoc false s.chunks c,
      all_bytes-snoc s.chunks c,
      length-append s.client_payload r.payload,
      length-append s.server_payload r.payload,
      append-nil s.client_payload,
      append-nil s.server_payload,
    )

pub add_reassemblies-IsCounted :
    (is_client : Bool) (rs : List Reassembly) (s : ReassembledStream)
    → IsCounted s
    → IsCounted (add_reassemblies is_client rs s)
unfolding add_reassemblies
add_reassemblies-IsCounted is_client [] s h = h
add_reassemblies-IsCounted is_client (r ∷ rs) s h =
    add_reassemblies-IsCounted is_client rs (add_reassembly is_client r s)
      (add_reassembly-IsCounted is_client r s h)
