-- ===== src/Inspect/PerStream.antt =====
-- `parseOutput` of backend/internal/tlsinspect/inspector.go on captures with several streams.
use secure_mail_scope_sih.Common.{
  ℕ, ◌≡◌, refl, sym, ap, ◌∙◌, inl, inr, some, List, [], ◌∷◌, ◌==◌, if◌then◌else◌, ==_iff,
  Bool-cases, nat_key, lookup, lookup-insert,
}
use secure_mail_scope_sih.Inspect.Aggregate.{
  Layers, StreamMap, first_or, scan_int, updated_result, add_packet, add_packets,
}

-- The stream that a packet belongs to.
abbrev pub stream_of : Layers → ℕ
stream_of l = scan_int (first_or [] l.tcp_stream)

-- The packets of one stream.
unfoldable pub packets_of : ℕ → List Layers → List Layers
packets_of stream_id [] = []
packets_of stream_id (l ∷ ls) =
    let rest = packets_of stream_id ls in if stream_of l == stream_id then l ∷ rest else rest

lookup-add_packet :
    (stream_id : ℕ) (l : Layers) (m : StreamMap)
    → lookup stream_id (add_packet l m) ≡ (
        if stream_of l == stream_id
        then some (updated_result stream_id l (lookup stream_id m))
        else lookup stream_id m)
unfolding add_packet
lookup-add_packet stream_id l m =
    let v = updated_result (stream_of l) l (lookup (stream_of l) m) in
    lookup-insert (stream_of l) stream_id v m ∙ elim (Bool-cases (stream_of l == stream_id)) [
      | inl same ↦ rw same (
          ap (λ k. some (updated_result k l (lookup k m)))
            ((==_iff (stream_of l) stream_id).0 same))
      | inr other ↦ rw other refl
    ]

-- What a stream's result is depends on its result before alone.
add_packets-lookup :
    (stream_id : ℕ) (ls : List Layers) (m n : StreamMap)
    → lookup stream_id m ≡ lookup stream_id n
    → lookup stream_id (add_packets ls m)
      ≡ lookup stream_id (add_packets (packets_of stream_id ls) n)
unfolding add_packets packets_of
add_packets-lookup stream_id [] m n e = e
add_packets-lookup stream_id (l ∷ ls) m n e = elim (Bool-cases (stream_of l == stream_id)) [
  | inl same ↦ rw same (
      add_packets-lookup stream_id ls (add_packet l m) (add_packet l n) (
        lookup-add_packet stream_id l m
        ∙ rw (same, e) (sym (lookup-add_packet stream_id l n ∙ rw same refl))))
  | inr other ↦ rw other (
      add_packets-lookup stream_id ls (add_packet l m) n
        (lookup-add_packet stream_id l m ∙ rw other e))
]

-- The result of a stream is the one that its own packets give, in their order: the packets of the other
-- streams of the capture play no part.
pub lookup-packets_of :
    (stream_id : ℕ) (ls : List Layers)
    → lookup stream_id (add_packets ls [])
      ≡ lookup stream_id (add_packets (packets_of stream_id ls) [])
lookup-packets_of stream_id ls = add_packets-lookup stream_id ls [] [] refl
