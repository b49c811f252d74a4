-- ===== src/Capture/Reader.antt =====
-- `ReadPackets` and `formatTCPFlags` of backend/internal/capture/reader.go. gopacket decodes the packets:
-- a packet is the layers that it found, and one without an IP or a TCP layer is counted only.
use secure_mail_scope_sih.Common.{
  ℕ, ◌+◌, ◌*◌, ◌≡◌, refl, Bool, true, false, not, ◌&&◌, Option, none, some, List, [], ◌∷◌, ◌++◌,
  leb, ◌==◌, if◌then◌else◌, length, drop, Text, codes, text_eq, Bytes, byte_at,
}

-- `layers.TCP`
pub record Tcp : Type 0 where
  pub src_port : ℕ
  pub dst_port : ℕ
  pub seq : ℕ
  pub ack_number : ℕ
  pub syn : Bool
  pub ack : Bool
  pub fin : Bool
  pub rst : Bool
  pub psh : Bool
  pub urg : Bool
  pub ece : Bool
  pub cwr : Bool
  pub ns : Bool
  pub payload : Bytes

-- The layers of a decoded packet: the addresses of IPv4 and of IPv6, and TCP
pub record Decoded : Type 0 where
  pub timestamp : ℕ
  pub length : ℕ
  pub ip4 : Option (Text × Text)
  pub ip6 : Option (Text × Text)
  pub tcp : Option Tcp

pub record PacketMetadata : Type 0 where
  pub timestamp : ℕ
  pub src_ip : Text
  pub dst_ip : Text
  pub src_port : ℕ
  pub dst_port : ℕ
  pub length : ℕ
  pub tcp_seq : ℕ
  pub tcp_ack : ℕ
  pub tcp_flags : Text
  pub payload : Bytes

flag : Bool → Text → Text
flag b text = if b then text else []

-- `formatTCPFlags`
unfoldable pub format_tcp_flags : Tcp → Text
unfolding flag
format_tcp_flags t =
    flag t.syn (codes "SYN ")
    ++ (flag t.ack (codes "ACK ")
        ++ (flag t.fin (codes "FIN ")
            ++ (flag t.rst (codes "RST ")
                ++ (flag t.psh (codes "PSH ") ++ flag t.urg (codes "URG ")))))

-- The addresses, of IPv4 before IPv6
addresses : Decoded → Option (Text × Text)
addresses p = elim p.ip4 [ some a ↦ some a | none ↦ p.ip6 ]

metadata_of : Decoded → Option (Text × Text) → Option Tcp → Option PacketMetadata
metadata_of p none tcp = none
metadata_of p (some (src, dst)) none = none
metadata_of p (some (src, dst)) (some t) = some (record {
  timestamp = p.timestamp;
  src_ip = src;
  dst_ip = dst;
  src_port = t.src_port;
  dst_port = t.dst_port;
  length = p.length;
  tcp_seq = t.seq;
  tcp_ack = t.ack_number;
  tcp_flags = format_tcp_flags t;
  payload = t.payload;
})

-- What `onPacket` is called with for a packet, if it is called
unfoldable pub packet_metadata : Decoded → Option PacketMetadata
unfolding addresses metadata_of
packet_metadata p = metadata_of p (addresses p) p.tcp

-- A packet of the link type 20, of which gopacket is given the IP packet behind the SLL2 header
pub data Sll2 : Type 0 where
  as_ip4 as_ip6 : Bytes → Sll2
  as_linked : Bytes → Sll2

-- The branch of `getNextPacket` for the link type 20
unfoldable pub sll2_packet : Bytes → Sll2
sll2_packet frame =
    let protocol_type = byte_at frame 0 * 256 + byte_at frame 1 in
    if leb 20 (length frame)
    then (if protocol_type == 2048
        then as_ip4 (drop 20 frame)
        else if protocol_type == 34525
        then as_ip6 (drop 20 frame)
        else as_linked frame)
    else as_linked frame

on_metadata {ℓ} : {S : Type ℓ} → (PacketMetadata → S → S) → Option PacketMetadata → S → S
on_metadata on_packet none s = s
on_metadata on_packet (some m) s = on_packet m s

-- The loop of `ReadPackets`, with a callback that does not fail, as the pipeline's: the number of
-- packets, and the state behind the callbacks.
unfoldable pub read_packets {ℓ} :
    {S : Type ℓ} → (PacketMetadata → S → S) → List Decoded → ℕ → S → ℕ × S
unfolding packet_metadata on_metadata
read_packets on_packet [] count s = (count, s)
read_packets on_packet (p ∷ ps) count s =
    read_packets on_packet ps (count + 1) (on_metadata on_packet (packet_metadata p) s)

flags :
    (a b c d e f : Bool)
    → text_eq
        (flag a (codes "SYN ")
          ++ (flag b (codes "ACK ")
              ++ (flag c (codes "FIN ")
                  ++ (flag d (codes "RST ") ++ (flag e (codes "PSH ") ++ flag f (codes "URG "))))))
        (codes "SYN ")
      ≡ (a && (not b && (not c && (not d && (not e && not f)))))
unfolding flag codes text_eq
flags true false false false false false = refl
flags true true c d e f = refl
flags true false true d e f = refl
flags true false false true e f = refl
flags true false false false true f = refl
flags true false false false false true = refl
flags false false false false false false = refl
flags false true c d e f = refl
flags false false true d e f = refl
flags false false false true e f = refl
flags false false false false true f = refl
flags false false false false false true = refl

-- The flags' text is "SYN ", by which the reassembler takes the sender for the client, exactly for a packet
-- that has the flag SYN and none of ACK, FIN, RST, PSH and URG. ECE, CWR and NS are not looked at: whatever
-- they are set to, the text stays the same.
pub format_tcp_flags_iff :
    (t : Tcp) (e c n : Bool)
    → (text_eq (format_tcp_flags t) (codes "SYN ")
        ≡ (t.syn && (not t.ack && (not t.fin && (not t.rst && (not t.psh && not t.urg))))))
      × (format_tcp_flags (record t { ece = e; cwr = c; ns = n }) ≡ format_tcp_flags t)
unfolding format_tcp_flags
format_tcp_flags_iff t e c n = (flags t.syn t.ack t.fin t.rst t.psh t.urg, refl)
