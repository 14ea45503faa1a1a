-- ===== src/Capture/Packet.antt =====
-- crates/capture/src/packet.rs: an IPv4 packet is parsed to a TCP segment of an HTTPS connection.
pub mod Bounds
use arc_twitch_widget.Prelude.{
  ℕ, ◌+◌, ◌*◌, ◌/◌, ◌%◌, Bool, true, false, not, ◌&&◌, ◌||◌, Option, none, some, leb, ltb, ◌==◌,
  if◌then◌else◌, length, min,
}
use arc_twitch_widget.Prelude.Int.{ℤ}
use arc_twitch_widget.Prelude.Run.{Run, ret, ◌>>=◌, index, slice}
use arc_twitch_widget.Prelude.Word.{be16, be32}
use arc_twitch_widget.Text.Utf8.{Bytes}

-- The four octets of an `Ipv4Addr`.
abbrev pub IpAddr : Type 0
IpAddr = ℕ × ℕ × ℕ × ℕ

pub record TcpFlags : Type 0 where
  pub syn : Bool
  pub ack : Bool
  pub fin : Bool
  pub rst : Bool

pub record TcpSegment : Type 0 where
  pub src_ip : IpAddr
  pub dst_ip : IpAddr
  pub src_port : ℕ
  pub dst_port : ℕ
  pub seq : ℕ
  pub ack : ℕ
  pub flags : TcpFlags
  pub payload : Bytes
  pub frame_number : ℕ
  pub timestamp_us : ℤ

-- `bits & mask != 0` for the mask of one bit, 2 ^ k.
abbrev pub has_bit : ℕ → ℕ → Bool
has_bit bits mask = bits / mask % 2 == 1

unfoldable pub flags_of : ℕ → TcpFlags
flags_of bits = record {
  syn = has_bit bits 0x02;
  ack = has_bit bits 0x10;
  fin = has_bit bits 0x01;
  rst = has_bit bits 0x04;
}

unfoldable pub read16 : Bytes → ℕ → Run ℕ
read16 bytes i = do a ← index bytes i; b ← index bytes (i + 1); ret (be16 a b)

unfoldable pub read32 : Bytes → ℕ → Run ℕ
read32 bytes i = do
  a ← index bytes i
  b ← index bytes (i + 1)
  c ← index bytes (i + 2)
  d ← index bytes (i + 3)
  ret (be32 a b c d)

unfoldable pub read_ip : Bytes → ℕ → Run IpAddr
read_ip bytes i = do
  a ← index bytes i
  b ← index bytes (i + 1)
  c ← index bytes (i + 2)
  d ← index bytes (i + 3)
  ret (a, b, c, d)

-- The end of the packet: the declared length, if it makes sense, and never past the bytes.
unfoldable pub ip_end : ℕ → ℕ → ℕ → ℕ
ip_end declared_len ip_header_len len =
    if leb ip_header_len declared_len then min declared_len len else len

-- The segment of a packet whose TCP header starts at `tcp`.
unfoldable pub segment_at : ℕ → ℤ → Bytes → ℕ → ℕ → ℕ → Run (Option TcpSegment)
segment_at frame_number timestamp_us bytes tcp tcp_header_len ip_len = do
  src_port ← read16 bytes tcp
  dst_port ← read16 bytes (tcp + 2)
  if not (src_port == 443) && not (dst_port == 443) then ret none else do
    seq ← read32 bytes (tcp + 4)
    ack ← read32 bytes (tcp + 8)
    bits ← index bytes (tcp + 13)
    src_ip ← read_ip bytes 12
    dst_ip ← read_ip bytes 16
    payload ← slice bytes (tcp + tcp_header_len) ip_len
    ret (
        some (record {
          src_ip = src_ip;
          dst_ip = dst_ip;
          src_port = src_port;
          dst_port = dst_port;
          seq = seq;
          ack = ack;
          flags = flags_of bits;
          payload = payload;
          frame_number = frame_number;
          timestamp_us = timestamp_us;
        }))

-- Behind the checks of the IP header.
unfoldable pub parse_tcp : ℕ → ℤ → Bytes → ℕ → Run (Option TcpSegment)
parse_tcp frame_number timestamp_us bytes ip_header_len = do
  declared_len ← read16 bytes 2
  offset ← index bytes (ip_header_len + 12)
  let ip_len = ip_end declared_len ip_header_len (length bytes)
  let tcp_header_len = offset / 16 * 4
  if ltb tcp_header_len 20 || ltb ip_len (ip_header_len + tcp_header_len)
      then ret none
      else segment_at frame_number timestamp_us bytes ip_header_len tcp_header_len ip_len

unfoldable pub parse_ipv4_tcp : ℕ → ℤ → Bytes → Run (Option TcpSegment)
parse_ipv4_tcp frame_number timestamp_us bytes = if ltb (length bytes) 40 then ret none else do
  version ← index bytes 0
  if not (version / 16 == 4) then ret none else do
    protocol ← index bytes 9
    if not (protocol == 6) then ret none else do
      let ip_header_len = version % 16 * 4
      if ltb ip_header_len 20 || ltb (length bytes) (ip_header_len + 20)
          then ret none
          else parse_tcp frame_number timestamp_us bytes ip_header_len
