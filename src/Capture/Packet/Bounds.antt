-- ===== src/Capture/Packet/Bounds.antt =====
-- The packet parser stays inside the packet, and takes the payload from where the headers end.
use arc_twitch_widget.Prelude.{
  ℕ, ◌+◌, ◌-◌, ◌*◌, ◌/◌, ◌%◌, ◌≤◌, ◌<◌, ◌≡◌, refl, not, ◌&&◌, ◌||◌, Option, none, some, ltb, leb,
  ◌==◌, ◌⊎◌, min, length, take, drop, unwrap_or, get_elem?, if◌then◌else◌, arith,
}
use arc_twitch_widget.Prelude.Int.{ℤ}
use arc_twitch_widget.Prelude.Run.{
  ret, index, get_elem?-lt, Returns, Returns-ret, Returns-if, Returns-slice, Returns-step,
}
use arc_twitch_widget.Prelude.Word.{be16, be32}
use arc_twitch_widget.Text.Utf8.{Bytes}
use arc_twitch_widget.Capture.Packet.{
  IpAddr, TcpSegment, read16, read32, read_ip, ip_end, segment_at, parse_tcp, parse_ipv4_tcp,
}

-- The byte at an offset, and the numbers that start there.
abbrev byte : Bytes → ℕ → ℕ
byte bytes i = unwrap_or (get_elem? bytes i) 0

abbrev word : Bytes → ℕ → ℕ
word bytes i = be16 (byte bytes i) (byte bytes (i + 1))

abbrev long : Bytes → ℕ → ℕ
long bytes i = be32 (byte bytes i) (byte bytes (i + 1)) (byte bytes (i + 2)) (byte bytes (i + 3))

abbrev address : Bytes → ℕ → IpAddr
address bytes i = (byte bytes i, byte bytes (i + 1), byte bytes (i + 2), byte bytes (i + 3))

-- The length of the IP header, from the low half of the first byte, in words of four bytes.
abbrev pub ip_header : Bytes → ℕ
ip_header bytes = byte bytes 0 % 16 * 4

-- The length of the TCP header, options included, from the high half of its byte 12.
abbrev pub tcp_header : Bytes → ℕ
tcp_header bytes = byte bytes (ip_header bytes + 12) / 16 * 4

-- The end that the IP header declares, where it makes sense, and never past the bytes.
abbrev pub packet_end : Bytes → ℕ
packet_end bytes =
    if leb (ip_header bytes) (word bytes 2) then min (word bytes 2) (length bytes) else length bytes

-- The segment is the one that the bytes hold: its addresses, ports and numbers stand where the headers
-- have them, one of the ports is 443, and its payload is what lies between the end of the two headers
-- and the end of the packet.
pub record IsSegment (bytes : Bytes) (s : TcpSegment) : Type 0 where
  pub src_ip : s.src_ip ≡ address bytes 12
  pub dst_ip : s.dst_ip ≡ address bytes 16
  pub src_port : s.src_port ≡ word bytes (ip_header bytes)
  pub dst_port : s.dst_port ≡ word bytes (ip_header bytes + 2)
  pub seq : s.seq ≡ long bytes (ip_header bytes + 4)
  pub ack : s.ack ≡ long bytes (ip_header bytes + 8)
  pub https : (s.src_port ≡ 443) ⊎ (s.dst_port ≡ 443)
  pub headers : (20 ≤ ip_header bytes) × (20 ≤ tcp_header bytes)
  pub order : ip_header bytes + tcp_header bytes ≤ packet_end bytes
  pub inside : packet_end bytes ≤ length bytes
  pub payload :
      s.payload
      ≡ take
          (packet_end bytes - (ip_header bytes + tcp_header bytes))
          (drop (ip_header bytes + tcp_header bytes) bytes)

abbrev pub InPacket : Bytes → Option TcpSegment → Type 0
InPacket bytes none = Unit
InPacket bytes (some s) = IsSegment bytes s

index-byte : (bytes : Bytes) (i : ℕ) → i < length bytes → index bytes i ≡ ret (byte bytes i)
unfolding index
index-byte bytes i h = let (a, e) = get_elem?-lt bytes i h in rw e refl

read16-word : (bytes : Bytes) (i : ℕ) → i + 1 < length bytes → read16 bytes i ≡ ret (word bytes i)
unfolding read16
read16-word bytes i h = rw (index-byte bytes i (omega arith), index-byte bytes (i + 1) h) refl

read32-long : (bytes : Bytes) (i : ℕ) → i + 3 < length bytes → read32 bytes i ≡ ret (long bytes i)
unfolding read32
read32-long bytes i h =
    rw
      (
        index-byte bytes i (omega arith),
        index-byte bytes (i + 1) (omega arith),
        index-byte bytes (i + 2) (omega arith),
        index-byte bytes (i + 3) h,
      )
      refl

read_ip-address :
    (bytes : Bytes) (i : ℕ) → i + 3 < length bytes → read_ip bytes i ≡ ret (address bytes i)
unfolding read_ip
read_ip-address bytes i h =
    rw
      (
        index-byte bytes i (omega arith),
        index-byte bytes (i + 1) (omega arith),
        index-byte bytes (i + 2) (omega arith),
        index-byte bytes (i + 3) h,
      )
      refl

module _ (frame_number : ℕ) (timestamp_us : ℤ) (bytes : Bytes) where
  segment_at-Returns :
      20 ≤ tcp_header bytes
      → 20 ≤ ip_header bytes
      → ip_header bytes + tcp_header bytes ≤ packet_end bytes
      → packet_end bytes ≤ length bytes
      → Returns (InPacket bytes) (
          segment_at frame_number timestamp_us bytes
            (ip_header bytes)
            (tcp_header bytes)
            (packet_end bytes))
  unfolding segment_at
  segment_at-Returns h1 h2 h3 h4 =
      let tcp = ip_header bytes in
      Returns-step _ _ _ (read16-word bytes tcp (omega arith)) (
        Returns-step _ _ _ (read16-word bytes (tcp + 2) (omega arith)) (
          Returns-if (not (word bytes tcp == 443) && not (word bytes (tcp + 2) == 443)) _ _
            (λ other. Returns-ret none tt)
            λ https. Returns-step _ _ _ (read32-long bytes (tcp + 4) (omega arith)) (
              Returns-step _ _ _ (read32-long bytes (tcp + 8) (omega arith)) (
                Returns-step _ _ _ (index-byte bytes (tcp + 13) (omega arith)) (
                  Returns-step _ _ _ (read_ip-address bytes 12 (omega arith)) (
                    Returns-step _ _ _ (read_ip-address bytes 16 (omega arith)) (
                      Returns-slice bytes (tcp + tcp_header bytes) (packet_end bytes) _ h3 h4 (
                        Returns-ret _ (record {
                          src_ip = refl;
                          dst_ip = refl;
                          src_port = refl;
                          dst_port = refl;
                          seq = refl;
                          ack = refl;
                          https = ground arith;
                          headers = (h2, h1);
                          order = h3;
                          inside = h4;
                          payload = refl;
                        })))))))))

  parse_tcp-Returns :
      20 ≤ ip_header bytes
      → ip_header bytes + 20 ≤ length bytes
      → Returns (InPacket bytes) (parse_tcp frame_number timestamp_us bytes (ip_header bytes))
  unfolding parse_tcp ip_end
  parse_tcp-Returns h1 h2 = Returns-step _ _ _ (read16-word bytes 2 (omega arith)) (
      Returns-step _ _ _ (index-byte bytes (ip_header bytes + 12) (omega arith)) (
        Returns-if _ _ _ (λ bad. Returns-ret none tt)
          λ good. segment_at-Returns (ground arith) h1 (ground arith) (ground arith)))

  -- Whatever the bytes are, the parser returns, with no index out of range. A segment that it finds is
  -- the one that the bytes hold: its addresses, ports and numbers stand where the headers have them,
  -- one of the ports is 443, and its payload is all of what lies between the end of the two headers,
  -- their options included, and the end of the packet, which is inside the bytes.
  pub parse_ipv4_tcp-Returns :
      Returns (InPacket bytes) (parse_ipv4_tcp frame_number timestamp_us bytes)
  unfolding parse_ipv4_tcp
  parse_ipv4_tcp-Returns =
      Returns-if (ltb (length bytes) 40) _ _ (λ short. Returns-ret none tt)
        λ long_enough.
          let size : 40 ≤ length bytes = ground arith in
          Returns-step _ _ _ (index-byte bytes 0 (omega arith)) (
            Returns-if (not (byte bytes 0 / 16 == 4)) _ _ (λ other. Returns-ret none tt)
              λ ipv4. Returns-step _ _ _ (index-byte bytes 9 (omega arith)) (
                Returns-if (not (byte bytes 9 == 6)) _ _ (λ other. Returns-ret none tt)
                  λ tcp.
                    Returns-if
                      (ltb (ip_header bytes) 20 || ltb (length bytes) (ip_header bytes + 20)) _ _
                      (λ bad. Returns-ret none tt)
                      λ good. parse_tcp-Returns (ground arith) (ground arith)))
