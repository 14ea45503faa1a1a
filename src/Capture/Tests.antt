-- ===== src/Capture/Tests.antt =====
-- Runs of crates/capture on small inputs, and instances of its theorems.
use arc_twitch_widget.Prelude.{◌≤◌, List, ℕ, ◌≡◌, ◌↔◌, refl, true, [], ◌∷◌, Option, none, some}
use arc_twitch_widget.Prelude.Int.{pos}
use arc_twitch_widget.Prelude.Run.{Run, ret, index, slice, Returns}
use arc_twitch_widget.Text.{Text, codes}
use arc_twitch_widget.Text.Utf8.{Bytes}
use arc_twitch_widget.Capture.Packet.{
  TcpSegment, parse_ipv4_tcp, parse_tcp, segment_at, read16, read32, read_ip, ip_end,
}
use arc_twitch_widget.Capture.Packet.Bounds.{InPacket, parse_ipv4_tcp-Returns}
use arc_twitch_widget.Capture.Watchdog.{
  Reading, no_inbound, no_handshake, watchdog_new, warn_inbound, warn_handshake, evaluate, watch,
}
use arc_twitch_widget.Capture.Watchdog.Once.{times_inbound, times_handshake, times-watch}
use arc_twitch_widget.Capture.Sni.{tls_client_hello_sni}
use arc_twitch_widget.Capture.Sni.Loops.{IsPlain}
use arc_twitch_widget.Capture.Sni.Bounds.{tls_client_hello_sni-Returns}
use arc_twitch_widget.Capture.Host.{is_allowed_host}
use arc_twitch_widget.Capture.Host.Allowed.{IsApiHost, is_allowed_host-iff-IsApiHost}

-- A packet of an HTTPS connection with two bytes of payload and two of padding.
abbrev packet : Bytes
packet =
    0x45 ∷ 0 ∷ 0 ∷ 42 ∷ 0 ∷ 0 ∷ 0 ∷ 0 ∷ 64 ∷ 6 ∷ 0 ∷ 0 ∷ 10 ∷ 0 ∷ 0 ∷ 1 ∷ 10 ∷ 0 ∷ 0 ∷ 2 ∷ 1 ∷ 187
    ∷ 4 ∷ 210 ∷ 0 ∷ 0 ∷ 0 ∷ 5 ∷ 0 ∷ 0 ∷ 0 ∷ 9 ∷ 0x50 ∷ 0x12 ∷ 0 ∷ 0 ∷ 0 ∷ 0 ∷ 0 ∷ 0 ∷ 22 ∷ 3 ∷ 0 ∷ 0
    ∷ []

abbrev seen : Run (Option TcpSegment) → Option (ℕ × ℕ × Bytes)
seen (ret (some s)) = some (s.src_port, s.seq, s.payload)
seen r = none

https_packet : seen (parse_ipv4_tcp 1 (pos 0) packet) ≡ some (443, 5, 22 ∷ 3 ∷ [])
unfolding parse_ipv4_tcp parse_tcp segment_at read16 read32 read_ip ip_end index slice
https_packet = refl

parse_ipv4_tcp-Returns_example : Returns (InPacket packet) (parse_ipv4_tcp 1 (pos 0) packet)
parse_ipv4_tcp-Returns_example = parse_ipv4_tcp-Returns 1 (pos 0) packet

abbrev host : Text
host = codes "API-gateway.eu.es-pio.net:443"

is_allowed_host-iff-IsApiHost_example : (is_allowed_host host ≡ true) ↔ IsApiHost host
is_allowed_host-iff-IsApiHost_example = is_allowed_host-iff-IsApiHost host

-- Packets without HTTPS, then HTTPS without a handshake, each seen twice.
abbrev readings : List Reading
readings =
    record { elapsed = 60000000; packets_seen = 5; tcp_443_to_client = 0; tls_client_hellos = 0 }
    ∷ record { elapsed = 61000000; packets_seen = 9; tcp_443_to_client = 0; tls_client_hellos = 0 }
    ∷ record { elapsed = 62000000; packets_seen = 12; tcp_443_to_client = 3; tls_client_hellos = 0 }
    ∷ record { elapsed = 63000000; packets_seen = 15; tcp_443_to_client = 4; tls_client_hellos = 0 }
    ∷ []

reported : watch readings watchdog_new ≡ no_inbound ∷ no_handshake ∷ []
unfolding watch evaluate warn_inbound warn_handshake watchdog_new
reported = refl

times-watch_example :
    (times_inbound (watch readings watchdog_new) ≤ 1)
    × (times_handshake (watch readings watchdog_new) ≤ 1)
times-watch_example = times-watch readings

-- The start of a record of a hello that is cut off.
tls_client_hello_sni-Returns_example :
    Returns IsPlain (tls_client_hello_sni (22 ∷ 3 ∷ 1 ∷ 0 ∷ 4 ∷ 1 ∷ 0 ∷ 0 ∷ 0 ∷ []))
tls_client_hello_sni-Returns_example =
    tls_client_hello_sni-Returns (22 ∷ 3 ∷ 1 ∷ 0 ∷ 4 ∷ 1 ∷ 0 ∷ 0 ∷ 0 ∷ [])
