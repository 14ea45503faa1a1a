-- ===== src/Capture/Watchdog/Once.antt =====
-- The watchdog reports each of its two problems at most once.
use arc_twitch_widget.Prelude.{
  ℕ, ◌+◌, ◌≤◌, ◌≡◌, Bool, true, false, not, ◌&&◌, List, [], ◌∷◌, ◌++◌, if◌then◌else◌, ltb, ◌==◌,
  arith,
}
use arc_twitch_widget.Capture.Watchdog.{
  CaptureWatchdog, Warning, no_inbound, no_handshake, Reading, grace, watchdog_new, warn_inbound,
  warn_handshake, evaluate, watch,
}

abbrev pub times_inbound : List Warning → ℕ
times_inbound [] = 0
times_inbound (no_inbound ∷ ws) = times_inbound ws + 1
times_inbound (no_handshake ∷ ws) = times_inbound ws

abbrev pub times_handshake : List Warning → ℕ
times_handshake [] = 0
times_handshake (no_inbound ∷ ws) = times_handshake ws
times_handshake (no_handshake ∷ ws) = times_handshake ws + 1

abbrev said : Bool → ℕ
said b = if b then 1 else 0

said_le : (b : Bool) → 0 + said b ≤ 1
said_le true = omega arith
said_le false = omega arith

times-append :
    (xs ys : List Warning)
    → (times_inbound (xs ++ ys) ≡ times_inbound xs + times_inbound ys)
      × (times_handshake (xs ++ ys) ≡ times_handshake xs + times_handshake ys)
times-append [] ys = (omega arith, omega arith)
times-append (no_inbound ∷ xs) ys = let e = times-append xs ys in (omega arith, omega arith)
times-append (no_handshake ∷ xs) ys = let e = times-append xs ys in (omega arith, omega arith)

-- A message is said and noted.
abbrev Noted : CaptureWatchdog → CaptureWatchdog × List Warning → Type 0
Noted w (w', ws) =
    (times_inbound ws + said w.warned_no_inbound ≡ said w'.warned_no_inbound)
    × (times_handshake ws + said w.warned_no_handshake ≡ said w'.warned_no_handshake)

evaluate-Noted : (r : Reading) (w : CaptureWatchdog) → Noted w (evaluate r w)
unfolding evaluate warn_inbound warn_handshake
evaluate-Noted r w =
    of (ltb r.elapsed grace) (ltb 0 r.packets_seen && r.tcp_443_to_client == 0)
      (ltb 0 r.tcp_443_to_client && r.tls_client_hellos == 0) w.warned_no_inbound
      w.warned_no_handshake
  where
    of :
        (early wrong late b c : Bool)
        → Noted
            (record { warned_no_inbound = b; warned_no_handshake = c })
            (if early
              then (record { warned_no_inbound = b; warned_no_handshake = c }, [])
              else if wrong
              then warn_inbound (record { warned_no_inbound = b; warned_no_handshake = c })
              else if late && not c
              then (record { warned_no_inbound = b; warned_no_handshake = true }, no_handshake ∷ [])
              else (record { warned_no_inbound = b; warned_no_handshake = c }, []))
    of true wrong late b c = (omega arith, omega arith)
    of false true late true c = (omega arith, omega arith)
    of false true late false c = (omega arith, omega arith)
    of false false true b true = (omega arith, omega arith)
    of false false true b false = (omega arith, omega arith)
    of false false false b c = (omega arith, omega arith)

watch-times :
    (rs : List Reading) (w : CaptureWatchdog)
    → (times_inbound (watch rs w) + said w.warned_no_inbound ≤ 1)
      × (times_handshake (watch rs w) + said w.warned_no_handshake ≤ 1)
unfolding watch
watch-times [] w = (said_le w.warned_no_inbound, said_le w.warned_no_handshake)
watch-times (r ∷ rs) w =
    let (w', ws) = evaluate r w in
    let noted = evaluate-Noted r w in
    let later = watch-times rs (evaluate r w).0 in
    let both = times-append (evaluate r w).1 (watch rs (evaluate r w).0) in
    (omega arith, omega arith)

-- However often the capture is looked at, and whatever the counters are, each of the two problems is
-- reported at most once.
pub times-watch :
    (rs : List Reading)
    → (times_inbound (watch rs watchdog_new) ≤ 1) × (times_handshake (watch rs watchdog_new) ≤ 1)
unfolding watchdog_new
times-watch rs = let h = watch-times rs watchdog_new in (omega arith, omega arith)
