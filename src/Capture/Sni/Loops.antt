-- ===== src/Capture/Sni/Loops.antt =====
-- The two loops of the search for a server name end.
use arc_twitch_widget.Prelude.{
  ℕ, zero, suc, ◌+◌, ◌≤◌, ◌<◌, ◌≡◌, true, false, not, ◌&&◌, Option, none, some, and_then,
  if◌then◌else◌, leb, ltb, ◌==◌, length, min, is_empty, all, arith, Bool-cases, inl, inr, ◌⊎◌,
}
use arc_twitch_widget.Prelude.Run.{
  Run, Returns, Returns-ret, Returns-if, Returns-bind, Returns-slice, Returns-mono,
}
use arc_twitch_widget.Text.{Text}
use arc_twitch_widget.Text.Utf8.{Bytes, from_utf8}
use arc_twitch_widget.Capture.Host.{normalize_host, lowered_host, host_character}
use arc_twitch_widget.Capture.Sni.{
  Next, return, leave, go, name_at, name_round, next_round, scan_names, after_names, name_list,
  extension_at, extension_round, scan_extensions,
}

-- A name that is found is a plain host.
abbrev pub IsPlain : Option Text → Type 0
IsPlain none = Unit
IsPlain (some host) = (is_empty host ≡ false) × (all host_character host ≡ true)

normalize_host-IsPlain : (o : Option Text) → IsPlain (and_then o normalize_host)
unfolding normalize_host
normalize_host-IsPlain none = tt
normalize_host-IsPlain (some host) =
    of (lowered_host host)
      (Bool-cases (not (is_empty (lowered_host host)) && all host_character (lowered_host host)))
  where
    of :
        (h : Text)
        → ((not (is_empty h) && all host_character h ≡ true)
            ⊎ (not (is_empty h) && all host_character h ≡ false))
        → IsPlain (if not (is_empty h) && all host_character h then some h else none)
    of h (inl good) = rw (good, IsPlain) (ground arith, ground arith)
    of h (inr bad) = rw (bad, IsPlain) tt

-- How a round ends: with a plain name, or further on and inside.
abbrev Further : ℕ → ℕ → Next → Type 0
Further cursor end (return r) = IsPlain r
Further cursor end leave = Unit
Further cursor end (go next) = (cursor < next) × (next ≤ end)

abbrev pub Ended : Next → Type 0
Ended (return r) = IsPlain r
Ended leave = Unit
Ended (go cursor) = Unit

-- A loop whose rounds go further ends.
next_round-Returns :
    (cursor end : ℕ) (loop : ℕ → Run Next) (r : Next)
    → Further cursor end r
    → ((next : ℕ) → cursor < next → next ≤ end → Returns Ended (loop next))
    → Returns Ended (next_round loop r)
next_round-Returns cursor end loop (return r) h k = Returns-ret (return r) h
next_round-Returns cursor end loop leave h k = Returns-ret leave tt
next_round-Returns cursor end loop (go next) (more, inside) k = k next more inside

module _ (hello : Bytes) where
  name_at-Returns :
      (before cursor list_end : ℕ) (name_type name_len : Option ℕ)
      → before < cursor
      → list_end ≤ length hello
      → Returns (Further before list_end) (name_at hello cursor list_end name_type name_len)
  unfolding name_at
  name_at-Returns before cursor list_end none name_len more inside = Returns-ret (return none) tt
  name_at-Returns before cursor list_end (some t) none more inside = Returns-ret (return none) tt
  name_at-Returns before cursor list_end (some t) (some n) more inside =
      Returns-if (ltb list_end (cursor + n)) _ _ (λ long. Returns-ret (return none) tt)
        λ fits.
          let room : cursor + n ≤ list_end = ground arith in
          Returns-if (t == 0) _ _
            (λ host.
              Returns-slice hello cursor (cursor + n) _ (omega arith) (omega arith)
                (Returns-ret (return _) (normalize_host-IsPlain (from_utf8 _))))
            λ other. Returns-ret (go (cursor + n)) (omega arith, room)

  name_round-Returns :
      (list_end cursor : ℕ)
      → list_end ≤ length hello
      → Returns (Further cursor list_end) (name_round hello list_end cursor)
  unfolding name_round
  name_round-Returns list_end cursor inside =
      Returns-if (leb (cursor + 3) list_end) _ _
        (λ room. name_at-Returns cursor (cursor + 3) list_end _ _ (omega arith) inside)
        λ end. Returns-ret leave tt

  scan_names-Returns :
      (fuel list_end cursor : ℕ)
      → list_end ≤ length hello
      → 1 ≤ fuel
      → list_end + 1 ≤ fuel + cursor
      → Returns Ended (scan_names fuel hello list_end cursor)
  unfolding scan_names
  scan_names-Returns zero list_end cursor inside some_fuel enough = absurd (omega arith)
  scan_names-Returns (suc fuel) list_end cursor inside some_fuel enough =
      Returns-bind (name_round hello list_end cursor) _ (
        Returns-mono (name_round-Returns list_end cursor inside) λ r h.
          next_round-Returns cursor list_end (scan_names fuel hello list_end) r h λ next more room.
            scan_names-Returns fuel list_end next inside (omega arith) (omega arith))

  after_names-Returns :
      (before end extension_end : ℕ) (r : Next)
      → before < extension_end
      → extension_end ≤ end
      → Ended r
      → Returns (Further before end) (after_names extension_end r)
  after_names-Returns before end e (return r) more room h = Returns-ret (return r) h
  after_names-Returns before end e leave more room h = Returns-ret (go e) (more, room)
  after_names-Returns before end e (go cursor) more room h = Returns-ret (go e) (more, room)

  name_list-Returns :
      (before end cursor extension_end : ℕ) (list_len : Option ℕ)
      → before < extension_end
      → extension_end ≤ end
      → end ≤ length hello
      → Returns (Further before end) (name_list hello cursor extension_end list_len)
  unfolding name_list
  name_list-Returns before end cursor e none more room inside = Returns-ret (return none) tt
  name_list-Returns before end cursor e (some n) more room inside = Returns-bind _ _ (
      Returns-mono
        (scan_names-Returns (length hello + 1) (min (cursor + 2 + n) e) (cursor + 2) (omega arith)
          (omega arith) (omega arith))
        λ r h. after_names-Returns before end e r more room h)

  extension_at-Returns :
      (before cursor end : ℕ) (extension_type extension_len : Option ℕ)
      → before < cursor
      → end ≤ length hello
      → Returns (Further before end) (extension_at hello cursor end extension_type extension_len)
  unfolding extension_at
  extension_at-Returns before cursor end none n more inside = Returns-ret (return none) tt
  extension_at-Returns before cursor end (some t) none more inside = Returns-ret (return none) tt
  extension_at-Returns before cursor end (some t) (some n) more inside =
      Returns-if (ltb end (cursor + n)) _ _ (λ long. Returns-ret (return none) tt)
        λ fits.
          let room : cursor + n ≤ end = ground arith in
          Returns-if (t == 0) _ _
            (λ names. name_list-Returns before end cursor (cursor + n) _ (omega arith) room inside)
            λ other. Returns-ret (go (cursor + n)) (omega arith, room)

  extension_round-Returns :
      (end cursor : ℕ)
      → end ≤ length hello
      → Returns (Further cursor end) (extension_round hello end cursor)
  unfolding extension_round
  extension_round-Returns end cursor inside =
      Returns-if (leb (cursor + 4) end) _ _
        (λ room. extension_at-Returns cursor (cursor + 4) end _ _ (omega arith) inside)
        λ done. Returns-ret leave tt

  pub scan_extensions-Returns :
      (fuel end cursor : ℕ)
      → end ≤ length hello
      → 1 ≤ fuel
      → end + 1 ≤ fuel + cursor
      → Returns Ended (scan_extensions fuel hello end cursor)
  unfolding scan_extensions
  scan_extensions-Returns zero end cursor inside some_fuel enough = absurd (omega arith)
  scan_extensions-Returns (suc fuel) end cursor inside some_fuel enough =
      Returns-bind (extension_round hello end cursor) _ (
        Returns-mono (extension_round-Returns end cursor inside) λ r h.
          next_round-Returns cursor end (scan_extensions fuel hello end) r h λ next more room.
            scan_extensions-Returns fuel end next inside (omega arith) (omega arith))
