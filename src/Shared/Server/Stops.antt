-- ===== src/Shared/Server/Stops.antt =====
-- How a server stops.
use marginpilot.Base.{Text, ◌≡◌, ◌⊎◌, inl, inr, false, Bool-cases, Error, ok, err}
use marginpilot.Shared.Server.{
  Host, Wake, stopped, signalled, drain_time, reported, or_signal, woken, run,
}

module _ {W H : Type 0} (host : Host W H) (e : Error) where
  -- The ways to fail: the listener could not go on, and not since it was closed, or the draining
  -- that the server ends with failed.
  abbrev pub Failed : Wake → Type 0
  Failed wake =
      ((wake ≡ stopped (err e)) × (host.is_server_closed e ≡ false))
      ⊎ ((w' : W) × ((host.shutdown drain_time w').0 ≡ err e))

  woken-err : (wake : Wake) (w : W) → (woken host wake w).0 ≡ err e → Failed wake
  unfolding woken reported or_signal
  woken-err signalled w h = inr (w, h)
  woken-err (stopped (ok _)) w h = inr (host.await_signal w, h)
  woken-err (stopped (err x)) w h = elim (Bool-cases (host.is_server_closed x)) [
    | inl closed ↦ inr (host.await_signal w, rw closed at h)
    | inr other ↦ inl (cc (rw other at h), cc (rw other at h))
  ]

  -- A server fails only with the error of a listener that was not closed on purpose, or with that
  -- of the draining, for which it has ten seconds.
  run-err :
      (routes : H) (addr : Text) (w : W)
      → (run host routes addr w).0 ≡ err e
      → Failed (host.wait routes addr w).0
  unfolding run
  run-err routes addr w h = woken-err (host.wait routes addr w).0 (host.wait routes addr w).1 h
