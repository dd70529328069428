-- ===== src/Shared/Server.antt =====
-- shared/httpx/server.go. The listener of net/http, signals and draining are parameters; which
-- handlers were registered beside /healthz is a parameter `H`. The log is not modelled.
pub mod Stops
use marginpilot.Base.{
  List, ◌∷◌, map, ℕ, ◌*◌, Text, codes, Option, none, some, Bool, true, false, if◌then◌else◌, Proc,
  Result, Error, ok, err,
}
use marginpilot.Shared.Calendar.{nanos}
use marginpilot.External.Http.{HttpResponse}
use marginpilot.External.Mux.{Table}

-- What `Run` wakes up for: `ListenAndServe` has returned, or the process was signalled.
pub data Wake : Type 0 where
  stopped : Result (Unit {0}) → Wake
  signalled : Wake

-- Listening at an address until something happens, waiting for a signal, draining for so many
-- nanoseconds, and the test for `http.ErrServerClosed`.
pub record Host (W H : Type 0) : Type 0 where
  pub wait : H → Text → W → Wake × W
  pub await_signal : W → W
  pub shutdown : ℕ → Proc W (Unit {0})
  pub is_server_closed : Error → Bool

-- The answer of /healthz.
unfoldable pub healthz : HttpResponse
healthz = record { code = 200; status = codes "200 OK"; body = codes "{\"status\":\"ok\"}" }

-- A handler that a service registered, or that of /healthz.
pub data Endpoint (H : Type 0) : Type 0 where
  health : Endpoint H
  handler : H → Endpoint H

abbrev own : {H : Type 0} → Text × H → Text × Endpoint H
own (pattern_text, h) = (pattern_text, handler h)

-- The mux when `Run` listens.
unfoldable pub mux : {H : Type 0} → Table H → Table (Endpoint H)
mux table = (codes "GET /healthz", health) ∷ map own table

abbrev pub drain_time : ℕ
drain_time = 10 * nanos

-- What the goroutine of the listener sends to `errc`.
unfoldable pub reported : (Error → Bool) → Result (Unit {0}) → Option Error
reported is_server_closed (ok _) = none
reported is_server_closed (err e) = if is_server_closed e then none else some e

module _ {W H : Type 0} (host : Host W H) where
  -- After a listener that reported nothing, only a signal is left to wait for.
  unfoldable pub or_signal : Option Error → Proc W (Unit {0})
  or_signal (some e) w = (err e, w)
  or_signal none w = host.shutdown drain_time (host.await_signal w)

  unfoldable pub woken : Wake → Proc W (Unit {0})
  unfolding reported or_signal
  woken (stopped r) w = or_signal (reported host.is_server_closed r) w
  woken signalled w = host.shutdown drain_time w

  -- `Run`
  unfoldable pub run : H → Text → Proc W (Unit {0})
  unfolding woken
  run routes addr w = let (wake, w') = host.wait routes addr w in woken wake w'
