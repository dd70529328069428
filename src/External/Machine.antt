-- ===== src/External/Machine.antt =====
-- The clock and the random source of the process.
use marginpilot.Base.{Text}
use marginpilot.Shared.Calendar.{Time}

pub record Machine (W : Type 0) : Type 0 where
  -- `time.Now`
  pub now : W → Time × W
  -- `rand.Read` of 16 bytes; the program ignores its error
  pub random : W → Text × W

-- A machine whose clock stands still and whose random source gives one text.
abbrev pub frozen : {W : Type 0} → Time → Text → Machine W
frozen t id = record { now = λ w. (t, w); random = λ w. (id, w) }
