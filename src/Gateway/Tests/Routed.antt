-- ===== src/Gateway/Tests/Routed.antt =====
-- A request that the gateway serves, with an escape in its path.
use marginpilot.Base.{
  ℕ, ◌+◌, ◌-◌, ◌*◌, ◌==◌, leb, if◌then◌else◌, Text, codes, split, split_from, ◌≡◌, [], ◌∷◌, none,
}
use marginpilot.External.Mux.{dispatch, found, segments, is_clean}
use marginpilot.Shared.Server.{mux, handler}
use marginpilot.Gateway.Http.{chat_completions}
use marginpilot.Gateway.Routes.{register}
use marginpilot.Gateway.Routes.Dispatches.{dispatch-routed}
use marginpilot.Gateway.Tests.{machine, hash, ports, decode}

abbrev digit : ℕ → ℕ
digit c = if leb c b'9' then c - b'0' else c - b'a' + 10

-- Escapes of ASCII characters in lower case.
abbrev unescape : Text → Text
unescape [] = []
unescape (c ∷ []) = c ∷ []
unescape (c ∷ (d ∷ [])) = c ∷ d ∷ []
unescape (c ∷ (d ∷ (e ∷ s))) =
    let rest = unescape (d ∷ (e ∷ s)) in
    let after = unescape s in if c == b'%' then (digit d * 16 + digit e) ∷ after else c ∷ rest

dispatch-routed_example :
    dispatch unescape
      (mux (register decode hash machine ports none))
      (codes "POST")
      (codes "/v1/chat/%63ompletions")
    ≡ found (handler (chat_completions decode hash machine ports none)) []
unfolding segments split split_from is_clean
dispatch-routed_example =
    dispatch-routed decode hash machine ports none unescape (codes "POST")
      (codes "/v1/chat/%63ompletions")
