-- ===== src/Gateway/Routes/Dispatches.antt =====
-- Which requests reach the handler of chat completions.
use marginpilot.Base.{
  Text, text_eq, codes, split, split_from, ◌≡◌, refl, Bool-cases, inl, inr, List, [], ◌∷◌,
  if◌then◌else◌, map, true, false, Option, Proc, Result, ◌||◌,
}
use marginpilot.External.Machine.{Machine}
use marginpilot.External.Mux.{
  segments, pattern_of, is_clean, search, is_known, dispatch, Dispatch, found, not_allowed, missing,
  redirected,
}
use marginpilot.External.Mux.Literals.{same, same_iff, match_segments-same, or_later-none}
use marginpilot.Shared.Server.{mux, Endpoint, health, handler}
use marginpilot.Gateway.Domain.{ChatRequest}
use marginpilot.Gateway.Port.{Ports, CallerResolver}
use marginpilot.Gateway.Http.{Request, Response, chat_completions}
use marginpilot.Gateway.Routes.{register}

abbrev chat_path : List Text
chat_path = codes "v1" ∷ codes "chat" ∷ codes "completions" ∷ []

abbrev health_path : List Text
health_path = codes "healthz" ∷ []

-- What becomes of a request, by its method and the segments of its path.
abbrev pub answered : {H : Type 0} → H → Text → List Text → Dispatch (Endpoint H)
answered h method parts =
    if same chat_path parts
    then (if text_eq (codes "POST") method then found (handler h) [] else not_allowed)
    else if same health_path parts
    then (if text_eq (codes "GET") method || text_eq method (codes "HEAD")
        then found health []
        else not_allowed)
    else missing

abbrev pub routed : {H : Type 0} → (Text → Text) → H → Text → Text → Dispatch (Endpoint H)
routed unescape h method path =
    if text_eq method (codes "CONNECT") || is_clean (segments path)
    then answered h method (map unescape (segments path))
    else redirected

one_path : (parts : List Text) → same chat_path parts ≡ true → same health_path parts ≡ false
one_path parts p = elim (Bool-cases (same health_path parts)) [
  | inl q ↦ cc ((same_iff chat_path parts).0 p, (same_iff health_path parts).0 q)
  | inr q ↦ q
]

module _ {W : Type 0} (decode : Text → Result ChatRequest) (sha256_hex : Text → Text)
    (m : Machine W) (ports : Ports W) (resolver : Option (CallerResolver W))
    (unescape : Text → Text) where
  abbrev chat : Request → Proc W Response
  chat = chat_completions decode sha256_hex m ports resolver

  -- The mux of the gateway in full, for every method and every path: a request is redirected if its
  -- path is not clean and its method is not CONNECT; else, by the unescaped segments of its path, a
  -- chat completion is served to a POST of /v1/chat/completions and to no other request, the health
  -- check to a GET or a HEAD of /healthz and to no other; another method on these two is refused, and
  -- everything else is not found.
  pub dispatch-routed :
      (method path : Text)
      → dispatch unescape (mux (register decode sha256_hex m ports resolver)) method path
        ≡ routed unescape (chat_completions decode sha256_hex m ports resolver) method path
  unfolding dispatch mux register search pattern_of segments is_known split split_from
  dispatch-routed method path =
      let parts = map unescape (segments path) in
      elim (Bool-cases (text_eq method (codes "CONNECT") || is_clean (segments path))) [
        | inr out ↦ rw out refl
        | inl kept ↦
            rw (kept, match_segments-same chat_path parts, match_segments-same health_path parts)
              (elim (Bool-cases (same chat_path parts)) [
                | inl p ↦
                    rw (p, one_path parts p, or_later-none)
                      (elim (Bool-cases (text_eq (codes "POST") method)) [
                        | inl x ↦ rw x refl
                        | inr x ↦ rw x refl
                      ])
                | inr p ↦ elim (Bool-cases (same health_path parts)) [
                  | inl q ↦
                      rw (p, q)
                        (elim (Bool-cases (text_eq (codes "GET") method)) [
                          | inl x ↦ rw x refl
                          | inr x ↦ elim (Bool-cases (text_eq method (codes "HEAD"))) [
                            | inl y ↦ rw (x, y) refl
                            | inr y ↦ rw (x, y, or_later-none) refl
                          ]
                        ])
                  | inr q ↦ rw (p, q) (rw (or_later-none, or_later-none) refl)
                ]
              ])
      ]
