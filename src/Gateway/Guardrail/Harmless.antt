-- ===== src/Gateway/Guardrail/Harmless.antt =====
-- Texts that the patterns leave alone.
use marginpilot.Base.{
  ℕ, Text, ◌≡◌, refl, inl, inr, arith, Bool, false, ◌||◌, ◌==◌, List, [], ◌∷◌, All, ok,
}
use marginpilot.Regexp.{is_digit}
use marginpilot.Regexp.Finding.{IsFree, match_string-free}
use marginpilot.Gateway.Domain.{ChatMessage, ChatRequest}
use marginpilot.Gateway.Guardrail.{
  Policy, email, card, phone, pii_patterns, is_denied, check, check_message, check_messages, settle,
  and_then, with_messages,
}
use marginpilot.Gateway.Guardrail.Verdicts.{has_pii, matches_any, scrub-clean}

-- A digit or an at sign.
abbrev pub is_telling : ℕ → Bool
is_telling c = is_digit c || c == b'@'

has_pii-free : (t : Text) → IsFree is_telling t → has_pii t ≡ false
unfolding matches_any pii_patterns email card phone
has_pii-free t h =
    rw
      (
        match_string-free is_telling email t (inr (inl (λ c k. ground arith))) h,
        match_string-free is_telling card t (inr (inl (inl (inl (λ c k. ground arith))))) h,
        match_string-free is_telling phone t (inr (inl (inl (λ c k. ground arith)))) h,
      )
      refl

module _ (to_lower : Text → Text) (p : Policy) where
  abbrev pub IsHarmless : ChatMessage → Type 0
  IsHarmless m = IsFree is_telling m.content × (is_denied to_lower p m.content ≡ false)

  check_message-harmless : (m : ChatMessage) → IsHarmless m → check_message to_lower p m ≡ ok m
  unfolding check_message settle
  check_message-harmless m (free, allowed) =
      rw (allowed, scrub-clean pii_patterns m.content (has_pii-free m.content free)) refl

  check_messages-harmless :
      (ms : List ChatMessage) → All IsHarmless ms → check_messages to_lower p ms ≡ ok ms
  unfolding check_messages and_then
  check_messages-harmless [] h = refl
  check_messages-harmless (m ∷ ms) (k, h) =
      rw (check_message-harmless m k, check_messages-harmless ms h) refl

  -- Whatever the mode, a request whose messages have no digit, no at sign and no denied term goes
  -- through as it is.
  check-harmless : (req : ChatRequest) → All IsHarmless req.messages → check to_lower p req ≡ ok req
  unfolding check with_messages
  check-harmless req h = rw (check_messages-harmless req.messages h) refl
