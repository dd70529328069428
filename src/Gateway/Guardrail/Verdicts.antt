-- ===== src/Gateway/Guardrail/Verdicts.antt =====
-- What the policy lets through, in each of its modes.
use marginpilot.Base.{
  Text, text_eq, text_eq-false, List, [], ◌∷◌, map, any, ◌≡◌, ◌≢◌, refl, sym, ap, ◌∙◌, arith, Bool,
  true, false, Bool-cases, inl, inr, ◌||◌, if◌then◌else◌, ok, err, blocked,
}
use marginpilot.Regexp.{Re, match_string, replace_all}
use marginpilot.Regexp.Finding.{replace_all-unmatched}
use marginpilot.Gateway.Domain.{ChatMessage, ChatRequest}
use marginpilot.Gateway.Guardrail.{
  Policy, mode_block, pii_patterns, scrub, is_denied, settle, check_message, check_messages, check,
  and_then, with_messages, email, card, phone, redacted_mark,
}

-- Whether one of the expressions matches the text as it is.
unfoldable pub matches_any : List Re → Text → Bool
matches_any res t = any res (λ re. match_string re t)

-- Whether a text has personal data in the sense of the patterns.
abbrev pub has_pii : Text → Bool
has_pii t = matches_any pii_patterns t

abbrev replaced : Re → Text → Text
replaced re t = replace_all re t redacted_mark

-- The message with the addresses, then the card numbers, then the phone numbers of its content
-- replaced by the mark.
abbrev pub redacted : ChatMessage → ChatMessage
redacted m = record m { content = replaced phone (replaced card (replaced email m.content)) }

-- To test for a match before replacing makes no difference.
replaced-if :
    (re : Re) (t : Text) (hit : Bool)
    → match_string re t ≡ hit
    → (if hit then replaced re t else t) ≡ replaced re t
replaced-if re t true h = refl
replaced-if re t false h = sym (replace_all-unmatched re t redacted_mark h)

abbrev in_turn : List Re → Text → Text
in_turn [] t = t
in_turn (re ∷ res) t = in_turn res (replaced re t)

scrub-in_turn : (res : List Re) (t : Text) (found : Bool) → (scrub res t found).0 ≡ in_turn res t
unfolding scrub
scrub-in_turn [] t found = refl
scrub-in_turn (re ∷ res) t found =
    scrub-in_turn res _ _ ∙ ap (in_turn res) (replaced-if re t (match_string re t) refl)

scrub-redacted : (m : ChatMessage) → (scrub pii_patterns m.content false).0 ≡ (redacted m).content
unfolding pii_patterns
scrub-redacted m = scrub-in_turn (email ∷ card ∷ phone ∷ []) m.content false

scrub_found : (res : List Re) (t : Text) → (scrub res t true).1 ≡ true
unfolding scrub
scrub_found [] t = refl
scrub_found (re ∷ res) t = scrub_found res _

scrub_hit :
    (hit : Bool) (res : List Re) (t new : Text)
    → (scrub res t false).1 ≡ matches_any res t
    → (scrub res (if hit then new else t) hit).1 ≡ (hit || matches_any res t)
scrub_hit true res t new rest = scrub_found res new
scrub_hit false res t new rest = rest

scrub-matches : (res : List Re) (t : Text) → (scrub res t false).1 ≡ matches_any res t
unfolding scrub matches_any
scrub-matches [] t = refl
scrub-matches (re ∷ res) t = scrub_hit (match_string re t) res t _ (scrub-matches res t)

-- A text that no expression matches is left as it is.
pub scrub-clean :
    (res : List Re) (t : Text) → matches_any res t ≡ false → scrub res t false ≡ (t, false)
unfolding scrub matches_any
scrub-clean [] t h = refl
scrub-clean (re ∷ res) t h = elim (Bool-cases (match_string re t)) [
  | inl hit ↦ cc (rw hit at h)
  | inr miss ↦ rw miss (scrub-clean res t (rw miss at h))
]

pub scrub_same :
    (t : Text) → (scrub pii_patterns t false).1 ≡ false → (scrub pii_patterns t false).0 ≡ t
scrub_same t h =
    ap (λ (out : Text × Bool). out.0)
      (scrub-clean pii_patterns t (sym (scrub-matches pii_patterns t) ∙ h))

map-id : (ms : List ChatMessage) → map (λ m. m) ms ≡ ms
map-id [] = refl
map-id (m ∷ ms) = ap (λ (rest : List ChatMessage). m ∷ rest) (map-id ms)

module _ (to_lower : Text → Text) (p : Policy) where
  abbrev pub denied : ChatMessage → Bool
  denied m = is_denied to_lower p m.content

  abbrev pub denied_or_pii : ChatMessage → Bool
  denied_or_pii m = is_denied to_lower p m.content || has_pii m.content

  settle-block :
      (m : ChatMessage) (out : Text × Bool)
      → text_eq p.mode mode_block ≡ true
      → settle to_lower p m out ≡ (if out.1 then err blocked else ok m)
  unfolding settle
  settle-block m (t, true) block = rw block refl
  settle-block m (t, false) block = refl

  settle-redact :
      (m : ChatMessage) (out : Text × Bool)
      → text_eq p.mode mode_block ≡ false
      → (out.1 ≡ false → out.0 ≡ m.content)
      → settle to_lower p m out ≡ ok (record m { content = out.0 })
  unfolding settle
  settle-redact m (t, true) redact same = rw redact refl
  settle-redact m (t, false) redact same = rw (same refl) refl

  check_message-block :
      (m : ChatMessage)
      → text_eq p.mode mode_block ≡ true
      → check_message to_lower p m ≡ (if denied_or_pii m then err blocked else ok m)
  unfolding check_message
  check_message-block m block =
      rw
        (
          settle-block m (scrub pii_patterns m.content false) block,
          scrub-matches pii_patterns m.content,
        )
        (ground arith)

  check_message-redact :
      (m : ChatMessage)
      → text_eq p.mode mode_block ≡ false
      → check_message to_lower p m ≡ (if denied m then err blocked else ok (redacted m))
  unfolding check_message
  check_message-redact m redact =
      rw
        (
          settle-redact m (scrub pii_patterns m.content false) redact (scrub_same m.content),
          scrub-redacted m,
        )
        refl

  check_messages-eq :
      (bad : ChatMessage → Bool) (f : ChatMessage → ChatMessage) (ms : List ChatMessage)
      → ((m : ChatMessage) → check_message to_lower p m ≡ (if bad m then err blocked else ok (f m)))
      → check_messages to_lower p ms ≡ (if any ms bad then err blocked else ok (map f ms))
  unfolding check_messages and_then
  check_messages-eq bad f [] each = refl
  check_messages-eq bad f (m ∷ ms) each = ground (arith, each m, check_messages-eq bad f ms each)

  -- In block mode a request goes through, as it is, exactly if no message has a denied term in its
  -- lower-cased content or personal data; otherwise it is blocked.
  pub check-block :
      (req : ChatRequest)
      → p.mode ≡ mode_block
      → check to_lower p req ≡ (if any req.messages denied_or_pii then err blocked else ok req)
  unfolding check with_messages
  check-block req block =
      rw
        (
          check_messages-eq denied_or_pii (λ m. m) req.messages
              (λ m. check_message-block m (ap (λ (t : Text). text_eq t mode_block) block)),
          map-id,
        )
        (elim (Bool-cases (any req.messages denied_or_pii)) [
          | inl e ↦ rw e refl
          | inr e ↦ rw e refl
        ])

  -- In every other mode a request goes through exactly if no message has a denied term in its
  -- lower-cased content: with every match of the e-mail pattern, then of the card pattern, then of the
  -- phone pattern replaced by "[REDACTED]" in each message, and nothing else changed; otherwise it is
  -- blocked.
  pub check-redact :
      (req : ChatRequest)
      → p.mode ≢ mode_block
      → check to_lower p req ≡ (
          if any req.messages denied
          then err blocked
          else ok (record req { messages = map redacted req.messages }))
  unfolding check with_messages
  check-redact req other =
      rw
        (check_messages-eq denied redacted req.messages
          (λ m. check_message-redact m (text_eq-false _ _ other)))
        (elim (Bool-cases (any req.messages denied)) [ inl e ↦ rw e refl | inr e ↦ rw e refl ])
