-- ===== src/Gateway/Guardrail.antt =====
-- services/gateway/internal/adapter/outbound/guardrail/policy.go. The table of `strings.ToLower` is a
-- parameter. `Check` writes redacted contents into the slice of the request that it was given and
-- returns; its caller goes on with what it returns, so the model returns the new request.
pub mod Verdicts
pub mod Harmless
pub mod Emails
pub mod Redaction
mod Tests
use marginpilot.Base.{
  ℕ, Text, codes, text_eq, trim_space, strip_prefix, is_empty, List, [], ◌∷◌, any, Option, none,
  some, Bool, true, false, ◌||◌, ◌==◌, if◌then◌else◌, Result, ok, err, blocked,
}
use marginpilot.Regexp.{
  Re, one, boundary, cat, opt, star, plus, times, up_to, is_digit, is_letter, match_string,
  replace_all,
}
use marginpilot.Gateway.Domain.{ChatMessage, ChatRequest}

abbrev pub mode_block : Text
mode_block = codes "block"

abbrev pub is_user : ℕ → Bool
is_user c =
    is_letter c || is_digit c || c == b'.' || c == b'_' || c == b'%' || c == b'+' || c == b'-'

abbrev pub is_domain : ℕ → Bool
is_domain c = is_letter c || is_digit c || c == b'.' || c == b'-'

abbrev char : ℕ → Re
char d = one (λ c. c == d)

abbrev digit : Re
digit = one is_digit

-- `[ -]`
abbrev is_card_gap : ℕ → Bool
is_card_gap c = c == b' ' || c == b'-'

-- `[-.\s]`
abbrev is_phone_gap : ℕ → Bool
is_phone_gap c =
    c == b'-' || c == b'.' || c == b'\t' || c == b'\n' || c == 0x0c || c == b'\r' || c == b' '

unfoldable pub email : Re
email = cat (plus (one is_user)) (
    cat (char b'@')
      (cat (plus (one is_domain)) (cat (char b'.') (cat (one is_letter) (plus (one is_letter))))))

unfoldable pub card : Re
card =
    let group = cat digit (opt (one is_card_gap)) in
    cat boundary (cat (times 12 group) (cat (up_to 2 group) boundary))

unfoldable pub phone : Re
phone =
    let gap = opt (one is_phone_gap) in
    cat boundary
      (cat (times 2 digit) (cat gap (cat (times 2 digit) (cat gap (cat (times 3 digit) boundary)))))

-- `piiPatterns`
unfoldable pub pii_patterns : List Re
pii_patterns = email ∷ card ∷ phone ∷ []

abbrev pub redacted_mark : Text
redacted_mark = codes "[REDACTED]"

abbrev starts : Option Text → Bool
starts none = false
starts (some _) = true

-- `strings.Contains(s, term)`
unfoldable pub contains : Text → Text → Bool
contains [] term = starts (strip_prefix term [])
contains (c ∷ s) term = starts (strip_prefix term (c ∷ s)) || contains s term

-- The patterns applied in turn: the text so far, and whether one was found.
unfoldable pub scrub : List Re → Text → Bool → Text × Bool
scrub [] redacted found = (redacted, found)
scrub (re ∷ res) redacted found =
    let hit = match_string re redacted in
    scrub res (if hit then replace_all re redacted redacted_mark else redacted) (found || hit)

pub record Policy : Type 0 where
  pub mode : Text
  pub denylist : List Text

module _ (to_lower : Text → Text) where
  -- The loop of `NewPolicy`
  unfoldable pub kept_terms : List Text → List Text
  kept_terms [] = []
  kept_terms (d ∷ ds) =
      let term = to_lower (trim_space d) in
      let rest = kept_terms ds in if is_empty term then rest else term ∷ rest

  -- `NewPolicy`
  unfoldable pub new_policy : Text → List Text → Policy
  unfolding kept_terms
  new_policy mode denylist = record { mode = mode; denylist = kept_terms denylist }

  -- Whether a message contains a denied term.
  unfoldable pub is_denied : Policy → Text → Bool
  is_denied p content = any p.denylist (contains (to_lower content))

  -- What becomes of a message with no denied term, from what the patterns made of it.
  unfoldable pub settle : Policy → ChatMessage → Text × Bool → Result ChatMessage
  settle p m (redacted, found) =
      if found
      then (if text_eq p.mode mode_block then err blocked else ok (record m { content = redacted }))
      else ok m

  -- One round of the loop of `Check`
  unfoldable pub check_message : Policy → ChatMessage → Result ChatMessage
  check_message p m =
      if is_denied p m.content then err blocked else settle p m (scrub pii_patterns m.content false)

  and_then : Result ChatMessage → Result (List ChatMessage) → Result (List ChatMessage)
  and_then (err e) rest = err e
  and_then (ok m) (err e) = err e
  and_then (ok m) (ok ms) = ok (m ∷ ms)

  unfoldable pub check_messages : Policy → List ChatMessage → Result (List ChatMessage)
  unfolding and_then
  check_messages p [] = ok []
  check_messages p (m ∷ ms) = and_then (check_message p m) (check_messages p ms)

  with_messages : ChatRequest → Result (List ChatMessage) → Result ChatRequest
  with_messages req (err e) = err e
  with_messages req (ok ms) = ok (record req { messages = ms })

  -- `Check`
  unfoldable pub check : Policy → ChatRequest → Result ChatRequest
  unfolding with_messages
  check p req = with_messages req (check_messages p req.messages)
