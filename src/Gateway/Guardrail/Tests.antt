-- ===== src/Gateway/Guardrail/Tests.antt =====
-- The policy on concrete texts, and its theorems at concrete inputs. Texts are ASCII, and lower
-- case is that of ASCII.
use marginpilot.Base.{
  ◌+◌, ◌&&◌, leb, Text, codes, [], ◌∷◌, map, any, ◌≡◌, ◌≢◌, inl, refl, arith, false, if◌then◌else◌,
  ok, err, String, blocked, strip_prefix, trim_space,
}
use marginpilot.Regexp.{match_string, replace_all}
use marginpilot.Gateway.Domain.{ChatMessage, ChatRequest}
use marginpilot.Gateway.Guardrail.{
  Policy, new_policy, check, check_message, check_messages, contains, is_denied, scrub,
  pii_patterns, email, card, phone, settle,
}
use marginpilot.Gateway.Guardrail.Verdicts.{
  check-block, check-redact, denied, denied_or_pii, redacted,
}
use marginpilot.Gateway.Guardrail.Emails.{Address, IsAddress}
use marginpilot.Gateway.Guardrail.Redaction.{check-no_address}

abbrev ascii_lower : Text → Text
ascii_lower [] = []
ascii_lower (c ∷ s) = (if leb b'A' c && leb c b'Z' then c + 32 else c) ∷ ascii_lower s

scrubbed :
    (scrub pii_patterns
      (codes "mail bob.x@example.com now, 4111 1111 1111 1111; call 555-123-4567 or 5551234")
      false).0
    ≡ codes "mail [REDACTED] now, [REDACTED]; call [REDACTED] or 5551234"
unfolding scrub pii_patterns match_string replace_all email card phone
scrubbed = refl

abbrev blocking : Policy
blocking = new_policy ascii_lower (codes "block") (codes " Secret " ∷ [] ∷ [])

abbrev redacting : Policy
redacting = new_policy ascii_lower (codes "redact") (codes "secret" ∷ [])

abbrev message : String → ChatMessage
message s = record { role = codes "user"; content = codes s }

abbrev asking : String → ChatRequest
asking s = record { model = codes "m"; messages = message s ∷ []; stream = false }

denied_term : check ascii_lower blocking (asking "my SECRET") ≡ err blocked
unfolding check check_messages check_message is_denied contains new_policy strip_prefix trim_space
denied_term = refl

check-block_example : check ascii_lower blocking (asking "call 555-123-4567") ≡ (
    if any (asking "call 555-123-4567").messages (denied_or_pii ascii_lower blocking)
    then err blocked
    else ok (asking "call 555-123-4567"))
unfolding new_policy
check-block_example = check-block ascii_lower blocking (asking "call 555-123-4567") refl

check-redact_example : check ascii_lower redacting (asking "call 555-123-4567") ≡ (
    if any (asking "call 555-123-4567").messages (denied ascii_lower redacting)
    then err blocked
    else ok (record (asking "call 555-123-4567") {
      messages = map redacted (asking "call 555-123-4567").messages;
    }))
unfolding new_policy
check-redact_example =
    check-redact ascii_lower redacting (asking "call 555-123-4567") (ground arith)

abbrev bob : Address
bob = record {
  user = b'b';
  users = codes "ob";
  host = b'e';
  hosts = codes "x.co";
  first = b'u';
  second = b'k';
  letters = [];
}

bob-IsAddress : IsAddress bob
bob-IsAddress = record {
  user_ok = refl;
  users_ok = ground arith;
  host_ok = refl;
  hosts_ok = ground arith;
  first_ok = refl;
  second_ok = refl;
  letters_ok = tt;
}

-- The address is redacted, so it does not get through.
check-no_address_example : codes "to [REDACTED]!" ≢ codes "to bob@ex.co.uk!"
unfolding check check_messages check_message scrub pii_patterns email new_policy is_denied
    trim_space contains strip_prefix settle match_string replace_all card phone
check-no_address_example =
    check-no_address ascii_lower redacting (asking "to bob@ex.co.uk!") (asking "to [REDACTED]!")
      (message "to [REDACTED]!") bob (codes "to ") (codes "!") refl (inl refl) bob-IsAddress
