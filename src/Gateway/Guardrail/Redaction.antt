-- ===== src/Gateway/Guardrail/Redaction.antt =====
-- That no e-mail address gets through.
use marginpilot.Base.{
  Text, codes, ◌≡◌, ◌≢◌, refl, sym, ap, subst, Bool, true, false, Bool-cases, inl, inr, List, [],
  ◌∷◌, ◌++◌, All, Mem, if◌then◌else◌, Result, ok, err, ok-injective, text_eq,
}
use marginpilot.Regexp.{Re, match_string, replace_all, ends, found_from, star_from}
use marginpilot.Regexp.Redaction.{
  IsPlain, one-IsPlain, Misses, match_string-replace_all, match_string-replace_other,
}
use marginpilot.Regexp.Finding.{match_string-found}
use marginpilot.Gateway.Domain.{ChatMessage, ChatRequest}
use marginpilot.Gateway.Guardrail.{
  Policy, email, pii_patterns, redacted_mark, scrub, is_denied, settle, check_message,
  check_messages, check, and_then, with_messages, card, phone, mode_block,
}
use marginpilot.Gateway.Guardrail.Emails.{Address, IsAddress, written_before, email-Mem}
use marginpilot.Gateway.Guardrail.Verdicts.{scrub_same}

email-IsPlain : IsPlain email
unfolding email
email-IsPlain =
    one-IsPlain _ _ _ ((refl, refl), (refl, ((refl, refl), (refl, (refl, (refl, refl))))))
      ((refl, refl), (refl, ((refl, refl), (refl, (refl, (refl, refl))))))

quiet : Misses email email-IsPlain (codes "REDACTED")
unfolding found_from ends email star_from
quiet b = refl

kept :
    (hit : Bool) (r : Re) (t : Text)
    → match_string email t ≡ false
    → match_string email (if hit then replace_all r t redacted_mark else t) ≡ false
kept true r t h = match_string-replace_other email email-IsPlain (codes "REDACTED") quiet r t h
kept false r t h = h

scrub-rest :
    (res : List Re) (t : Text) (found : Bool)
    → match_string email t ≡ false
    → match_string email (scrub res t found).0 ≡ false
unfolding scrub
scrub-rest [] t found h = h
scrub-rest (r ∷ res) t found h = scrub-rest res _ _ (kept (match_string r t) r t h)

replaced :
    (hit : Bool) (t : Text)
    → match_string email t ≡ hit
    → match_string email (if hit then replace_all email t redacted_mark else t) ≡ false
replaced true t h = match_string-replace_all email email-IsPlain (codes "REDACTED") quiet t
replaced false t h = h

scrub-email : (t : Text) → match_string email (scrub pii_patterns t false).0 ≡ false
unfolding scrub pii_patterns
scrub-email t =
    scrub-rest (card ∷ phone ∷ []) _ (match_string email t) (replaced (match_string email t) t refl)

module _ (to_lower : Text → Text) (p : Policy) where
  abbrev HasNone : ChatMessage → Type 0
  HasNone m = match_string email m.content ≡ false

  settle-HasNone :
      (m m' : ChatMessage) (out : Text × Bool)
      → match_string email out.0 ≡ false
      → (out.1 ≡ false → out.0 ≡ m.content)
      → settle to_lower p m out ≡ ok m'
      → HasNone m'
  unfolding settle
  settle-HasNone m m' (t, true) clean same h = elim (Bool-cases (text_eq p.mode mode_block)) [
    | inl block ↦ cc (rw block at h)
    | inr redact ↦ rw (sym (ok-injective (rw redact at h))) clean
  ]
  settle-HasNone m m' (t, false) clean same h = rw (sym (ok-injective h), sym (same refl)) clean

  check_message-HasNone : (m m' : ChatMessage) → check_message to_lower p m ≡ ok m' → HasNone m'
  unfolding check_message
  check_message-HasNone m m' h = elim (Bool-cases (is_denied to_lower p m.content)) [
    | inl denied ↦ cc (rw denied at h)
    | inr allowed ↦
        settle-HasNone m m' (scrub pii_patterns m.content false) (scrub-email m.content)
          (scrub_same m.content) (rw allowed at h)
  ]

  and_then-HasNone :
      (first : Result ChatMessage) (rest : Result (List ChatMessage)) (ms : List ChatMessage)
      → ((m : ChatMessage) → first ≡ ok m → HasNone m)
      → ((later : List ChatMessage) → rest ≡ ok later → All HasNone later)
      → and_then to_lower first rest ≡ ok ms
      → All HasNone ms
  unfolding and_then
  and_then-HasNone (err e) rest ms each later h = cc h
  and_then-HasNone (ok m) (err e) ms each later h = cc h
  and_then-HasNone (ok m) (ok done) ms each later h =
      subst (All HasNone) (ok-injective h) (each m refl, later done refl)

  check_messages-HasNone :
      (ms ms' : List ChatMessage) → check_messages to_lower p ms ≡ ok ms' → All HasNone ms'
  unfolding check_messages
  check_messages-HasNone [] ms' h = subst (All HasNone) (ok-injective h) tt
  check_messages-HasNone (m ∷ ms) ms' h =
      and_then-HasNone (check_message to_lower p m) (check_messages to_lower p ms) ms'
        (λ m'. check_message-HasNone m m') (λ later. check_messages-HasNone ms later) h

  with_messages-HasNone :
      (req req' : ChatRequest) (out : Result (List ChatMessage))
      → ((ms : List ChatMessage) → out ≡ ok ms → All HasNone ms)
      → with_messages to_lower req out ≡ ok req'
      → All HasNone req'.messages
  unfolding with_messages
  with_messages-HasNone req req' (err e) each h = cc h
  with_messages-HasNone req req' (ok ms) each h =
      subst (λ (q : ChatRequest). All HasNone q.messages) (ok-injective h) (each ms refl)

  All-Mem : (ms : List ChatMessage) (m : ChatMessage) → All HasNone ms → Mem m ms → HasNone m
  All-Mem (n ∷ ms) m (h, hs) (inl e) = rw e h
  All-Mem (n ∷ ms) m (h, hs) (inr k) = All-Mem ms m hs k
  All-Mem [] m h k = absurd k

  -- Whatever the mode and the denied terms, a request that the guardrail lets through has no e-mail
  -- address in any of its messages, wherever in the text and whatever stands around it: redaction
  -- leaves none behind, and the later patterns bring none about.
  pub check-no_address :
      (req req' : ChatRequest) (m : ChatMessage) (a : Address) (before rest : Text)
      → check to_lower p req ≡ ok req'
      → Mem m req'.messages
      → IsAddress a
      → m.content ≢ before ++ written_before a rest
  unfolding check
  check-no_address req req' m a before rest h member valid same =
      let none_left : All HasNone req'.messages =
        with_messages-HasNone req req' (check_messages to_lower p req.messages)
          (λ ms. check_messages-HasNone req.messages ms) h in
      cc (
        All-Mem req'.messages m none_left member,
        ap (match_string email) same,
        match_string-found email before (written_before a rest)
            (λ b. (_, email-Mem a rest b valid)),
      )
