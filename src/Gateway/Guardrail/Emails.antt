-- ===== src/Gateway/Guardrail/Emails.antt =====
-- That an e-mail address is found, wherever it stands.
use marginpilot.Base.{
  ℕ, Text, ◌≡◌, refl, ap, ◌∙◌, arith, Option, some, Bool, true, List, [], ◌∷◌, ◌++◌, any, Mem,
  if◌then◌else◌, ok, err, blocked,
}
use marginpilot.Regexp.{ends, is_letter}
use marginpilot.Regexp.Finding.{AllIn, last_of, Mem-one, Mem-cat, Mem-plus, match_string-found}
use marginpilot.Gateway.Domain.{ChatMessage, ChatRequest}
use marginpilot.Gateway.Guardrail.{
  Policy, is_user, is_domain, email, pii_patterns, mode_block, check,
}
use marginpilot.Gateway.Guardrail.Verdicts.{has_pii, matches_any, denied_or_pii, check-block}

-- An address: a nonempty local part, a nonempty domain and a last label of two letters or more.
pub record Address : Type 0 where
  pub user : ℕ
  pub users : Text
  pub host : ℕ
  pub hosts : Text
  pub first : ℕ
  pub second : ℕ
  pub letters : Text

pub record IsAddress (a : Address) : Type 0 where
  pub user_ok : is_user a.user ≡ true
  pub users_ok : AllIn is_user a.users
  pub host_ok : is_domain a.host ≡ true
  pub hosts_ok : AllIn is_domain a.hosts
  pub first_ok : is_letter a.first ≡ true
  pub second_ok : is_letter a.second ≡ true
  pub letters_ok : AllIn is_letter a.letters

-- The address with what follows it.
abbrev pub written_before : Address → Text → Text
written_before a rest =
    a.user
    ∷ (a.users
        ++ b'@' ∷ (a.host ∷ (a.hosts ++ b'.' ∷ (a.first ∷ (a.second ∷ (a.letters ++ rest))))))

pub email-Mem :
    (a : Address) (rest : Text) (b : Option ℕ)
    → IsAddress a
    → Mem (last_of (some a.second) a.letters, rest) (ends email (b, written_before a rest))
unfolding email
email-Mem a rest b h =
    Mem-cat _ _ _ _ _ (Mem-plus is_user a.user a.users _ b h.user_ok h.users_ok) (
      Mem-cat _ _ _ _ _ (Mem-one _ _ b'@' _ refl) (
        Mem-cat _ _ _ _ _ (Mem-plus is_domain a.host a.hosts _ _ h.host_ok h.hosts_ok) (
          Mem-cat _ _ _ _ _ (Mem-one _ _ b'.' _ refl) (
            Mem-cat _ _ _ _ _ (Mem-one is_letter _ a.first _ h.first_ok)
              (Mem-plus is_letter a.second a.letters rest _ h.second_ok h.letters_ok)))))

has_pii-address :
    (a : Address) (before rest : Text)
    → IsAddress a
    → has_pii (before ++ written_before a rest) ≡ true
unfolding matches_any pii_patterns
has_pii-address a before rest h =
    rw (match_string-found email before (written_before a rest) (λ b. (_, email-Mem a rest b h)))
      refl

any-found :
    {A : Type 0} (p : A → Bool) (xs ys : List A) (x : A) → p x ≡ true → any (xs ++ x ∷ ys) p ≡ true
any-found p [] ys x h = rw h refl
any-found p (z ∷ xs) ys x h = ground (arith, any-found p xs ys x h)

-- In block mode a request is blocked if one of its messages has an e-mail address in its content,
-- whatever stands around it.
pub check-address :
    (to_lower : Text → Text) (p : Policy) (req : ChatRequest) (a : Address)
    (role before rest : Text) (ms ns : List ChatMessage)
    → p.mode ≡ mode_block
    → IsAddress a
    → req.messages ≡ ms ++ record { role = role; content = before ++ written_before a rest } ∷ ns
    → check to_lower p req ≡ err blocked
check-address to_lower p req a role before rest ms ns block valid has =
    let m : ChatMessage = record { role = role; content = before ++ written_before a rest } in
    let bad : denied_or_pii to_lower p m ≡ true =
      ground (arith, has_pii-address a before rest valid) in
    let some_bad : any req.messages (denied_or_pii to_lower p) ≡ true =
      ap (λ (l : List ChatMessage). any l (denied_or_pii to_lower p)) has
      ∙ any-found (denied_or_pii to_lower p) ms ns m bad in
    check-block to_lower p req block ∙ ap (λ (b : Bool). if b then err blocked else ok req) some_bad
