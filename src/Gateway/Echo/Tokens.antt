-- ===== src/Gateway/Echo/Tokens.antt =====
-- The token counts that the echo provider reports.
use marginpilot.Base.{
  ℕ, ◌+◌, ◌≤◌, ◌≡◌, refl, ap, ◌∙◌, arith, Text, codes, fields, fields_from,
  length-fields_from-space, List, [], ◌∷◌, ◌++◌, append_assoc, append-nil, length, ltb,
  if◌then◌else◌, pos,
}
use marginpilot.Gateway.Domain.{ChatMessage, ChatRequest}
use marginpilot.Gateway.Echo.{count_tokens, read_messages, complete}

-- The words of all messages.
pub words : List ChatMessage → ℕ
words [] = 0
words (m ∷ ms) = length (fields m.content) + words ms

at_least_one : ℕ → ℕ
at_least_one n = if ltb 0 n then n else 1

length-fields-space :
    (s t : Text) → length (fields (s ++ 0x20 ∷ t)) ≡ length (fields s) + length (fields t)
unfolding fields
length-fields-space s t = length-fields_from-space [] s t

-- A prompt that ends its last word: what is added to it adds its own words.
abbrev IsClosed : Text → Type 0
IsClosed prompt =
    (t : Text) → length (fields (prompt ++ t)) ≡ length (fields prompt) + length (fields t)

length-fields_extended :
    (prompt content t : Text)
    → IsClosed prompt
    → length (fields ((prompt ++ (content ++ 0x20 ∷ [])) ++ t))
      ≡ length (fields prompt) + (length (fields content) + length (fields t))
length-fields_extended prompt content t closed =
    ap (λ (s : Text). length (fields s)) (simp append_assoc)
    ∙ closed (content ++ 0x20 ∷ t)
    ∙ ap (λ (n : ℕ). length (fields prompt) + n) (length-fields-space content t)

fields-nil : length (fields []) ≡ 0
unfolding fields fields_from
fields-nil = refl

length-fields_longer :
    (prompt content : Text)
    → IsClosed prompt
    → length (fields (prompt ++ (content ++ 0x20 ∷ [])))
      ≡ length (fields prompt) + length (fields content)
length-fields_longer prompt content closed = omega (
  arith,
  fields-nil,
  length-fields_extended prompt content [] closed,
  ap (λ (s : Text). length (fields s)) (append-nil (prompt ++ (content ++ 0x20 ∷ []))),
)

longer-IsClosed :
    (prompt content : Text) → IsClosed prompt → IsClosed (prompt ++ (content ++ 0x20 ∷ []))
longer-IsClosed prompt content closed t = omega (
  arith,
  length-fields_extended prompt content t closed,
  length-fields_longer prompt content closed,
)

length-fields-prompt :
    (ms : List ChatMessage) (prompt last : Text)
    → IsClosed prompt
    → length (fields (read_messages ms prompt last).0) ≡ length (fields prompt) + words ms
unfolding read_messages words
length-fields-prompt [] prompt last closed = omega arith
length-fields-prompt (m ∷ ms) prompt last closed = omega (
  arith,
  length-fields_longer prompt m.content closed,
  length-fields-prompt ms (prompt ++ (m.content ++ 0x20 ∷ [])) m.content
      (longer-IsClosed prompt m.content closed),
)

count_tokens_lem : (s : Text) → count_tokens s ≡ at_least_one (length (fields s))
unfolding count_tokens at_least_one
count_tokens_lem s = refl

one-le-count_tokens : (s : Text) → 1 ≤ count_tokens s
unfolding count_tokens
one-le-count_tokens s = ground arith

prompt_tokens :
    (ms : List ChatMessage) → count_tokens (read_messages ms [] []).0 ≡ at_least_one (words ms)
prompt_tokens ms =
    count_tokens_lem (read_messages ms [] []).0
    ∙ ap at_least_one
        (omega (arith, fields-nil, length-fields-prompt ms [] [] (λ t. omega (arith, fields-nil))))

-- The prompt is charged with the words of all messages, at least one; the completion with at least
-- one; and the total is their sum.
usage-complete :
    (req : ChatRequest)
    → (n : ℕ) × ((complete req).usage.prompt_tokens ≡ pos (at_least_one (words req.messages)))
      × ((complete req).usage.completion_tokens ≡ pos n)
      × (1 ≤ n)
      × ((complete req).usage.total_tokens ≡ pos (at_least_one (words req.messages) + n))
unfolding complete
usage-complete req =
    let (prompt, last) = read_messages req.messages [] [] in
    let reply = codes "echo: " ++ last in
    (
      count_tokens reply,
      ap pos (prompt_tokens req.messages),
      refl,
      one-le-count_tokens reply,
      ap (λ (k : ℕ). pos (k + count_tokens reply)) (prompt_tokens req.messages),
    )
