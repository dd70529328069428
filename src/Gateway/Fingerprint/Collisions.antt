-- ===== src/Gateway/Fingerprint/Collisions.antt =====
-- Which requests share a cache key.
use marginpilot.Base.{
  Text, List, [], ◌∷◌, ◌++◌, ◌≡◌, ◌≢◌, ◌⊎◌, inl, inr, refl, sym, trim_space, Lacks, split_at,
  append_assoc, text_eq, text_eq_iff, Bool-cases, map, All, ℕ,
}
use marginpilot.Gateway.Domain.{ChatMessage, ChatRequest}
use marginpilot.Gateway.Fingerprint.{lines, preimage, cache_key}

-- A message up to space around its content.
abbrev pub normal : ChatMessage → Text × Text
normal m = (m.role, trim_space m.content)

abbrev pub IsPlain : ChatMessage → Type 0
IsPlain m = Lacks b':' m.role × Lacks b'\n' (trim_space m.content)

-- No newline in the model and in the trimmed contents, no colon in the roles.
pub record IsPlainRequest (req : ChatRequest) : Type 0 where
  pub model : Lacks b'\n' req.model
  pub messages : All IsPlain req.messages

nil-ne-line : (r s : Text) (c : ℕ) → [] ≢ r ++ c ∷ s
nil-ne-line [] s c e = cc
nil-ne-line (x ∷ r) s c e = cc

lines-injective :
    (ms ns : List ChatMessage)
    → All IsPlain ms
    → All IsPlain ns
    → lines ms ≡ lines ns
    → map normal ms ≡ map normal ns
unfolding lines
lines-injective [] [] hm hn e = refl
lines-injective [] (n ∷ ns) hm hn e = absurd (nil-ne-line n.role _ b':' e)
lines-injective (m ∷ ms) [] hm hn e = absurd (nil-ne-line m.role _ b':' (sym e))
lines-injective (m ∷ ms) (n ∷ ns) ((role, content), hm) ((role', content'), hn) e =
    let (same_role, rest) = split_at b':' m.role n.role _ _ role role' e in
    let (same_content, others) =
      split_at b'\n' (trim_space m.content) (trim_space n.content) _ _ content content' rest in
    let tail = lines-injective ms ns hm hn others in cc

-- Two plain requests whose keys are equal have the same model and, up to space around the contents,
-- the same messages, or they show two different texts with one hash.
pub cache_key-eq :
    (sha256_hex : Text → Text) (req req' : ChatRequest)
    → IsPlainRequest req
    → IsPlainRequest req'
    → cache_key sha256_hex req ≡ cache_key sha256_hex req'
    → ((req.model ≡ req'.model) × (map normal req.messages ≡ map normal req'.messages))
      ⊎ ((preimage req ≢ preimage req') × (sha256_hex (preimage req) ≡ sha256_hex (preimage req')))
unfolding cache_key
cache_key-eq h req req' p q e = elim (Bool-cases (text_eq (preimage req) (preimage req'))) [
  | inl same ↦
      let (models, rest) =
        split_at b'\n' req.model req'.model _ _ p.model q.model
          (unfold preimage in (text_eq_iff _ _).0 same) in
      inl (models, lines-injective req.messages req'.messages p.messages q.messages rest)
  | inr other ↦ inr ((λ same. cc (other, (text_eq_iff _ _).1 same)), e)
]

-- A newline in a message can forge a message: a request and one with a message more share their
-- key, for every hash, where the three contents have no space around them.
cache_key_forged :
    (sha256_hex : Text → Text) (req : ChatRequest) (role role' a b : Text) (more : List ChatMessage)
    → trim_space a ≡ a
    → trim_space b ≡ b
    → trim_space (a ++ b'\n' ∷ (role' ++ b':' ∷ b)) ≡ a ++ b'\n' ∷ (role' ++ b':' ∷ b)
    → cache_key sha256_hex (record req {
      messages = record { role = role; content = a ++ b'\n' ∷ (role' ++ b':' ∷ b) } ∷ more;
    })
      ≡ cache_key sha256_hex (record req {
        messages =
            record { role = role; content = a } ∷ record { role = role'; content = b } ∷ more;
      })
unfolding cache_key lines
cache_key_forged h req role role' a b more ta tb tab = rw (ta, tb, tab) (simp append_assoc)
