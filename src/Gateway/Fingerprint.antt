-- ===== src/Gateway/Fingerprint.antt =====
-- `cacheKey` of services/gateway/internal/app/service.go: the text that is hashed, and the key. The
-- hash of the text, `hex.EncodeToString(sha256.Sum256(..))`, is a parameter.
pub mod Collisions
use marginpilot.Base.{Text, List, [], ◌∷◌, ◌++◌, trim_space}
use marginpilot.Gateway.Domain.{ChatMessage, ChatRequest}

unfoldable pub lines : List ChatMessage → Text
lines [] = []
lines (m ∷ ms) = m.role ++ b':' ∷ (trim_space m.content ++ b'\n' ∷ lines ms)

-- What the builder `b` holds at the end.
unfoldable pub preimage : ChatRequest → Text
unfolding lines
preimage req = req.model ++ b'\n' ∷ lines req.messages

unfoldable pub cache_key : (Text → Text) → ChatRequest → Text
unfolding preimage
cache_key sha256_hex req = sha256_hex (preimage req)
