-- ===== src/Gateway/Echo.antt =====
-- services/gateway/internal/adapter/outbound/provider/echo.go
pub mod Tokens
use marginpilot.Base.{
  ℕ, ◌+◌, Text, codes, is_empty, fields, List, [], ◌∷◌, ◌++◌, length, ltb, if◌then◌else◌, pos, Proc,
  pure,
}
use marginpilot.Gateway.Domain.{ChatMessage, ChatRequest, ChatResponse}
use marginpilot.Gateway.Port.{LlmProvider}

-- `countTokens`
unfoldable pub count_tokens : Text → ℕ
count_tokens s = let n = length (fields s) in if ltb 0 n then n else 1

-- The loop over the messages: `prompt` and `last`.
unfoldable pub read_messages : List ChatMessage → Text → Text → Text × Text
read_messages [] prompt last = (prompt, last)
read_messages (m ∷ ms) prompt last = read_messages ms (prompt ++ (m.content ++ b' ' ∷ [])) m.content

-- `Complete`
unfoldable pub complete : ChatRequest → ChatResponse
unfolding read_messages count_tokens
complete req =
    let (prompt, last) = read_messages req.messages [] [] in
    let reply = codes "echo: " ++ last in
    let prompt_tokens = count_tokens prompt in
    let completion_tokens = count_tokens reply in
    record {
      id = codes "chatcmpl-echo";
      object = codes "chat.completion";
      model = if is_empty req.model then codes "echo-1" else req.model;
      choices =
          record {
            index = pos 0;
            message = record { role = codes "assistant"; content = reply };
            finish_reason = codes "stop";
          }
          ∷ [];
      usage = record {
        prompt_tokens = pos prompt_tokens;
        completion_tokens = pos completion_tokens;
        total_tokens = pos (prompt_tokens + completion_tokens);
      };
    }

abbrev pub echo : {W : Type 0} → LlmProvider W
echo = record { name = codes "echo"; complete = λ req. pure (complete req) }
