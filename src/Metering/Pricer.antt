-- ===== src/Metering/Pricer.antt =====
-- The port `Pricer` of services/metering/internal/consumer/consumer.go and its adapter
-- internal/adapter/pricer/grpc.go; the generated client is a parameter.
use marginpilot.Base.{Text, ℤ, Proc, Result, made, pure, ◌>>=◌}
use marginpilot.Contract.Rating.{PriceRequest, PriceResponse}

abbrev pub Pricer : Type 0 → Type 0
Pricer W = Text → ℤ → ℤ → Proc W ℤ

-- `Cost`
unfoldable pub grpc_cost : {W : Type 0} → (PriceRequest → Proc W PriceResponse) → Pricer W
grpc_cost call model in_tok out_tok = do
  resp ← call (record { model = model; input_tokens = in_tok; output_tokens = out_tok })
  pure resp.cost_micros

-- `NewGRPC`, over the generated client of a connection
unfoldable pub new_grpc_pricer :
    {W : Type 0} → (Text → Result (PriceRequest → Proc W PriceResponse)) → Text → Result (Pricer W)
new_grpc_pricer client target = made grpc_cost (client target)
