-- ===== src/Rating/Server.antt =====
-- services/rating/internal/grpcserver/server.go
use marginpilot.Base.{Proc, pure, ◌>>=◌}
use marginpilot.External.Postgres.{Table}
use marginpilot.Contract.Rating.{PriceRequest, PriceResponse}
use marginpilot.Rating.Catalog.{Rates}
use marginpilot.Rating.Catalog

-- `Price`
unfoldable pub price : {W : Type 0} → Table W Rates → PriceRequest → Proc W PriceResponse
price prices req = do
  c ← Catalog.price prices req.model req.input_tokens req.output_tokens
  pure (record { cost_micros = c })
