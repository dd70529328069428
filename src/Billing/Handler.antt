-- ===== src/Billing/Handler.antt =====
-- services/billing/internal/httpapi/handler.go. A response is its status and the document that is
-- encoded into it. The operations of `float64` that the margin needs are a parameter.
pub mod Invoices
pub mod Exports
use marginpilot.Base.{
  ℕ, Text, codes, ◌++◌, List, map, Option, none, some, if◌then◌else◌, ℤ, pos, leb_ℤ, sub64, Proc,
  Result, ok, err, pure, attempt, ◌>>=◌, ◌>>◌,
}
use marginpilot.External.Machine.{Machine}
use marginpilot.Billing.Store.{Subscription, Subscriptions, list, get}
use marginpilot.Billing.Cogs.{UsageSums, by_customer, customer_cost, cost_of}
use marginpilot.Billing.Exporter.{Exporter}

-- The conversion from `int64`, division and multiplication of `float64`.
pub record Float64 (F : Type 0) : Type 0 where
  pub of_int : ℤ → F
  pub divide : F → F → F
  pub times : F → F → F

pub record Line (F : Type 0) : Type 0 where
  pub customer_id : Text
  pub plan : Text
  pub revenue_micros : ℤ
  pub cogs_micros : ℤ
  pub gross_margin_pct : Option F

pub data Document (F : Type 0) : Type 0 where
  error_document : Text → Document F
  invoice : Text → List (Line F) → Document F
  single_line : Line F → Document F
  exported : Text → Text → ℤ → Document F

pub record Reply (F : Type 0) : Type 0 where
  pub status : ℕ
  pub document : Document F

-- `fail`, whose log is not modelled
unfoldable pub fail : {F : Type 0} → Text → Reply F
fail what = record { status = 502; document = error_document (what ++ codes " failed") }

module _ {F : Type 0} (float : Float64 F) where
  -- `marginPct`
  unfoldable pub margin_pct : ℤ → ℤ → Option F
  margin_pct revenue cogs =
      if leb_ℤ revenue (pos 0)
      then none
      else some (
          float.times (float.divide (float.of_int (sub64 revenue cogs)) (float.of_int revenue))
            (float.of_int (pos 100)))

  unfoldable pub line_of : Subscription → ℤ → Line F
  unfolding margin_pct
  line_of s c = record {
    customer_id = s.customer_id;
    plan = s.plan;
    revenue_micros = s.revenue_micros;
    cogs_micros = c;
    gross_margin_pct = margin_pct s.revenue_micros c;
  }

  -- The end of `invoiceTenant`
  unfoldable pub tenant_reply : Text → List Subscription → Result (List (Text × ℤ)) → Reply F
  unfolding line_of fail cost_of
  tenant_reply tenant subs (err e) = fail (codes "read cogs")
  tenant_reply tenant subs (ok costs) = record {
    status = 200;
    document = invoice tenant (map (λ s. line_of s (cost_of costs s.customer_id)) subs);
  }

  -- The end of `invoiceCustomer`
  unfoldable pub customer_reply : Subscription → Result ℤ → Reply F
  unfolding line_of fail
  customer_reply s (err e) = fail (codes "read cogs")
  customer_reply s (ok c) = record { status = 200; document = single_line (line_of s c) }

  -- The end of `export`
  unfoldable pub export_reply : Text → Text → ℤ → Result (Unit {0}) → Reply F
  unfolding fail
  export_reply tenant customer c (err e) = fail (codes "export usage")
  export_reply tenant customer c (ok _) = record {
    status = 200;
    document = exported tenant customer c;
  }

  module _ {W : Type 0} (db : Subscriptions W) (ch : UsageSums W) (m : Machine W)
      (exporter : Exporter W) where
    unfoldable pub with_subscriptions : Text → Result (List Subscription) → Proc W (Reply F)
    unfolding tenant_reply
    with_subscriptions tenant (err e) = pure (fail (codes "list subscriptions"))
    with_subscriptions tenant (ok subs) = do
      costs ← attempt (by_customer ch m tenant)
      pure (tenant_reply tenant subs costs)

    -- `invoiceTenant`
    unfoldable pub invoice_tenant : Text → Proc W (Reply F)
    unfolding with_subscriptions
    invoice_tenant tenant = do subs ← attempt (list db tenant); with_subscriptions tenant subs

    unfoldable pub with_subscription : Text → Text → Result (Option Subscription) → Proc W (Reply F)
    unfolding customer_reply
    with_subscription tenant customer (err e) = pure (fail (codes "get subscription"))
    with_subscription tenant customer (ok none) =
        pure (record { status = 404; document = error_document (codes "customer not found") })
    with_subscription tenant customer (ok (some s)) = do
      c ← attempt (customer_cost ch m tenant customer)
      pure (customer_reply s c)

    -- `invoiceCustomer`
    unfoldable pub invoice_customer : Text → Text → Proc W (Reply F)
    unfolding with_subscription
    invoice_customer tenant customer = do
      found ← attempt (get db tenant customer)
      with_subscription tenant customer found

    unfoldable pub with_cost : Text → Text → Result ℤ → Proc W (Reply F)
    unfolding export_reply
    with_cost tenant customer (err e) = pure (fail (codes "read cogs"))
    with_cost tenant customer (ok c) = do
      sent ← attempt (exporter tenant customer c)
      pure (export_reply tenant customer c sent)

    -- `export`
    unfoldable pub export_usage : Text → Text → Proc W (Reply F)
    unfolding with_cost
    export_usage tenant customer = do
      c ← attempt (customer_cost ch m tenant customer)
      with_cost tenant customer c
