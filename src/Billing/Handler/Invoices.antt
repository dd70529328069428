-- ===== src/Billing/Handler/Invoices.antt =====
-- What the billing API answers.
use marginpilot.Base.{
  Text, List, [], ◌∷◌, map, ◌≡◌, ◌↔◌, refl, arith, Option, none, some, ℤ, pos, ◌≤ℤ◌, Result, Error,
  ok, err,
}
use marginpilot.External.Machine.{Machine}
use marginpilot.Billing.Store.{Subscription, Subscriptions, list, get}
use marginpilot.Billing.Cogs.{UsageSums, by_customer, customer_cost, cost_of}
use marginpilot.Billing.Exporter.{Exporter}
use marginpilot.Billing.Handler.{
  Float64, Line, Reply, invoice, single_line, fail, margin_pct, line_of, tenant_reply,
  customer_reply, with_subscriptions, with_subscription, invoice_tenant, invoice_customer,
}

module _ {F : Type 0} (float : Float64 F) where
  -- A line that bills a subscription for a cost; it has a margin unless the revenue is zero or less.
  pub record Bills (l : Line F) (s : Subscription) (c : ℤ) : Type 0 where
    pub customer : l.customer_id ≡ s.customer_id
    pub plan : l.plan ≡ s.plan
    pub revenue : l.revenue_micros ≡ s.revenue_micros
    pub cogs : l.cogs_micros ≡ c
    pub no_margin : (l.gross_margin_pct ≡ none) ↔ (s.revenue_micros ≤ℤ pos 0)

  line_of-Bills : (s : Subscription) (c : ℤ) → Bills (line_of float s c) s c
  unfolding line_of margin_pct
  line_of-Bills s c = record {
    customer = refl;
    plan = refl;
    revenue = refl;
    cogs = refl;
    no_margin = ground arith;
  }

  -- One line for each subscription, in their order, with the cost of the map, 0 where it has none.
  abbrev pub BillsAll : List (Line F) → List Subscription → List (Text × ℤ) → Type 0
  BillsAll [] [] costs = Unit
  BillsAll [] (s ∷ subs) costs = ⊥
  BillsAll (l ∷ ls) [] costs = ⊥
  BillsAll (l ∷ ls) (s ∷ subs) costs =
      Bills l s (cost_of costs s.customer_id) × BillsAll ls subs costs

  lines-BillsAll :
      (subs : List Subscription) (costs : List (Text × ℤ))
      → BillsAll (map (λ s. line_of float s (cost_of costs s.customer_id)) subs) subs costs
  lines-BillsAll [] costs = tt
  lines-BillsAll (s ∷ subs) costs = (line_of-Bills s _, lines-BillsAll subs costs)

  pub data TenantAnswers (tenant : Text) (subs : Result (List Subscription))
      (costs : Result (List (Text × ℤ))) (reply : Reply F) : Type 0 where
    no_subscriptions :
        (e : Error) → subs ≡ err e → reply.status ≡ 502 → TenantAnswers tenant subs costs reply
    no_costs :
        (ss : List Subscription) (e : Error)
        → subs ≡ ok ss
        → costs ≡ err e
        → reply.status ≡ 502
        → TenantAnswers tenant subs costs reply
    billed :
        (ss : List Subscription) (cs : List (Text × ℤ)) (ls : List (Line F))
        → subs ≡ ok ss
        → costs ≡ ok cs
        → reply ≡ record { status = 200; document = invoice tenant ls }
        → BillsAll ls ss cs
        → TenantAnswers tenant subs costs reply

  pub data CustomerAnswers (sub : Result (Option Subscription)) (cost : Result ℤ) (reply : Reply F)
      : Type 0 where
    get_failed : (e : Error) → sub ≡ err e → reply.status ≡ 502 → CustomerAnswers sub cost reply
    not_found : sub ≡ ok none → reply.status ≡ 404 → CustomerAnswers sub cost reply
    cost_failed :
        (s : Subscription) (e : Error)
        → sub ≡ ok (some s)
        → cost ≡ err e
        → reply.status ≡ 502
        → CustomerAnswers sub cost reply
    line_billed :
        (s : Subscription) (c : ℤ) (l : Line F)
        → sub ≡ ok (some s)
        → cost ≡ ok c
        → reply ≡ record { status = 200; document = single_line l }
        → Bills l s c
        → CustomerAnswers sub cost reply

  module _ {W : Type 0} (db : Subscriptions W) (ch : UsageSums W) (m : Machine W)
      (exporter : Exporter W) where
    tenant_reply-Answers :
        (tenant : Text) (ss : List Subscription) (costs : Result (List (Text × ℤ)))
        → TenantAnswers tenant (ok ss) costs (tenant_reply float tenant ss costs)
    unfolding tenant_reply fail
    tenant_reply-Answers tenant ss (err e) = no_costs ss e refl refl refl
    tenant_reply-Answers tenant ss (ok cs) = billed ss cs _ refl refl refl (lines-BillsAll ss cs)

    with_subscriptions-Answers :
        (tenant : Text) (subs : Result (List Subscription)) (w : W)
        → (reply : Reply F) × ((with_subscriptions float db ch m exporter tenant subs w).0
            ≡ ok reply)
          × TenantAnswers tenant subs (by_customer ch m tenant w).0 reply
    unfolding with_subscriptions fail
    with_subscriptions-Answers tenant (err e) w = (_, refl, no_subscriptions e refl refl)
    with_subscriptions-Answers tenant (ok ss) w = (_, refl, tenant_reply-Answers tenant ss _)

    -- The invoice of a tenant is always answered: with 502 if the subscriptions or the costs could
    -- not be read, else with 200 and one line for each subscription in their order, each with its
    -- customer's cost or 0, and with a margin unless the revenue is zero or less.
    pub invoice_tenant-Answers :
        (tenant : Text) (w : W)
        → (reply : Reply F) × ((invoice_tenant float db ch m exporter tenant w).0 ≡ ok reply)
          × TenantAnswers tenant
              (list db tenant w).0
              (by_customer ch m tenant (list db tenant w).1).0
              reply
    unfolding invoice_tenant
    invoice_tenant-Answers tenant w =
        with_subscriptions-Answers tenant (list db tenant w).0 (list db tenant w).1

    customer_reply-Answers :
        (s : Subscription) (c : Result ℤ)
        → CustomerAnswers (ok (some s)) c (customer_reply float s c)
    unfolding customer_reply fail
    customer_reply-Answers s (err e) = cost_failed s e refl refl refl
    customer_reply-Answers s (ok c) = line_billed s c _ refl refl refl (line_of-Bills s c)

    with_subscription-Answers :
        (tenant customer : Text) (sub : Result (Option Subscription)) (w : W)
        → (reply : Reply F) × ((with_subscription float db ch m exporter tenant customer sub w).0
            ≡ ok reply)
          × CustomerAnswers sub (customer_cost ch m tenant customer w).0 reply
    unfolding with_subscription fail
    with_subscription-Answers tenant customer (err e) w = (_, refl, get_failed e refl refl)
    with_subscription-Answers tenant customer (ok none) w = (_, refl, not_found refl refl)
    with_subscription-Answers tenant customer (ok (some s)) w =
        (_, refl, customer_reply-Answers s _)

    -- The invoice of a customer is always answered: with 404 if there is no subscription, with 502
    -- if it or the cost could not be read, else with 200 and the line that bills the cost.
    pub invoice_customer-Answers :
        (tenant customer : Text) (w : W)
        → (reply : Reply F) × ((invoice_customer float db ch m exporter tenant customer w).0
            ≡ ok reply)
          × CustomerAnswers
              (get db tenant customer w).0
              (customer_cost ch m tenant customer (get db tenant customer w).1).0
              reply
    unfolding invoice_customer
    invoice_customer-Answers tenant customer w =
        with_subscription-Answers tenant customer (get db tenant customer w).0
          (get db tenant customer w).1
