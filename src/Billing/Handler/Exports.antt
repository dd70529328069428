-- ===== src/Billing/Handler/Exports.antt =====
-- What the billing API exports.
use marginpilot.Base.{Text, ◌≡◌, refl, sym, ap, arith, ℤ, Result, ok, err, ok-injective}
use marginpilot.External.Machine.{Machine}
use marginpilot.Billing.Store.{Subscriptions}
use marginpilot.Billing.Cogs.{UsageSums, customer_cost}
use marginpilot.Billing.Exporter.{Exporter}
use marginpilot.Billing.Handler.{
  Float64, Reply, exported, fail, export_reply, with_cost, export_usage,
}

module _ {F : Type 0} (float : Float64 F) where
  export_reply-200 :
      (tenant customer : Text) (c : ℤ) (sent : Result (Unit {0})) (reply : Reply F)
      → export_reply float tenant customer c sent ≡ reply
      → reply.status ≡ 200
      → (sent ≡ ok tt) × (reply.document ≡ exported tenant customer c)
  unfolding export_reply fail
  export_reply-200 tenant customer c (err e) reply h good =
      ground (arith, ap (λ (r : Reply F). r.status) h)
  export_reply-200 tenant customer c (ok u) reply h good =
      (refl, ap (λ (r : Reply F). r.document) (sym h))

  module _ {W : Type 0} (db : Subscriptions W) (ch : UsageSums W) (m : Machine W)
      (exporter : Exporter W) where
    with_cost-200 :
        (tenant customer : Text) (cost : Result ℤ) (w : W) (reply : Reply F)
        → (with_cost float db ch m exporter tenant customer cost w).0 ≡ ok reply
        → reply.status ≡ 200
        → (c : ℤ) × (cost ≡ ok c)
          × ((exporter tenant customer c w).0 ≡ ok tt)
          × (reply.document ≡ exported tenant customer c)
    unfolding with_cost fail
    with_cost-200 tenant customer (err e) w reply h good =
        ground (arith, ap (λ (r : Reply F). r.status) (ok-injective h))
    with_cost-200 tenant customer (ok c) w reply h good =
        let (sent, shown) =
          export_reply-200 tenant customer c (exporter tenant customer c w).0 reply (ok-injective h)
            good in
        (c, refl, sent, shown)

    -- An export that is answered with 200 has read the customer's cost of the month, has handed
    -- that amount to the exporter, which took it, and shows the amount.
    pub export_usage-200 :
        (tenant customer : Text) (w : W) (reply : Reply F)
        → (export_usage float db ch m exporter tenant customer w).0 ≡ ok reply
        → reply.status ≡ 200
        → (c : ℤ) × ((customer_cost ch m tenant customer w).0 ≡ ok c)
          × ((exporter tenant customer c (customer_cost ch m tenant customer w).1).0 ≡ ok tt)
          × (reply.document ≡ exported tenant customer c)
    unfolding export_usage
    export_usage-200 tenant customer w reply h good =
        with_cost-200 tenant customer (customer_cost ch m tenant customer w).0
          (customer_cost ch m tenant customer w).1 reply h good
