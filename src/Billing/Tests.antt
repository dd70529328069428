-- ===== src/Billing/Tests.antt =====
-- Billing over fixed tables: its theorems at concrete inputs. Margins are counted in whole numbers.
use marginpilot.Base.{◌*◌, codes, [], ◌∷◌, ◌≡◌, refl, ℤ, pos, ok}
use marginpilot.Shared.Calendar.{Time}
use marginpilot.External.Machine.{Machine, frozen}
use marginpilot.Billing.Store.{Subscription, Subscriptions, list, get}
use marginpilot.Billing.Cogs.{UsageSums, by_customer, customer_cost}
use marginpilot.Billing.Exporter.{mock_export}
use marginpilot.Billing.Handler.{
  Float64, Reply, exported, invoice_tenant, invoice_customer, export_usage,
}
use marginpilot.Billing.Handler.Invoices.{
  TenantAnswers, CustomerAnswers, invoice_tenant-Answers, invoice_customer-Answers,
}
use marginpilot.Billing.Handler.Exports.{export_usage-200}

abbrev whole : Float64 ℤ
whole = record { of_int = λ z. z; divide = λ x y. x; times = λ x y. x }

abbrev acme : Subscription
acme = record { customer_id = codes "acme"; plan = codes "pro"; revenue_micros = pos 900 }

abbrev World : Type 0
World = Unit {0}

abbrev books : Subscriptions World
books = record {
  select_tenant = λ t w. (ok (record { items = ok acme ∷ []; final = ok tt }), w);
  select_one = λ t c w. (ok acme, w);
  insert = λ t s w. (ok tt, w);
}

abbrev sums : UsageSums World
sums = record {
  select_tenant = λ t p w. (ok (record { items = ok (codes "acme", 300) ∷ []; final = ok tt }), w);
  select_customer = λ t c p w. (ok 300, w);
}

abbrev noon : Time
noon = 63_950_000_000 * 1_000_000_000

abbrev machine : Machine World
machine = frozen noon (codes "id")

invoice_tenant-Answers_example :
    (reply : Reply ℤ) × ((invoice_tenant whole books sums machine mock_export (codes "t") tt).0
      ≡ ok reply)
    × TenantAnswers whole
        (codes "t")
        (list books (codes "t") tt).0
        (by_customer sums machine (codes "t") (list books (codes "t") tt).1).0
        reply
invoice_tenant-Answers_example =
    invoice_tenant-Answers whole books sums machine mock_export (codes "t") tt

invoice_customer-Answers_example :
    (reply : Reply ℤ) × ((invoice_customer whole books sums machine mock_export
        (codes "t")
        (codes "acme")
        tt).0
      ≡ ok reply)
    × CustomerAnswers whole
        (get books (codes "t") (codes "acme") tt).0
        (customer_cost sums machine
          (codes "t")
          (codes "acme")
          (get books (codes "t") (codes "acme") tt).1).0
        reply
invoice_customer-Answers_example =
    invoice_customer-Answers whole books sums machine mock_export (codes "t") (codes "acme") tt

abbrev exported_acme : Reply ℤ
exported_acme = record { status = 200; document = exported (codes "t") (codes "acme") (pos 300) }

export_usage-200_example :
    (c : ℤ) × ((customer_cost sums machine (codes "t") (codes "acme") tt).0 ≡ ok c)
    × ((mock_export
          (codes "t")
          (codes "acme")
          c
          (customer_cost sums machine (codes "t") (codes "acme") tt).1).0
        ≡ ok tt)
    × (exported_acme.document ≡ exported (codes "t") (codes "acme") c)
unfolding customer_cost
export_usage-200_example =
    export_usage-200 whole books sums machine mock_export (codes "t") (codes "acme") tt
      exported_acme (unfold export_usage in refl) refl
