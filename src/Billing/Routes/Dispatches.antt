-- ===== src/Billing/Routes/Dispatches.antt =====
-- Which handler serves which path.
use marginpilot.Base.{
  Text, codes, ◌++◌, ◌∷◌, is_empty, Lacks, split, split_from, ◌≡◌, refl, arith, some, false,
}
use marginpilot.External.Machine.{Machine}
use marginpilot.External.Mux.{
  segments, pattern_of, match_segments, path_value, is_clean, is_dots, search, is_known, dispatch,
  not_allowed, IsUnescape,
}
use marginpilot.External.Mux.Paths.{split_from_last, split_from_next}
use marginpilot.Shared.Server.{mux}
use marginpilot.Billing.Store.{Subscriptions}
use marginpilot.Billing.Cogs.{UsageSums}
use marginpilot.Billing.Exporter.{Exporter}
use marginpilot.Billing.Handler.{Float64, invoice_tenant, invoice_customer, export_usage}
use marginpilot.Billing.Routes.{register, served}

-- A name that is one segment of a path.
pub record IsName (t : Text) : Type 0 where
  pub filled : is_empty t ≡ false
  pub whole : Lacks b'/' t
  pub no_dots : is_dots t ≡ false

module _ {W F : Type 0} (float : Float64 F) (m : Machine W) (db : Subscriptions W)
    (ch : UsageSums W) (exporter : Exporter W) (unescape : Text → Text)
    (laws : IsUnescape unescape) where
  literal_v1 : unescape (codes "v1") ≡ codes "v1"
  literal_v1 = laws.plain (codes "v1") (ground arith)

  literal_invoice : unescape (codes "invoice") ≡ codes "invoice"
  literal_invoice = laws.plain (codes "invoice") (ground arith)

  literal_export : unescape (codes "export") ≡ codes "export"
  literal_export = laws.plain (codes "export") (ground arith)

  on_invoice :
      (t : Text)
      → IsName t
      → served (
          dispatch unescape
            (mux (register float m db ch exporter))
            (codes "GET")
            (codes "/v1/invoice/" ++ t))
        ≡ some (invoice_tenant float db ch m exporter (unescape t))
  unfolding dispatch mux register segments split split_from is_clean search match_segments
      path_value pattern_of is_known
  on_invoice t name =
      rw (split_from_last b'/' _ t name.whole, name.no_dots)
        (rw (literal_v1, literal_invoice, laws.filled t name.filled) refl)

  on_customer_invoice :
      (t c : Text)
      → IsName t
      → IsName c
      → served (
          dispatch unescape
            (mux (register float m db ch exporter))
            (codes "GET")
            (codes "/v1/invoice/" ++ (t ++ b'/' ∷ c)))
        ≡ some (invoice_customer float db ch m exporter (unescape t) (unescape c))
  unfolding dispatch mux register segments split split_from is_clean search match_segments
      path_value pattern_of is_known
  on_customer_invoice t c tenant customer =
      rw
        (
          split_from_next b'/' _ t c tenant.whole,
          split_from_last b'/' _ c customer.whole,
          tenant.filled,
          tenant.no_dots,
          customer.no_dots,
        )
        (rw (literal_v1, literal_invoice, laws.filled c customer.filled)
          (rw (laws.filled t tenant.filled) refl))

  on_export :
      (t c : Text)
      → IsName t
      → IsName c
      → served (
          dispatch unescape
            (mux (register float m db ch exporter))
            (codes "POST")
            (codes "/v1/export/" ++ (t ++ b'/' ∷ c)))
        ≡ some (export_usage float db ch m exporter (unescape t) (unescape c))
  unfolding dispatch mux register segments split split_from is_clean search match_segments
      path_value pattern_of is_known
  on_export t c tenant customer =
      rw
        (
          split_from_next b'/' _ t c tenant.whole,
          split_from_last b'/' _ c customer.whole,
          tenant.filled,
          tenant.no_dots,
          customer.no_dots,
        )
        (rw (literal_v1, literal_export, laws.filled c customer.filled)
          (rw (laws.filled t tenant.filled) refl))

  on_wrong_method :
      (t c : Text)
      → IsName t
      → IsName c
      → dispatch unescape
          (mux (register float m db ch exporter))
          (codes "POST")
          (codes "/v1/invoice/" ++ (t ++ b'/' ∷ c))
        ≡ not_allowed
  unfolding dispatch mux register segments split split_from is_clean search match_segments
      path_value pattern_of is_known
  on_wrong_method t c tenant customer =
      rw
        (
          split_from_next b'/' _ t c tenant.whole,
          split_from_last b'/' _ c customer.whole,
          tenant.filled,
          tenant.no_dots,
          customer.no_dots,
        )
        (rw (literal_v1, literal_invoice, laws.filled c customer.filled)
          (rw (laws.filled t tenant.filled) refl))

  -- For a tenant and a customer that are one segment of a path each, neither empty nor dots, the API
  -- serves a tenant's invoice, a customer's invoice and an export with the handler that is meant for
  -- it, given these names unescaped, and refuses to post to an invoice.
  pub register-served :
      (t c : Text)
      → IsName t
      → IsName c
      → (served (
            dispatch unescape
              (mux (register float m db ch exporter))
              (codes "GET")
              (codes "/v1/invoice/" ++ t))
          ≡ some (invoice_tenant float db ch m exporter (unescape t)))
        × (served (
              dispatch unescape
                (mux (register float m db ch exporter))
                (codes "GET")
                (codes "/v1/invoice/" ++ (t ++ b'/' ∷ c)))
            ≡ some (invoice_customer float db ch m exporter (unescape t) (unescape c)))
        × (served (
              dispatch unescape
                (mux (register float m db ch exporter))
                (codes "POST")
                (codes "/v1/export/" ++ (t ++ b'/' ∷ c)))
            ≡ some (export_usage float db ch m exporter (unescape t) (unescape c)))
        × (dispatch unescape
              (mux (register float m db ch exporter))
              (codes "POST")
              (codes "/v1/invoice/" ++ (t ++ b'/' ∷ c))
            ≡ not_allowed)
  register-served t c tenant customer = (
    on_invoice t tenant,
    on_customer_invoice t c tenant customer,
    on_export t c tenant customer,
    on_wrong_method t c tenant customer,
  )
