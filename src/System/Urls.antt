-- ===== src/System/Urls.antt =====
-- The overview of the dashboard over the API of billing: which of billing's handlers the URL of the
-- invoice reaches. Billing's answers are encoded by a parameter.
use marginpilot.Base.{
  ℕ, Text, codes, ◌++◌, ◌∷◌, [], is_empty, Lacks, leb, Bool, true, false, ◌&&◌, ◌||◌, ◌==◌, ◌≡◌,
  refl, sym, ap, ◌∙◌, arith, some, Proc, Result, Error, ok, pure, lift, bind-ok, ok-injective,
  ◌>>=◌,
}
use marginpilot.External.Machine.{Machine}
use marginpilot.External.Mux.{dispatch, IsUnescape}
use marginpilot.External.Http.{HttpClient, HttpResponse}
use marginpilot.Shared.Server.{mux}
use marginpilot.Billing.Store.{Subscriptions}
use marginpilot.Billing.Cogs.{UsageSums}
use marginpilot.Billing.Exporter.{Exporter}
use marginpilot.Billing.Handler.{Float64, Reply, invoice_tenant, invoice_customer}
use marginpilot.Billing.Routes.{Endpoints, register, served}
use marginpilot.Billing.Routes.Dispatches.{IsName, register-served}
use marginpilot.Dashboard.{Overview, tenant_of, document, get_json, get_request, overview}

-- Characters that stand for themselves in the path of a URL: the unreserved ones and the slash.
abbrev is_plain : ℕ → Bool
is_plain c =
    (leb b'a' c && leb c b'z')
    || (leb b'A' c && leb c b'Z')
    || (leb b'0' c && leb c b'9')
    || c == b'-'
    || c == b'.'
    || c == b'_'
    || c == b'~'
    || c == b'/'

abbrev pub plain : Text → Bool
plain [] = true
plain (c ∷ s) = is_plain c && plain s

plain-append : (s t : Text) → plain s ≡ true → plain t ≡ true → plain (s ++ t) ≡ true
plain-append [] t hs ht = ht
plain-append (c ∷ s) t hs ht = ground (arith, plain-append s t)

plain-Lacks : (s : Text) → plain s ≡ true → Lacks b'%' s
plain-Lacks [] h = tt
plain-Lacks (c ∷ s) h = ground (arith, plain-Lacks s)

module _ {W F : Type 0} (encode : Reply F → HttpResponse) where
  -- What a client gets from a handler.
  abbrev pub respond : Proc W (Reply F) → Proc W HttpResponse
  respond p = do r ← p; pure (encode r)

  -- A client whose requests under an address reach a server that dispatches them by a table: a path
  -- of plain characters gets what the handler that serves it answers.
  abbrev pub Reaches : (Text → Text) → HttpClient W → Text → Endpoints W F → Type 0
  Reaches unescape client base table =
      (path : Text) (p : Proc W (Reply F)) (w : W)
      → plain path ≡ true
      → served (dispatch unescape (mux table) (codes "GET") path) ≡ some p
      → client.send (get_request (base ++ path)) w ≡ respond p w

is_empty-append : (s t : Text) → is_empty s ≡ false → is_empty (s ++ t) ≡ false
is_empty-append [] t h = ground arith
is_empty-append (c ∷ s) t h = refl

module _ {W : Type 0} (encode_error : Text → Text) (error_text : Error → Text)
    (client : HttpClient W) where
  abbrev shown : Result HttpResponse → Text
  shown = document encode_error error_text

  get_json-sent :
      (url : Text) (w : W) {doc : Text}
      → (get_json encode_error error_text client url w).0 ≡ ok doc
      → doc ≡ shown (client.send (get_request url) w).0
  unfolding get_json
  get_json-sent url w h =
      let (u, _, rest) = bind-ok (lift (client.parse_url url)) _ w h in sym (ok-injective rest)

  -- The first document of an overview is what the invoice's URL gave.
  overview-sent :
      (billing analytics t : Text) (w : W) (o : Overview)
      → is_empty t ≡ false
      → (overview encode_error error_text client billing analytics t w).0 ≡ ok o
      → o.invoice ≡ shown (client.send (get_request (billing ++ (codes "/v1/invoice/" ++ t))) w).0
  unfolding overview tenant_of
  overview-sent billing analytics t w o filled h =
      let (a, ha, h₁) = bind-ok (get_json encode_error error_text client _) _ w h in
      let (b, _, h₂) = bind-ok (get_json encode_error error_text client _) _ _ h₁ in
      let (c, _, h₃) = bind-ok (get_json encode_error error_text client _) _ _ h₂ in
      let (d, _, h₄) = bind-ok (get_json encode_error error_text client _) _ _ h₃ in
      ap (λ (o' : Overview). o'.invoice) (sym (ok-injective h₄))
      ∙ get_json-sent _ w ha
      ∙ rw filled refl

module _ {W F : Type 0} (encode_error : Text → Text) (error_text : Error → Text)
    (client : HttpClient W) (encode : Reply F → HttpResponse) (float : Float64 F) (m : Machine W)
    (db : Subscriptions W) (ch : UsageSums W) (exporter : Exporter W) (billing : Text)
    (unescape : Text → Text) (laws : IsUnescape unescape)
    (reaches : Reaches encode unescape client billing (register float m db ch exporter)) where
  -- A dashboard whose requests under billing's address reach its API, and two texts of plain
  -- characters that are one segment of a path each: the invoice in the overview of a tenant with such
  -- a name is what billing answers about this tenant; but the overview of a tenant whose name is the
  -- two texts with a slash between them shows what billing answers about a customer of another
  -- tenant.
  pub overview-invoice :
      (analytics t c : Text) (w : W) (o o' : Overview)
      → IsName t
      → IsName c
      → plain t ≡ true
      → plain c ≡ true
      → (overview encode_error error_text client billing analytics t w).0 ≡ ok o
      → (overview encode_error error_text client billing analytics (t ++ b'/' ∷ c) w).0 ≡ ok o'
      → (o.invoice
          ≡ document encode_error error_text
              (respond encode (invoice_tenant float db ch m exporter t) w).0)
        × (o'.invoice
            ≡ document encode_error error_text
                (respond encode (invoice_customer float db ch m exporter t c) w).0)
  overview-invoice analytics t c w o o' tenant customer plain_t plain_c h h' =
      let (to_tenant, to_customer, _, _) =
        register-served float m db ch exporter unescape laws t c tenant customer in
      let same_t = laws.plain t (plain-Lacks t plain_t) in
      let same_c = laws.plain c (plain-Lacks c plain_c) in
      (
        overview-sent encode_error error_text client billing analytics t w o tenant.filled h
            ∙ ap (λ (r : Result HttpResponse × W). document encode_error error_text r.0)
                (reaches (codes "/v1/invoice/" ++ t) _ w plain_t (rw same_t at to_tenant)),
        overview-sent encode_error error_text client billing analytics (t ++ b'/' ∷ c) w o'
              (is_empty-append t (b'/' ∷ c) tenant.filled) h'
            ∙ ap (λ (r : Result HttpResponse × W). document encode_error error_text r.0)
                (reaches (codes "/v1/invoice/" ++ (t ++ b'/' ∷ c)) _ w
                  (plain-append t (b'/' ∷ c) plain_t plain_c) (rw (same_t, same_c) at to_customer)),
      )
