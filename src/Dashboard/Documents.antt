-- ===== src/Dashboard/Documents.antt =====
-- What the dashboard shows of the other services.
use marginpilot.Base.{
  Text, is_empty, ◌≡◌, arith, false, Result, Error, ok, err, lift, bind-ok, ok-injective, sym, ◌∙◌,
  ap,
}
use marginpilot.External.Http.{HttpClient, HttpResponse}
use marginpilot.Dashboard.{Overview, document, get_json, get_request, overview}

module _ (encode_error : Text → Text) (error_text : Error → Text)
    (encodes : (t : Text) → is_empty (encode_error t) ≡ false) where
  document-full :
      (resp : Result HttpResponse) → is_empty (document encode_error error_text resp) ≡ false
  unfolding document
  document-full (err e) = encodes _
  document-full (ok resp) = ground (arith, encodes resp.status)

  module _ {W : Type 0} (client : HttpClient W) where
    get_json-full :
        (url : Text) (w : W) {doc : Text}
        → (get_json encode_error error_text client url w).0 ≡ ok doc
        → is_empty doc ≡ false
    unfolding get_json
    get_json-full url w h =
        let (u, _, rest) = bind-ok (lift (client.parse_url url)) _ w h in
        ap is_empty (sym (ok-injective rest)) ∙ document-full (client.send (get_request url) w).0

    -- No document of an overview is empty, whatever the other services answer, if the encoding of an
    -- error message is not.
    overview-full :
        (billing analytics t : Text) (w : W) (o : Overview)
        → (overview encode_error error_text client billing analytics t w).0 ≡ ok o
        → (is_empty o.invoice ≡ false)
          × (is_empty o.forecast ≡ false)
          × (is_empty o.anomalies ≡ false)
          × (is_empty o.usage ≡ false)
    unfolding overview
    overview-full billing analytics t w o h =
        let (a, ha, h₁) = bind-ok (get_json encode_error error_text client _) _ w h in
        let (b, hb, h₂) = bind-ok (get_json encode_error error_text client _) _ _ h₁ in
        let (c, hc, h₃) = bind-ok (get_json encode_error error_text client _) _ _ h₂ in
        let (d, hd, h₄) = bind-ok (get_json encode_error error_text client _) _ _ h₃ in
        let same = ok-injective h₄ in
        rw (← same)
          (get_json-full _ _ ha, get_json-full _ _ hb, get_json-full _ _ hc, get_json-full _ _ hd)
