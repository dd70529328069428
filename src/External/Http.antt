-- ===== src/External/Http.antt =====
-- Go's HTTP client, as the program uses it. Making a request fails for a text that is no URL.
use marginpilot.Base.{ℕ, Text, List, Option, Proc, Result}

-- A body as it is sent, or a form, which the library encodes.
pub data Content : Type 0 where
  raw : Text → Content
  form : List (Text × Text) → Content

pub record HttpRequest : Type 0 where
  pub method : Text
  pub url : Text
  pub content_type : Text
  -- the user of HTTP basic authentication, with an empty password
  pub user : Option Text
  -- the header Authorization, where the program writes it itself
  pub authorization : Option Text
  pub content : Content

pub record HttpResponse : Type 0 where
  pub code : ℕ
  pub status : Text
  pub body : Text

pub record HttpClient (W : Type 0) : Type 0 where
  pub parse_url : Text → Result (Unit {0})
  pub send : HttpRequest → Proc W HttpResponse
