-- ===== src/Dns/Rest.antt =====
-- How the DNS providers of src/dns/providers/ call the HTTP interface of their service.
use acmex.Base.{
  String, ◌<>◌, ◌==◌, Bool, false, ◌||◌, Option, none, some, List, [], ◌∷◌, if◌then◌else◌,
}
use acmex.Error.{AcmeError}
use acmex.Act.{Act, Answer, ok, done, fault, or_raise, ◌>>=◌}
use acmex.Net.{Response, Reply, response, failure, no_reply}
use acmex.Net.Value.{Json, Items, Fields, null, str, arr, obj, nil, cons, end, field}

pub data Method : Type 0 where
  get post put delete : Method

pub record Request : Type 0 where
  pub method : Method
  pub url : String
  -- what authorizes the request: a bearer token, or a header's value
  pub authorization : String
  pub body : Option Json

-- The service: its replies, and the requests it was sent, the last first.
pub record Api : Type 0 where
  pub replies : List Reply
  pub requests : List Request

unfoldable pub reply_to : List Reply → Request → Api → Answer Response × Api
reply_to [] q a = (fault no_reply, record a { requests = q ∷ a.requests })
reply_to (failure m ∷ rest) q a = (fault m, record a { replies = rest; requests = q ∷ a.requests })
reply_to (response r ∷ rest) q a = (done r, record a { replies = rest; requests = q ∷ a.requests })

-- `.send().await`
unfoldable pub call : Request → Act Api (Answer Response)
unfolding reply_to
call q a = let (r, a') = reply_to a.replies q a in (ok r, a')

-- `.map_err(|e| AcmeError::transport(format!("<what>{}", e)))?`
unfoldable pub call_or : Request → String → Act Api Response
unfolding call
call_or q what = call q >>= λ r. or_raise r (λ e. AcmeError.transport (what <> e))

-- `response.text().await.unwrap_or_default()`
abbrev pub text_of : Response → String
text_of r = elim (Response.body r) [ done t ↦ t | fault _ ↦ "" ]

-- indexing a `serde_json::Value` by a key: `null` where there is none
abbrev pub find_field : String → Fields → Json
find_field k end = null
find_field k (field j v rest) = let others = find_field k rest in if j == k then v else others

abbrev pub at : Json → String → Json
at (obj fields) k = find_field k fields
at _ k = null

-- `as_str() == Some(value)`
abbrev pub is_text : String → Json → Bool
is_text value (str s) = s == value
is_text value _ = false

-- an element of an array has the text under the key; what is no array has no element
abbrev pub any_item : String → String → Items → Bool
any_item k value nil = false
any_item k value (cons item rest) =
    let others = any_item k value rest in is_text value (at item k) || others

abbrev pub any_text : String → String → Json → Bool
any_text k value (arr items) = any_item k value items
any_text k value _ = false

-- `as_str()`
abbrev pub as_str : Json → Option String
as_str (str s) = some s
as_str _ = none

-- an array has the text
abbrev pub has_text : String → Items → Bool
has_text value nil = false
has_text value (cons v rest) = let others = has_text value rest in is_text value v || others

-- `response.json().await.unwrap_or_default()`
abbrev pub or_null : Answer Json → Json
or_null (done j) = j
or_null (fault e) = null
