-- ===== src/Protocol/Jws.antt =====
-- src/protocol/jws.rs: signing a request in the compact form.
use acmex.Base.{ℕ, String, ◌<>◌, ◌≡◌, refl, sym, ap, ◌∙◌, Option, none, some, List, if◌then◌else◌}
use text.Mathlib.TextLemmas.{append_assoc}
use acmex.Error.{AcmeError}
use acmex.Act.{Answer, Outcome, ok, err, done, fault}
use acmex.Net.{JwsHeader}
use acmex.Net.Value.{Json, Fields, str, obj, end, field, is_null}
use acmex.Platform.{Platform}

-- The `json!` object of a protected header.
abbrev with_jwk : Option Json → Fields → Fields
with_jwk none fs = fs
with_jwk (some j) fs = field "jwk" j fs

abbrev with_kid : Option String → Fields → Fields
with_kid none fs = fs
with_kid (some k) fs = field "kid" (str k) fs

unfoldable pub header_json : JwsHeader → Json
header_json h = obj (
    field "alg" (str h.alg)
      (with_jwk h.jwk (with_kid h.kid (field "nonce" (str h.nonce) (field "url" (str h.url) end)))))

module _ {Key : Type 0} (p : Platform Key) where
  open p use {base64url, utf_8, json_text, sign_bytes}

  -- the three parts of a compact JWS
  abbrev pub compact : String → String → String → String
  compact header payload signature = header <> "." <> payload <> "." <> signature

  abbrev pub payload_part : Json → String
  payload_part payload = if is_null payload then "" else base64url (utf_8 (json_text payload))

  abbrev pub header_part : Json → String
  header_part header = base64url (utf_8 (json_text header))

  seal : String → Answer (List ℕ) → Outcome String
  seal input (done signature) = ok (input <> "." <> base64url signature)
  seal input (fault e) = err (AcmeError.crypto ("JWS signing failed: " <> e))

  unfoldable pub sign : Key → Json → Json → Outcome String
  unfolding seal
  sign key header payload =
      let input = header_part header <> "." <> payload_part payload in
      seal input (sign_bytes key (utf_8 input))

  unfoldable pub sign_empty : Key → Json → Outcome String
  unfolding sign
  sign_empty key header = sign key header Json.null

  text_of : Outcome String → String
  text_of (ok s) = s
  text_of _ = ""

  sealed :
      (header payload jws : String) (signature : Answer (List ℕ))
      → seal (header <> "." <> payload) signature ≡ ok jws
      → (bytes : List ℕ) × (signature ≡ done bytes)
        × (jws ≡ compact header payload (base64url bytes))
  unfolding seal text_of
  sealed header payload jws (done bytes) e = (
    bytes,
    refl,
    sym (ap text_of e)
        ∙ append_assoc header ("." <> payload) ("." <> base64url bytes)
        ∙ ap (λ rest. header <> rest) (append_assoc "." payload ("." <> base64url bytes)),
  )
  sealed header payload jws (fault m) e = cc

  -- The bytes are the key's signature of a header and a payload.
  abbrev pub IsSignature : Key → Json → Json → List ℕ → Type 0
  IsSignature key header payload bytes =
      sign_bytes key (utf_8 (header_part header <> "." <> payload_part payload)) ≡ done bytes

  -- A signed request is the compact form of its header, its payload and the key's signature of these.
  pub sign-compact :
      (key : Key) (header payload : Json) (jws : String)
      → sign key header payload ≡ ok jws
      → (bytes : List ℕ) × IsSignature key header payload bytes
        × (jws ≡ compact (header_part header) (payload_part payload) (base64url bytes))
  unfolding sign
  sign-compact key header payload jws e = sealed (header_part header) (payload_part payload) jws _ e
