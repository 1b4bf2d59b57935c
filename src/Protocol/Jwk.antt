-- ===== src/Protocol/Jwk.antt =====
-- src/protocol/jwk.rs: the public key as a JSON Web Key, and its thumbprint (RFC 7638).
use acmex.Base.{String, ◌<>◌, ◌==◌, Option, none, some, List, [], ◌∷◌, if◌then◌else◌}
use acmex.Base.Dict
use acmex.Base.Dict.{Dict}
use acmex.Error.{AcmeError}
use acmex.Act.{Outcome, ok, err}
use acmex.Net.Value.{Json, Fields, str, arr, obj, end, field, optional, strs}
use acmex.Platform.{Platform}

pub record Jwk : Type 0 where
  pub kty : String
  pub use_ : Option String
  pub key_ops : Option (List String)
  pub params : Dict Json

unfoldable pub new_ed_25519 : String → Jwk
new_ed_25519 x = record {
  kty = "OKP";
  use_ = some "sig";
  key_ops = none;
  params = Dict.insert (Dict.insert [] "crv" (str "Ed25519")) "x" (str x);
}

unfoldable pub new_rsa : String → String → Jwk
new_rsa n e = record {
  kty = "RSA";
  use_ = some "sig";
  key_ops = none;
  params = Dict.insert (Dict.insert [] "n" (str n)) "e" (str e);
}

unfoldable pub new_ec : String → String → String → Jwk
new_ec crv x y = record {
  kty = "EC";
  use_ = some "sig";
  key_ops = none;
  params = Dict.insert (Dict.insert (Dict.insert [] "crv" (str crv)) "x" (str x)) "y" (str y);
}

-- `to_value`: the derived `Serialize`, the parameters flattened behind the named members
abbrev flatten : Dict Json → Fields
flatten [] = end
flatten ((k, v) ∷ d) = field k v (flatten d)

abbrev with_ops : Option (List String) → Fields → Fields
with_ops none fs = fs
with_ops (some ops) fs = field "key_ops" (arr (strs ops)) fs

unfoldable pub to_value : Jwk → Json
to_value k =
    obj (field "kty" (str k.kty) (optional "use_" k.use_ (with_ops k.key_ops (flatten k.params))))

-- `params.get(name).and_then(|v| v.as_str())`
abbrev as_str : Option Json → Option String
as_str (some (Json.str s)) = some s
as_str _ = none

abbrev member : Jwk → String → Option String
member k name = as_str (Dict.get k.params name)

abbrev need : Option String → String → (String → Outcome String) → Outcome String
need (some s) message next = next s
need none message next = err (AcmeError.invalid_input message)

module _ {Key : Type 0} (p : Platform Key) where
  open p use {base64url, utf_8, json_text, sha_256}

  unfoldable pub compute_thumbprint : Json → String
  compute_thumbprint required = base64url (sha_256 (utf_8 (json_text required)))

  rsa_members : String → String → Json
  rsa_members e n = obj (field "e" (str e) (field "kty" (str "RSA") (field "n" (str n) end)))

  ec_members : String → String → String → Json
  ec_members crv x y =
      obj
        (field "crv" (str crv) (field "kty" (str "EC") (field "x" (str x) (field "y" (str y) end))))

  okp_members : String → String → Json
  okp_members crv x = obj (field "crv" (str crv) (field "kty" (str "OKP") (field "x" (str x) end)))

  unfoldable pub thumbprint_sha_256 : Jwk → Outcome String
  unfolding rsa_members ec_members okp_members
  thumbprint_sha_256 k =
      if k.kty == "RSA"
      then need (member k "e") "Missing RSA 'e' parameter" (λ e.
        need (member k "n") "Missing RSA 'n' parameter"
          (λ n. ok (compute_thumbprint (rsa_members e n))))
      else if k.kty == "EC"
      then need (member k "crv") "Missing EC 'crv' parameter" (λ crv.
        need (member k "x") "Missing EC 'x' parameter" (λ x.
          need (member k "y") "Missing EC 'y' parameter"
            (λ y. ok (compute_thumbprint (ec_members crv x y)))))
      else if k.kty == "OKP"
      then need (member k "crv") "Missing OKP 'crv' parameter" (λ crv.
        need (member k "x") "Missing OKP 'x' parameter"
          (λ x. ok (compute_thumbprint (okp_members crv x))))
      else err (AcmeError.invalid_input ("Unsupported key type: " <> k.kty))
