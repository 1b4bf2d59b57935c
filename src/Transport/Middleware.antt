-- ===== src/Transport/Middleware.antt =====
-- src/transport/middleware.rs: a chain of hooks around a request. A hook may change a state of its own
-- and fail.
use acmex.Base.{String, ◌≡◌, refl, ◌∙◌, List, [], ◌∷◌, ◌++◌}
use acmex.Error.{AcmeError}
use acmex.Act.{Act, Outcome, ok, err, panic, pure, resume, ◌>>=◌, ◌>>◌}
use acmex.Transport.HttpClient.{HttpResponse}

pub record Middleware (S : Type 0) : Type 0 where
  pub before_request : String → String → Act S (Unit {0})
  pub after_response : String → HttpResponse → Act S (Unit {0})
  pub on_error : String → AcmeError → Act S (Unit {0})

abbrev pub MiddlewareChain : Type 0 → Type 0
MiddlewareChain S = List (Middleware S)

unfoldable pub new : {S : Type 0} → MiddlewareChain S
new = []

unfoldable pub push : {S : Type 0} → MiddlewareChain S → Middleware S → MiddlewareChain S
push chain middleware = chain ++ middleware ∷ []

unfoldable pub before_request :
    {S : Type 0} → MiddlewareChain S → String → String → Act S (Unit {0})
before_request [] url method = pure tt
before_request (m ∷ ms) url method =
    Middleware.before_request m url method >> before_request ms url method

unfoldable pub after_response :
    {S : Type 0} → MiddlewareChain S → String → HttpResponse → Act S (Unit {0})
after_response [] url response = pure tt
after_response (m ∷ ms) url response =
    Middleware.after_response m url response >> after_response ms url response

unfoldable pub on_error : {S : Type 0} → MiddlewareChain S → String → AcmeError → Act S (Unit {0})
on_error [] url error = pure tt
on_error (m ∷ ms) url error = Middleware.on_error m url error >> on_error ms url error

-- the hooks that a middleware does not define
unfoldable pub default_hooks : {S : Type 0} → Middleware S
default_hooks = record {
  before_request = λ url method. pure tt;
  after_response = λ url response. pure tt;
  on_error = λ url error. pure tt;
}

last_unit : {S : Type 0} → (r : Outcome (Unit {0})) (s : S) → resume r (λ _. pure tt) s ≡ (r, s)
last_unit (ok tt) s = refl
last_unit (err e) s = refl
last_unit (panic m) s = refl

abbrev and_then_at : {S : Type 0} → Outcome (Unit {0}) → Act S (Unit {0}) → Act S (Unit {0})
and_then_at r k s = resume r (λ _. k) s

resume_assoc :
    {S : Type 0} (k h : Act S (Unit {0})) (r : Outcome (Unit {0})) (s : S)
    → and_then_at r (k >> h) s ≡ and_then_at (and_then_at r k s).0 h (and_then_at r k s).1
unfolding ◌>>=◌
resume_assoc k h (ok a) s = refl
resume_assoc k h (err e) s = refl
resume_assoc k h (panic m) s = refl

-- A pushed middleware is asked last, and only where all before it let the request pass.
before_request-push :
    {S : Type 0} (chain : MiddlewareChain S) (m : Middleware S) (url method : String) (s : S)
    → before_request (push chain m) url method s
      ≡ (before_request chain url method >> Middleware.before_request m url method) s
unfolding push before_request ◌>>=◌
before_request-push [] m url method s =
    let (r, s') = Middleware.before_request m url method s in last_unit r s'
before_request-push (n ∷ ms) m url method s =
    let (r, s') = Middleware.before_request n url method s in
    (λ i. and_then_at r (λ t. before_request-push ms m url method t i) s')
    ∙ resume_assoc (before_request ms url method) (Middleware.before_request m url method) r s'
