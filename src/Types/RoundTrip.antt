-- ===== src/Types/RoundTrip.antt =====
-- The words of src/types.rs are read back from what they print as, and nothing else is read.
use acmex.Base.{String, ◌≡◌, ◌↔◌, refl, subst, some, arith, eq_iff}
use acmex.Types.{
  ChallengeType, OrderStatus, AuthorizationStatus, http_01, challenge_type_from_str,
  challenge_type_as_str, order_status_from_str, order_status_as_str, authorization_status_from_str,
  authorization_status_as_str,
}

order_status_sound :
    (s : String) (o : OrderStatus) → order_status_from_str s ≡ some o → order_status_as_str o ≡ s
unfolding order_status_from_str order_status_as_str
order_status_sound s o h = ground (
  arith,
  eq_iff s "pending",
  eq_iff s "ready",
  eq_iff s "processing",
  eq_iff s "valid",
  eq_iff s "invalid",
  eq_iff s "expired",
  eq_iff s "deactivated",
)

order_status_complete : (o : OrderStatus) → order_status_from_str (order_status_as_str o) ≡ some o
unfolding order_status_from_str order_status_as_str
order_status_complete OrderStatus.pending = refl
order_status_complete _ = refl

-- A text parses as an order status exactly when it is the word that this status prints as.
order_status_from_str_iff :
    (s : String) (o : OrderStatus)
    → (order_status_from_str s ≡ some o) ↔ (order_status_as_str o ≡ s)
order_status_from_str_iff s o = (
  order_status_sound s o,
  λ e. subst (λ t. order_status_from_str t ≡ some o) e (order_status_complete o),
)

challenge_type_sound :
    (s : String) (c : ChallengeType)
    → challenge_type_from_str s ≡ some c
    → challenge_type_as_str c ≡ s
unfolding challenge_type_from_str challenge_type_as_str
challenge_type_sound s c h =
    ground (arith, eq_iff s "http-01", eq_iff s "dns-01", eq_iff s "tls-alpn-01")

challenge_type_complete :
    (c : ChallengeType) → challenge_type_from_str (challenge_type_as_str c) ≡ some c
unfolding challenge_type_from_str challenge_type_as_str
challenge_type_complete http_01 = refl
challenge_type_complete _ = refl

-- A text parses as a challenge type exactly when it is the word that this type prints as.
challenge_type_from_str_iff :
    (s : String) (c : ChallengeType)
    → (challenge_type_from_str s ≡ some c) ↔ (challenge_type_as_str c ≡ s)
challenge_type_from_str_iff s c = (
  challenge_type_sound s c,
  λ e. subst (λ t. challenge_type_from_str t ≡ some c) e (challenge_type_complete c),
)

authorization_status_sound :
    (s : String) (a : AuthorizationStatus)
    → authorization_status_from_str s ≡ some a
    → authorization_status_as_str a ≡ s
unfolding authorization_status_from_str authorization_status_as_str
authorization_status_sound s a h = ground (
  arith,
  eq_iff s "pending",
  eq_iff s "valid",
  eq_iff s "invalid",
  eq_iff s "deactivated",
  eq_iff s "expired",
)

authorization_status_complete :
    (a : AuthorizationStatus)
    → authorization_status_from_str (authorization_status_as_str a) ≡ some a
unfolding authorization_status_from_str authorization_status_as_str
authorization_status_complete AuthorizationStatus.pending = refl
authorization_status_complete _ = refl

-- A text parses as an authorization status exactly when it is the word that this status prints as.
authorization_status_from_str_iff :
    (s : String) (a : AuthorizationStatus)
    → (authorization_status_from_str s ≡ some a) ↔ (authorization_status_as_str a ≡ s)
authorization_status_from_str_iff s a = (
  authorization_status_sound s a,
  λ e. subst (λ t. authorization_status_from_str t ≡ some a) e (authorization_status_complete a),
)
