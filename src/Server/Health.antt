-- ===== src/Server/Health.antt =====
-- src/server/health.rs, with the health status of src/metrics/mod.rs.
use mathlib.Core.Option.{some-injective}
use acmex.Base.{
  ℕ, String, ◌≡◌, ◌↔◌, ◌⊎◌, refl, sym, ap, ◌∙◌, eq_iff, ◌==◌, Bool, true, false, ◌||◌, none, some,
  [], ◌∷◌, Bool-cases, inl, inr, if◌then◌else◌, arith,
}
use acmex.Base.Dict.{Dict, get, insert}
use acmex.Base.Unique.{IsUnique}
use acmex.Net.Value.{Json, Fields, str, num, obj, end, field}
use acmex.Server.State.{ApiResponse}

pub data HealthStatus : Type 0 where
  healthy degraded unhealthy : HealthStatus

abbrev pub Components : Type 0
Components = Dict HealthStatus

unfoldable pub register_component : String → HealthStatus → Components → Components
register_component name status components = insert components name status

-- `get_mut`
unfoldable pub update_status : String → HealthStatus → Components → Components
update_status name status [] = []
update_status name status ((j, s) ∷ rest) =
    let others = update_status name status rest in
    if j == name then (j, status) ∷ rest else (j, s) ∷ others

abbrev pub is_unhealthy : HealthStatus → Bool
is_unhealthy unhealthy = true
is_unhealthy _ = false

abbrev pub is_degraded : HealthStatus → Bool
is_degraded degraded = true
is_degraded _ = false

-- `values().any(..)`
abbrev pub any_value : (HealthStatus → Bool) → Components → Bool
any_value p [] = false
any_value p ((j, s) ∷ rest) = let others = any_value p rest in p s || others

unfoldable pub overall_status : Components → String
overall_status components =
    if any_value is_unhealthy components
    then "unhealthy"
    else if any_value is_degraded components
    then "degraded"
    else "healthy"

abbrev pub status_code : String → ℕ
status_code status = if status == "healthy" then 200 else if status == "degraded" then 200 else 503

-- `format!("{:?}", v)`
abbrev pub debug : HealthStatus → String
debug healthy = "Healthy"
debug degraded = "Degraded"
debug unhealthy = "Unhealthy"

abbrev pub component_map : Components → Fields
component_map [] = end
component_map ((j, s) ∷ rest) = field j (str (debug s)) (component_map rest)

-- `HealthResponse`, with the version of the build and the seconds since the start
unfoldable pub get_status : String → ℕ → Components → Json
unfolding overall_status
get_status version uptime components = obj (
    field "status" (str (overall_status components)) (
      field "version" (str version)
        (field "uptime" (num uptime) (field "components" (obj (component_map components)) end))))

unfoldable pub health_handler : String → ℕ → Components → ApiResponse
unfolding overall_status get_status
health_handler version uptime components = record {
  status = status_code (overall_status components);
  body = get_status version uptime components;
}

-- `health_status` of src/metrics/mod.rs
unfoldable pub health_status : HealthStatus → String × ℕ
health_status healthy = ("ok", 200)
health_status degraded = ("degraded", 200)
health_status unhealthy = ("unhealthy", 503)

get_front : (j : String) (s : HealthStatus) (c : Components) → get ((j, s) ∷ c) j ≡ some s
unfolding get
get_front j s c = rw ((eq_iff j j).1 refl) refl

get_behind :
    (j name : String) (s s' : HealthStatus) (c : Components)
    → get c j ≡ none
    → get c name ≡ some s'
    → get ((j, s) ∷ c) name ≡ some s'
unfolding get
get_behind j name s s' c new e = elim (Bool-cases (j == name)) [
  | inl same ↦ let clash = sym new ∙ ap (get c) ((eq_iff j name).0 same) ∙ e in cc
  | inr other ↦ rw other e
]

Found : (HealthStatus → Bool) → Components → Type 0
Found p c = (name : String) × (s : HealthStatus) × (get c name ≡ some s) × (p s ≡ true)

witness_of :
    (p : HealthStatus → Bool) (c : Components) → IsUnique c → any_value p c ≡ true → Found p c
unfolding Found
witness_of p [] u h = cc
witness_of p ((j, s) ∷ rest) u h = elim (Bool-cases (p s)) [
  | inl here ↦ (j, s, get_front j s rest, here)
  | inr no_ ↦
      let (name, s', e, e') = witness_of p rest u.1 (ground (arith, h, no_)) in
      (name, s', get_behind j name s s' rest u.0 e, e')
]

any_found :
    (p : HealthStatus → Bool) (c : Components) (name : String) (s : HealthStatus)
    → get c name ≡ some s
    → p s ≡ true
    → any_value p c ≡ true
unfolding get
any_found p [] name s e h = cc
any_found p ((j, t) ∷ rest) name s e h = elim (Bool-cases (j == name)) [
  | inl same ↦ let here = rw same at e in rw (ap p (some-injective t s here), h) refl
  | inr other ↦ let later = rw other at e in ground (arith, any_found p rest name s later h)
]

is_worst : (s : HealthStatus) → is_unhealthy s ≡ true → s ≡ unhealthy
is_worst unhealthy h = refl
is_worst healthy h = cc
is_worst degraded h = cc

not_unhealthy :
    (c : Components) → any_value is_unhealthy c ≡ false → status_code (overall_status c) ≡ 200
unfolding overall_status
not_unhealthy c fine = elim (Bool-cases (any_value is_degraded c)) [
  | inl some_degraded ↦ rw (fine, some_degraded) refl
  | inr none_degraded ↦ rw (fine, none_degraded) refl
]

-- The health of components with different names is answered with the status 503 exactly when one of
-- them is unhealthy, and with 200 otherwise.
pub health_handler_iff :
    (version : String) (uptime : ℕ) (c : Components)
    → IsUnique c
    → ((ApiResponse.status (health_handler version uptime c) ≡ 503)
        ↔ ((name : String) × (get c name ≡ some unhealthy)))
      × ((ApiResponse.status (health_handler version uptime c) ≡ 503)
          ⊎ (ApiResponse.status (health_handler version uptime c) ≡ 200))
unfolding health_handler overall_status Found
health_handler_iff version uptime c u = elim (Bool-cases (any_value is_unhealthy c)) [
  | inl bad ↦
      let (name, s, e, worst) = witness_of is_unhealthy c u bad in
      ((λ _. (name, e ∙ ap some (is_worst s worst)), λ _. rw bad refl), inl (rw bad refl))
  | inr fine ↦
      let good = not_unhealthy c fine in
      (
        (
          λ e. absurd (omega (arith, good, e)),
          λ (name, e). let bad = any_found is_unhealthy c name unhealthy e refl in cc,
        ),
        inr good,
      )
]
