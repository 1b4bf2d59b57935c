-- ===== src/Challenge/DnsCache.antt =====
-- `DnsCache` of src/challenge/dns_cache.rs: looked-up records with their expiry. Instants and
-- durations are numbers of nanoseconds, and an operation reads the clock once.
use acmex.Base.{
  ℕ, ◌+◌, ◌≤◌, ◌<◌, String, ◌≡◌, refl, ap, ◌∙◌, ◌==◌, Bool, true, false, not, ltb, leb, ltb→lt,
  Bool-cases, inl, inr, Option, none, some, List, [], ◌∷◌, if◌then◌else◌, unwrap_or, arith,
}
use acmex.Base.Dict.{Dict, get, insert, retain, get-insert}
use acmex.Base.Unique.{IsUnique, kept, insert-IsUnique, get-retain, retain-IsUnique}

pub record CachedRecord (V : Type 0) : Type 0 where
  pub value : V
  pub expires_at : ℕ

-- `Instant::now() > self.expires_at`
abbrev pub is_expired : {V : Type 0} → ℕ → CachedRecord V → Bool
is_expired now record_ = ltb (CachedRecord.expires_at record_) now

abbrev pub Cache : Type 0 → Type 0
Cache V = Dict (CachedRecord V)

-- Addresses are texts.
pub record DnsCache : Type 0 where
  pub a_records : Cache (List String)
  pub aaaa_records : Cache (List String)
  pub txt_records : Cache (List String)
  pub default_ttl : ℕ

unfoldable pub new : ℕ → DnsCache
new ttl = record { a_records = []; aaaa_records = []; txt_records = []; default_ttl = ttl }

module _ {V : Type 0} where
  abbrev pub valid_at : ℕ → Option (CachedRecord V) → Option V
  valid_at now none = none
  valid_at now (some r) = if is_expired now r then none else some r.value

  -- the lookup, the insertion and the cleanup that the source repeats for each kind of record
  unfoldable pub look_up : Cache V → ℕ → String → Option V
  look_up cache now domain = valid_at now (get cache domain)

  unfoldable pub remember : Cache V → ℕ → String → V → ℕ → Cache V
  remember cache now domain value ttl =
      insert cache domain (record { value = value; expires_at = now + ttl })

  unfoldable pub forget : Cache V → ℕ → Cache V
  forget cache now = retain (λ r. not (is_expired now r)) cache

unfoldable pub get_a : DnsCache → ℕ → String → Option (List String)
get_a c now domain = look_up c.a_records now domain

unfoldable pub get_aaaa : DnsCache → ℕ → String → Option (List String)
get_aaaa c now domain = look_up c.aaaa_records now domain

unfoldable pub get_txt : DnsCache → ℕ → String → Option (List String)
get_txt c now domain = look_up c.txt_records now domain

unfoldable pub set_a : DnsCache → ℕ → String → List String → Option ℕ → DnsCache
set_a c now domain ips ttl = record c {
  a_records = remember c.a_records now domain ips (unwrap_or ttl c.default_ttl);
}

unfoldable pub set_aaaa : DnsCache → ℕ → String → List String → Option ℕ → DnsCache
set_aaaa c now domain ips ttl = record c {
  aaaa_records = remember c.aaaa_records now domain ips (unwrap_or ttl c.default_ttl);
}

unfoldable pub set_txt : DnsCache → ℕ → String → List String → Option ℕ → DnsCache
set_txt c now domain txts ttl = record c {
  txt_records = remember c.txt_records now domain txts (unwrap_or ttl c.default_ttl);
}

unfoldable pub cleanup : DnsCache → ℕ → DnsCache
cleanup c now = record c {
  a_records = forget c.a_records now;
  aaaa_records = forget c.aaaa_records now;
  txt_records = forget c.txt_records now;
}

lt-ltb : (a b : ℕ) → a < b → ltb a b ≡ true
lt-ltb a b h = ground (arith, h)

-- A limit is passed or it is not.
not_passed :
    {A : Type 0} (limit later : ℕ) (a b : A)
    → (if ltb limit later then a else b) ≡ (if leb later limit then b else a)
not_passed limit later a b = ground arith

module _ {V : Type 0} where
  still_valid :
      (now later : ℕ) (o : Option (CachedRecord V))
      → now ≤ later
      → valid_at later (kept (λ r. not (is_expired now r)) o) ≡ valid_at later o
  still_valid now later none h = refl
  still_valid now later (some r) h = elim (Bool-cases (ltb r.expires_at now)) [
    | inl gone ↦ rw (gone, lt-ltb r.expires_at later (omega (arith, h, ltb→lt _ _ gone))) refl
    | inr here ↦ rw here refl
  ]

  look_up-forget :
      (cache : Cache V) (now later : ℕ) (domain : String)
      → IsUnique cache
      → now ≤ later
      → look_up (forget cache now) later domain ≡ look_up cache later domain
  unfolding look_up forget
  look_up-forget cache now later domain u h =
      ap (valid_at later) (get-retain (λ r. not (is_expired now r)) cache domain u)
      ∙ still_valid now later (get cache domain) h

-- The calls on a cache, each at its instant.
pub data Call : Type 0 where
  sets_a sets_aaaa sets_txt : ℕ → String → List String → Option ℕ → Call
  cleans : ℕ → Call

abbrev pub run : List Call → DnsCache → DnsCache
run [] c = c
run (sets_a now d v ttl ∷ calls) c = run calls (set_a c now d v ttl)
run (sets_aaaa now d v ttl ∷ calls) c = run calls (set_aaaa c now d v ttl)
run (sets_txt now d v ttl ∷ calls) c = run calls (set_txt c now d v ttl)
run (cleans now ∷ calls) c = run calls (cleanup c now)

record IsWell (c : DnsCache) : Type 0 where
  a_unique : IsUnique c.a_records
  aaaa_unique : IsUnique c.aaaa_records
  txt_unique : IsUnique c.txt_records

run-IsWell : (calls : List Call) (c : DnsCache) → IsWell c → IsWell (run calls c)
unfolding set_a set_aaaa set_txt cleanup remember forget
run-IsWell [] c h = h
run-IsWell (sets_a now d v ttl ∷ calls) c h = run-IsWell calls _ (record {
  a_unique = insert-IsUnique c.a_records d _ h.a_unique;
  aaaa_unique = h.aaaa_unique;
  txt_unique = h.txt_unique;
})
run-IsWell (sets_aaaa now d v ttl ∷ calls) c h = run-IsWell calls _ (record {
  a_unique = h.a_unique;
  aaaa_unique = insert-IsUnique c.aaaa_records d _ h.aaaa_unique;
  txt_unique = h.txt_unique;
})
run-IsWell (sets_txt now d v ttl ∷ calls) c h = run-IsWell calls _ (record {
  a_unique = h.a_unique;
  aaaa_unique = h.aaaa_unique;
  txt_unique = insert-IsUnique c.txt_records d _ h.txt_unique;
})
run-IsWell (cleans now ∷ calls) c h = run-IsWell calls _ (record {
  a_unique = retain-IsUnique _ c.a_records h.a_unique;
  aaaa_unique = retain-IsUnique _ c.aaaa_records h.aaaa_unique;
  txt_unique = retain-IsUnique _ c.txt_records h.txt_unique;
})

new-IsWell : (ttl : ℕ) → IsWell (new ttl)
unfolding new
new-IsWell ttl = record { a_unique = tt; aaaa_unique = tt; txt_unique = tt }

-- After any calls on a new cache, a cleanup changes no lookup from its instant on: it drops only what
-- no lookup would find.
pub cleanup-invisible :
    (ttl : ℕ) (calls : List Call) (now later : ℕ) (domain : String)
    → now ≤ later
    → let c = run calls (new ttl) in
      (get_a (cleanup c now) later domain ≡ get_a c later domain)
      × (get_aaaa (cleanup c now) later domain ≡ get_aaaa c later domain)
      × (get_txt (cleanup c now) later domain ≡ get_txt c later domain)
unfolding get_a get_aaaa get_txt cleanup
cleanup-invisible ttl calls now later domain h =
    let well = run-IsWell calls (new ttl) (new-IsWell ttl) in
    (
      look_up-forget _ now later domain well.a_unique h,
      look_up-forget _ now later domain well.aaaa_unique h,
      look_up-forget _ now later domain well.txt_unique h,
    )

found :
    (same : Bool) (limit later : ℕ) (txts : List String) (o : Option (CachedRecord (List String)))
    → valid_at later (if same then some (record { value = txts; expires_at = limit }) else o)
      ≡ (if same then (if leb later limit then some txts else none) else valid_at later o)
found true limit later txts o = not_passed limit later none (some txts)
found false limit later txts o = refl

-- After a record was set, its name is found with the value up to the record's expiry and not after
-- it, and the other names are found as before.
pub get_txt-set_txt :
    (c : DnsCache) (now later : ℕ) (domain other : String) (txts : List String) (ttl : Option ℕ)
    → get_txt (set_txt c now domain txts ttl) later other ≡ (
        if domain == other
        then (if leb later (now + unwrap_or ttl c.default_ttl) then some txts else none)
        else get_txt c later other)
unfolding get_txt set_txt look_up remember
get_txt-set_txt c now later domain other txts ttl =
    ap (valid_at later) (get-insert c.txt_records domain other _)
    ∙ found (domain == other) (now + unwrap_or ttl c.default_ttl) later txts
        (get c.txt_records other)
