-- ===== src/Challenge/Resolver.antt =====
-- `CachingDnsResolver` of src/challenge/dns_cache.rs: lookups behind the cache.
use acmex.Base.{
  ℕ, ◌+◌, ◌*◌, ◌≤◌, String, ◌<>◌, ◌≡◌, refl, sym, ap, ◌∙◌, Option, none, some, List, [], ◌∷◌, leb,
  true, eq_iff, arith,
}
use acmex.Error.{AcmeError}
use acmex.Act.{Act, Answer, done, fault, ok, pure, modify, or_raise, ◌>>=◌, ◌>>◌}
use acmex.Act.Triple.{Triple, After, Anything, bind_rule, returned}
use acmex.Challenge.DnsCache.{DnsCache, new, get_a, set_a, get_txt, set_txt, get_txt-set_txt}
use acmex.Net.{no_reply}

-- The cache, what the next lookups of the `hickory-resolver` crate answer, and the names that were
-- looked up, the last first. The texts of an answer are those of its TXT records.
pub record CachingDnsResolver : Type 0 where
  pub cache : DnsCache
  pub answers : List (Answer (List String))
  pub asked : List String

-- the cache's own default is 60 seconds
unfoldable pub new_resolver : List (Answer (List String)) → CachingDnsResolver
unfolding new
new_resolver answers = record { cache = new (60 * 1000000000); answers = answers; asked = [] }

abbrev pub answered :
    List (Answer (List String))
    → String
    → CachingDnsResolver
    → Answer (List String) × CachingDnsResolver
answered [] domain r = (fault no_reply, record r { asked = domain ∷ r.asked })
answered (a ∷ rest) domain r = (a, record r { answers = rest; asked = domain ∷ r.asked })

-- `lookup_ip` and `txt_lookup`
unfoldable pub look_up_on_net : String → String → Act CachingDnsResolver (List String)
look_up_on_net what domain r =
    let (a, r') = answered r.answers domain r in
    or_raise a (λ e. AcmeError.transport (what <> e)) r'

-- The clock is read for the cache's lookup and again for its insertion.
abbrev pub resolved_a : ℕ → String → Option (List String) → Act CachingDnsResolver (List String)
resolved_a later domain (some ips) = pure ips
resolved_a later domain none = do
  ips ← look_up_on_net "DNS lookup failed: " domain
  modify (λ r. record r { cache = set_a r.cache later domain ips none })
  pure ips

unfoldable pub resolve_a : ℕ → ℕ → String → Act CachingDnsResolver (List String)
unfolding look_up_on_net get_a set_a
resolve_a now later domain r = resolved_a later domain (get_a r.cache now domain) r

abbrev pub resolved_txt : ℕ → String → Option (List String) → Act CachingDnsResolver (List String)
resolved_txt later domain (some txts) = pure txts
resolved_txt later domain none = do
  txts ← look_up_on_net "DNS TXT lookup failed: " domain
  modify (λ r. record r { cache = set_txt r.cache later domain txts none })
  pure txts

unfoldable pub resolve_txt : ℕ → ℕ → String → Act CachingDnsResolver (List String)
unfolding look_up_on_net get_txt set_txt
resolve_txt now later domain r = resolved_txt later domain (get_txt r.cache now domain) r

look_up-cache :
    (what domain : String) (c : DnsCache)
    → Triple (λ r. r.cache ≡ c) (look_up_on_net what domain) (λ _ r. r.cache ≡ c) Anything
unfolding look_up_on_net
look_up-cache what domain c = record { run = λ r h. looked r.answers r h }
  where
    raised :
        (a : Answer (List String)) (r : CachingDnsResolver)
        → r.cache ≡ c
        → let out = or_raise a (λ e. AcmeError.transport (what <> e)) r in
          After (λ _ r. r.cache ≡ c) Anything out.0 out.1
    raised (done x) r h = h
    raised (fault e) r h = tt

    looked :
        (answers : List (Answer (List String))) (r : CachingDnsResolver)
        → r.cache ≡ c
        → let (a, r') = answered answers domain r in
          let out = or_raise a (λ e. AcmeError.transport (what <> e)) r' in
          After (λ _ r. r.cache ≡ c) Anything out.0 out.1
    looked [] r h = tt
    looked (a ∷ rest) r h = raised a (record r { answers = rest; asked = domain ∷ r.asked }) h

resolved-cache :
    (later : ℕ) (domain : String) (c : DnsCache)
    → Triple
        (λ r. r.cache ≡ c)
        (resolved_txt later domain none)
        (λ txts r. r.cache ≡ set_txt c later domain txts none)
        Anything
resolved-cache later domain c =
    bind_rule (look_up-cache "DNS TXT lookup failed: " domain c) (λ txts.
      bind_rule {Q = λ _ r. r.cache ≡ set_txt c later domain txts none}
        (record { run = λ r h. ap (λ d. set_txt d later domain txts none) h })
        (λ _. record { run = λ r h. h }))

-- Where a name that the cache did not have was looked up, it is resolved to the same texts again, with
-- no lookup, up to the cache's default lifetime after the answer came in.
pub resolve_txt-resolve_txt :
    (now later then_ last : ℕ) (domain : String) (txts : List String) (r r' : CachingDnsResolver)
    → get_txt r.cache now domain ≡ none
    → then_ ≤ later + r.cache.default_ttl
    → resolve_txt now later domain r ≡ (ok txts, r')
    → resolve_txt then_ last domain r' ≡ (ok txts, r')
unfolding resolve_txt
resolve_txt-resolve_txt now later then_ last domain txts r r' miss h e =
    let cached =
      returned (resolved-cache later domain r.cache) r refl txts r'
        (ap (λ o. resolved_txt later domain o r) (sym miss) ∙ e) in
    let hit : get_txt r'.cache then_ domain ≡ some txts =
      ap (λ c. get_txt c then_ domain) cached
      ∙ get_txt-set_txt r.cache later then_ domain domain txts none
      ∙ rw ((eq_iff domain domain).1 refl, within then_ (later + r.cache.default_ttl) h) refl in
    ap (λ o. resolved_txt last domain o r') hit
  where
    within : (a b : ℕ) → a ≤ b → leb a b ≡ true
    within a b h = ground arith
