-- ===== src/Tests/Cache.antt =====
-- Two records, of which one has expired when the cache is cleaned.
use acmex.Base.{◌≡◌, none, some, List, [], ◌∷◌, arith}
use acmex.Challenge.DnsCache.{
  new, get_a, get_aaaa, get_txt, cleanup, Call, sets_txt, run, cleanup-invisible,
}

abbrev calls : List Call
calls = sets_txt 0 "a.org" ("x" ∷ []) none ∷ sets_txt 5 "b.org" ("y" ∷ []) (some 1) ∷ []

cleanup-invisible_example :
    let c = run calls (new 60) in
    (get_a (cleanup c 30) 40 "a.org" ≡ get_a c 40 "a.org")
    × (get_aaaa (cleanup c 30) 40 "a.org" ≡ get_aaaa c 40 "a.org")
    × (get_txt (cleanup c 30) 40 "a.org" ≡ get_txt c 40 "a.org")
cleanup-invisible_example = cleanup-invisible 60 calls 30 40 "a.org" (omega arith)
