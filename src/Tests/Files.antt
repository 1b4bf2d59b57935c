-- ===== src/Tests/Files.antt =====
-- A directory with one certificate, the resolver of a fresh cache, and a chain that refuses a method.
use acmex.Base.{
  ℕ, suc, ◌+◌, ◌≤◌, true, ◌==◌, ◌≡◌, refl, false, none, some, List, [], ◌∷◌, if◌then◌else◌, arith,
}
use acmex.Base.Dict
use acmex.Base.Dict.{get}
use acmex.Error.{AcmeError}
use acmex.Act.{done, ok, err, pure, fail, ◌>>=◌}
use acmex.Storage.Backend.{Backend}
use acmex.Storage.Files
use acmex.Storage.Files.{Disk, file_storage, key_path}
use acmex.Storage.Memory.{memory_storage}
use acmex.Storage.Migration.{Pair, migrate}
use acmex.Storage.Paths.{has_slash, load-store_file}
use acmex.Storage.Unlisted.{migrate-none}
use acmex.Challenge.DnsCache
use acmex.Challenge.Resolver
use acmex.Challenge.Resolver.{
  CachingDnsResolver, new_resolver, resolve_txt, resolve_txt-resolve_txt,
}
use acmex.Transport.Middleware.{Middleware, MiddlewareChain, default_hooks, push, before_request}

abbrev one_file : Disk
one_file = record { has_dir = true; files = ("cert:a.org.bin", 1 ∷ []) ∷ []; faults = [] }

abbrev no_copy : Pair Disk (Dict.Dict (List ℕ))
no_copy = record { source = one_file; destination = [] }

name_unfound : get (Disk.files one_file) (key_path "cert:a.org.bin") ≡ none
unfolding get key_path
name_unfound = refl

migrate-none_example : migrate (λ n. "n") file_storage memory_storage no_copy ≡ (ok tt, no_copy)
unfolding Dict.keys
migrate-none_example = migrate-none (λ n. "n") memory_storage no_copy refl (name_unfound, tt)

abbrev stored : Disk
stored = record one_file { files = ("cert:b.org.bin", 2 ∷ []) ∷ Disk.files one_file }

no_slash : (has_slash "cert:a.org" ≡ false) × (has_slash "cert:b.org" ≡ false)
unfolding has_slash
no_slash = (refl, refl)

stores : Backend.store file_storage "cert:b.org" (2 ∷ []) one_file ≡ (ok tt, stored)
unfolding file_storage Files.fs_call key_path Dict.insert Dict.remove ◌>>=◌
stores = refl

loads : Backend.load file_storage "cert:a.org" stored ≡ (ok (some (1 ∷ [])), stored)
unfolding file_storage Files.fs_call key_path get ◌>>=◌
loads = refl

load-store_file_example : some (1 ∷ []) ≡ (
    if "cert:b.org" == "cert:a.org"
    then some (2 ∷ [])
    else get (Disk.files one_file) (key_path "cert:a.org"))
load-store_file_example =
    load-store_file "cert:b.org" "cert:a.org" (2 ∷ []) one_file stored stored (some (1 ∷ []))
      no_slash.1 no_slash.0 stores loads

abbrev unasked : CachingDnsResolver
unasked = new_resolver (done ("x" ∷ []) ∷ [])

abbrev once_asked : CachingDnsResolver
once_asked = record {
  cache = DnsCache.set_txt (DnsCache.new 60000000000) 3 "a.org" ("x" ∷ []) none;
  answers = [];
  asked = "a.org" ∷ [];
}

missed : DnsCache.get_txt unasked.cache 0 "a.org" ≡ none
unfolding new_resolver DnsCache.new DnsCache.get_txt DnsCache.look_up get
missed = refl

in_time : 5 ≤ 3 + unasked.cache.default_ttl
unfolding new_resolver DnsCache.new
in_time = omega arith

asks : resolve_txt 0 3 "a.org" unasked ≡ (ok ("x" ∷ []), once_asked)
unfolding resolve_txt Resolver.look_up_on_net new_resolver DnsCache.new DnsCache.get_txt
    DnsCache.look_up get ◌>>=◌
asks = refl

resolve_txt-resolve_txt_example : resolve_txt 5 6 "a.org" once_asked ≡ (ok ("x" ∷ []), once_asked)
resolve_txt-resolve_txt_example =
    resolve_txt-resolve_txt 0 3 5 6 "a.org" ("x" ∷ []) unasked once_asked missed in_time asks

abbrev counting : MiddlewareChain ℕ
counting = record default_hooks { before_request = λ url method n. (ok tt, suc n) } ∷ []

abbrev only_get : Middleware ℕ
only_get = record default_hooks {
  before_request =
      λ url method. if method == "GET" then pure tt else fail (AcmeError.transport method);
}

refused : before_request (push counting only_get) "u" "PUT" 0 ≡ (err (AcmeError.transport "PUT"), 1)
unfolding before_request push ◌>>=◌
refused = refl
