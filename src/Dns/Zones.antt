-- ===== src/Dns/Zones.antt =====
-- The zone of a domain and the name of a record in it, as src/dns/providers/godaddy.rs computes them
-- (azure.rs, google.rs and cloudns.rs take the same two labels).
use Prim.Native.Char.{Char, char, IsScalar}
use Prim.Native.String.{String, [], ◌∷◌, ◌++◌ as ◌<>◌}
use mathlib.Core.List.{List, [] as nil, ◌∷◌ as ◌:+◌}
use text.Mathlib.TextLemmas.{
  append_assoc, cons-append, nil-append, cons-ne-nil, append_cancel_right,
}
use acmex.Base.{
  ℕ, suc, ◌<◌, ◌≡◌, refl, sym, ap, subst, ◌∙◌, eqb, ◌==◌, ◌&&◌, eq_iff, Bool, true, false,
  Bool-cases, inl, inr, ltb, Option, none, some, unwrap_or, length, if◌then◌else◌, arith,
}
use acmex.Base.Split.{split_dot, is_dot, longer}

-- `parts.join(".")`
unfoldable pub join_dot : List String → String
join_dot nil = ""
join_dot (x :+ nil) = x
join_dot (x :+ (y :+ ys)) = x <> ("." <> join_dot (y :+ ys))

-- `parts[len - 2..]`, of three parts or more
unfoldable pub last_two : List String → List String
last_two (a :+ (b :+ (c :+ rest))) = last_two (b :+ (c :+ rest))
last_two parts = parts

abbrev pub kept : Char → Option String → Option String
kept c none = none
kept c (some s) = some (c ∷ s)

-- `str::strip_suffix`
unfoldable pub strip_suffix : String → String → Option String
strip_suffix [] suffix = if [] == suffix then some [] else none
strip_suffix (c ∷ s) suffix =
    let rest = strip_suffix s suffix in if (c ∷ s) == suffix then some [] else kept c rest

-- `trim_end_matches('.')`
unfoldable pub trim_dots : String → String
trim_dots [] = []
trim_dots (c ∷ s) = let rest = trim_dots s in if is_dot c && rest == "" then [] else c ∷ rest

unfoldable pub get_domain_name : String → String
unfolding join_dot last_two split_dot
get_domain_name domain =
    let parts = split_dot domain in
    if ltb 2 (length parts) then join_dot (last_two parts) else domain

unfoldable pub get_record_name : String → String
unfolding get_domain_name strip_suffix
get_record_name domain = unwrap_or (strip_suffix domain ("." <> get_domain_name domain)) "@"

dot_cons : (t : String) → "." <> t ≡ "." ∷ t
dot_cons t = cons-append "." [] t ∙ ap (λ u. "." ∷ u) (nil-append t)

dot_char : (c : Char) → is_dot c ≡ true → c ≡ "."
dot_char (char n p) h =
    subst (λ m. (q : IsScalar m) → char m q ≡ ".") (sym (forty_six n h)) (λ q. refl) p
  where
    forty_six : (n : ℕ) → eqb n 46 ≡ true → n ≡ 46
    forty_six n h = ground (arith, h)

join-longer :
    (c : Char) (p : String) (ps : List String)
    → join_dot (longer c (p :+ ps)) ≡ c ∷ join_dot (p :+ ps)
unfolding join_dot
join-longer c p nil = refl
join-longer c p (q :+ qs) = cons-append c p ("." <> join_dot (q :+ qs))

-- A text is the parts that it splits into, joined.
join-cons :
    (b : Bool) (c : Char) (s : String) (parts : List String)
    → is_dot c ≡ b
    → (p : String) (ps : List String) → parts ≡ p :+ ps
    → join_dot parts ≡ s
    → join_dot (if b then [] :+ parts else longer c parts) ≡ c ∷ s
unfolding join_dot
join-cons true c s parts d p ps e h =
    ap (λ qs. join_dot ([] :+ qs)) e
    ∙ nil-append ("." <> join_dot (p :+ ps))
    ∙ dot_cons (join_dot (p :+ ps))
    ∙ ap (λ x. x ∷ join_dot (p :+ ps)) (sym (dot_char c d))
    ∙ ap (λ u. c ∷ u) (ap join_dot (sym e) ∙ h)
join-cons false c s parts d p ps e h =
    ap (λ qs. join_dot (longer c qs)) e
    ∙ join-longer c p ps
    ∙ ap (λ u. c ∷ u) (ap join_dot (sym e) ∙ h)

some_part :
    (b : Bool) (c : Char) (parts : List String) (p : String) (ps : List String)
    → parts ≡ p :+ ps
    → (q : String) × (qs : List String) × ((if b then [] :+ parts else longer c parts) ≡ q :+ qs)
some_part true c parts p ps e = ([], parts, refl)
some_part false c parts p ps e = (c ∷ p, ps, ap (longer c) e)

split-parts : (s : String) → (p : String) × (ps : List String) × (split_dot s ≡ p :+ ps)
unfolding split_dot
split-parts [] = ([], nil, refl)
split-parts (c ∷ s) = let (p, ps, e) = split-parts s in some_part (is_dot c) c (split_dot s) p ps e

join-split : (s : String) → join_dot (split_dot s) ≡ s
unfolding split_dot join_dot
join-split [] = refl
join-split (c ∷ s) =
    let (p, ps, e) = split-parts s in
    join-cons (is_dot c) c s (split_dot s) refl p ps e (join-split s)

-- Three parts or more are something in front of the last two.
join-last_two :
    (a b c : String) (rest : List String)
    → (front : String) × (join_dot (a :+ (b :+ (c :+ rest)))
        ≡ front <> ("." <> join_dot (last_two (a :+ (b :+ (c :+ rest))))))
unfolding join_dot last_two
join-last_two a b c nil = (a, refl)
join-last_two a b c (d :+ rest) =
    let (front, e) = join-last_two b c d rest in
    (
      a <> ("." <> front),
      ap (λ t. a <> ("." <> t)) e
          ∙ ap (λ t. a <> t) (sym (append_assoc "." front _))
          ∙ sym (append_assoc a ("." <> front) _),
    )

-- A suffix is stripped from what it was appended to.
strip_self : (suffix : String) → strip_suffix suffix suffix ≡ some []
unfolding strip_suffix
strip_self [] = refl
strip_self (c ∷ s) = rw ((eq_iff (c ∷ s) (c ∷ s)).1 refl) refl

longer_than : (c : Char) (a b : String) → (c ∷ (a <> b)) == b ≡ false
longer_than c a b = elim (Bool-cases ((c ∷ (a <> b)) == b)) [
  | inl same ↦ absurd (
      cons-ne-nil c a (
        append_cancel_right (c ∷ a) [] b
          (cons-append c a b ∙ (eq_iff (c ∷ (a <> b)) b).0 same ∙ sym (nil-append b))))
  | inr differ ↦ differ
]

strip_suffix-append : (a b : String) → strip_suffix (a <> b) b ≡ some a
unfolding strip_suffix
strip_suffix-append [] b = ap (λ t. strip_suffix t b) (nil-append b) ∙ strip_self b
strip_suffix-append (c ∷ a) b =
    ap (λ t. strip_suffix t b) (cons-append c a b)
    ∙ ap (λ x. if x then some [] else kept c (strip_suffix (a <> b) b)) (longer_than c a b)
    ∙ ap (kept c) (strip_suffix-append a b)

stripped :
    (front zone domain : String)
    → domain ≡ front <> ("." <> zone)
    → unwrap_or (strip_suffix domain ("." <> zone)) "@" <> ("." <> zone) ≡ domain
stripped front zone domain e =
    ap (λ o. unwrap_or o "@" <> ("." <> zone))
      (ap (λ t. strip_suffix t ("." <> zone)) e ∙ strip_suffix-append front ("." <> zone))
    ∙ sym e

recomposed :
    (parts : List String) (domain : String)
    → join_dot parts ≡ domain
    → 2 < length parts
    → let zone = if ltb 2 (length parts) then join_dot (last_two parts) else domain in
      unwrap_or (strip_suffix domain ("." <> zone)) "@" <> ("." <> zone) ≡ domain
recomposed nil domain e h = absurd (omega (arith, h))
recomposed (a :+ nil) domain e h = absurd (omega (arith, h))
recomposed (a :+ (b :+ nil)) domain e h = absurd (omega (arith, h))
recomposed (a :+ (b :+ (c :+ rest))) domain e h =
    let (front, parted) = join-last_two a b c rest in
    subst
      (λ x.
        let zone = if x then join_dot (last_two (a :+ (b :+ (c :+ rest)))) else domain in
        unwrap_or (strip_suffix domain ("." <> zone)) "@" <> ("." <> zone) ≡ domain)
      (sym (three (length rest)))
      (stripped front (join_dot (last_two (a :+ (b :+ (c :+ rest))))) domain (sym e ∙ parted))
  where
    three : (n : ℕ) → ltb 2 (suc (suc (suc n))) ≡ true
    three n = ground arith

-- For a domain of more than two labels, the name of the record and the zone make up the domain.
pub get_record_name-get_domain_name :
    (domain : String)
    → 2 < length (split_dot domain)
    → get_record_name domain <> ("." <> get_domain_name domain) ≡ domain
unfolding get_record_name get_domain_name
get_record_name-get_domain_name domain h =
    recomposed (split_dot domain) domain (join-split domain) h
