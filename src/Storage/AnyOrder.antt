-- ===== src/Storage/AnyOrder.antt =====
-- The keys of src/storage/cert_store.rs, and the order of the domains they are made from.
use mathlib.Core.HLevel.{hedberg}
use mathlib.Core.List
use mathlib.Core.List.{Perm, foldr}
use mathlib.Core.List.Perm
use acmex.Base.{
  String, ℕ, ◌<>◌, ◌≡◌, refl, sym, ap, ◌∙◌, inl, inr, true, false, Bool-cases, ◌==◌, eq_iff,
  false≢true, Option, some, List, [], ◌∷◌,
}
use acmex.Base.TextOrder.{le, le_trans, le_total, le_antisym}
use acmex.Act.{ok, done, ◌>>=◌}
use acmex.Client.Issue.{CertificateBundle}
use acmex.Storage.Backend.{Backend, IsMap}
use acmex.Storage.Certificates.{
  insert_sorted, sort, join, key_for_domains, Codec, save, load, decoded, load-save,
}

-- A text goes in front of the head or behind it.
in_front : (x y : String) (ys : List String) → le x y ≡ true → insert_sorted x (y ∷ ys) ≡ x ∷ y ∷ ys
unfolding insert_sorted
in_front x y ys h = rw h refl

behind :
    (x y : String) (ys : List String)
    → le x y ≡ false
    → insert_sorted x (y ∷ ys) ≡ y ∷ insert_sorted x ys
unfolding insert_sorted
behind x y ys h = rw h refl

other_way : (x y : String) → le x y ≡ false → le y x ≡ true
other_way x y h = elim (le_total x y) [ inl a ↦ cc | inr b ↦ b ]

-- Both in front of the rest.
front_comm :
    (x y : String) (ys : List String)
    → insert_sorted x ys ≡ x ∷ ys
    → insert_sorted y ys ≡ y ∷ ys
    → insert_sorted x (y ∷ ys) ≡ insert_sorted y (x ∷ ys)
front_comm x y ys hx hy = elim (Bool-cases (le x y)) [
  | inl a ↦ elim (Bool-cases (le y x)) [
    | inl b ↦
        ap (λ z. insert_sorted z (y ∷ ys)) (le_antisym x y a b)
        ∙ ap (λ z. insert_sorted y (z ∷ ys)) (sym (le_antisym x y a b))
    | inr b ↦ in_front x y ys a ∙ ap (λ l. x ∷ l) (sym hy) ∙ sym (behind y x ys b)
  ]
  | inr a ↦ behind x y ys a ∙ ap (λ l. y ∷ l) hx ∙ sym (in_front y x ys (other_way x y a))
]

-- One in front of a head that the other is behind.
apart_comm :
    (x y z : String) (zs : List String)
    → le y z ≡ true
    → le x z ≡ false
    → insert_sorted x (y ∷ z ∷ zs) ≡ insert_sorted y (z ∷ insert_sorted x zs)
apart_comm x y z zs a b = elim (Bool-cases (le x y)) [
  | inl c ↦ let wrong = le_trans x y z c a in cc
  | inr c ↦
      behind x y (z ∷ zs) c
      ∙ ap (λ l. y ∷ l) (behind x z zs b)
      ∙ sym (in_front y z (insert_sorted x zs) a)
]

insert_comm :
    (x y : String) (l : List String)
    → insert_sorted x (insert_sorted y l) ≡ insert_sorted y (insert_sorted x l)
unfolding insert_sorted
insert_comm x y [] = front_comm x y [] (alone x) (alone y)
  where
    alone : (z : String) → insert_sorted z [] ≡ z ∷ []
    alone z = refl
insert_comm x y (z ∷ zs) = elim (Bool-cases (le y z)) [
  | inl a ↦ elim (Bool-cases (le x z)) [
    | inl b ↦
        ap (insert_sorted x) (in_front y z zs a)
        ∙ front_comm x y (z ∷ zs) (in_front x z zs b) (in_front y z zs a)
        ∙ ap (insert_sorted y) (sym (in_front x z zs b))
    | inr b ↦
        ap (insert_sorted x) (in_front y z zs a)
        ∙ apart_comm x y z zs a b
        ∙ ap (insert_sorted y) (sym (behind x z zs b))
  ]
  | inr a ↦ elim (Bool-cases (le x z)) [
    | inl b ↦
        ap (insert_sorted x) (behind y z zs a)
        ∙ sym (apart_comm y x z zs b a)
        ∙ ap (insert_sorted y) (sym (in_front x z zs b))
    | inr b ↦
        ap (insert_sorted x) (behind y z zs a)
        ∙ behind x z (insert_sorted y zs) b
        ∙ ap (λ l. z ∷ l) (insert_comm x y zs)
        ∙ sym (behind y z (insert_sorted x zs) a)
        ∙ ap (insert_sorted y) (sym (behind x z zs b))
  ]
]

text_discrete : Discrete String
text_discrete s t = elim (Bool-cases (s == t)) [
  | inl same ↦ yes ((eq_iff s t).0 same)
  | inr differ ↦ no (λ e. false≢true (sym differ ∙ (eq_iff s t).1 e))
]

sort-foldr : (ds : List String) → sort ds ≡ foldr insert_sorted [] ds
unfolding sort
sort-foldr [] = refl
sort-foldr (d ∷ ds) = ap (insert_sorted d) (sort-foldr ds)

sort-Perm : (xs ys : List String) → Perm xs ys → sort xs ≡ sort ys
sort-Perm xs ys p =
    sort-foldr xs
    ∙ Perm.foldr-eq (List.is_set (hedberg text_discrete)) insert_sorted insert_comm p []
    ∙ sym (sort-foldr ys)

-- The same domains in another order make the same key.
key_for_domains-Perm : (xs ys : List String) → Perm xs ys → key_for_domains xs ≡ key_for_domains ys
unfolding key_for_domains
key_for_domains-Perm xs ys p = ap (λ ds. "cert:" <> join ds) (sort-Perm xs ys p)

module _ {S : Type 0} (codec : Codec) (backend : Backend S)
    (reads_back : (b : CertificateBundle) (bytes : List ℕ)
      → Codec.to_vec codec b ≡ done bytes
      → Codec.from_slice codec bytes ≡ done b)
    (view : S → String → Option (List ℕ)) (laws : IsMap backend view) where
  load-Perm : (xs ys : List String) → Perm xs ys → load codec backend xs ≡ load codec backend ys
  unfolding load
  load-Perm xs ys p =
      ap (λ k. Backend.load backend k >>= decoded codec backend) (key_for_domains-Perm xs ys p)

  -- For a codec that reads back what it writes and a backend that is a map: after a save that
  -- succeeded, whenever the backend loads the key, the bundle is loaded by its domains in any order.
  pub load-save_any_order :
      (b : CertificateBundle) (ds : List String) (s t u : S) (o : Option (List ℕ))
      → Perm ds b.domains
      → save codec backend b s ≡ (ok tt, t)
      → Backend.load backend (key_for_domains ds) t ≡ (ok o, u)
      → load codec backend ds t ≡ (ok (some b), u)
  load-save_any_order b ds s t u o p saved loaded =
      ap (λ f. f t) (load-Perm ds b.domains p)
      ∙ load-save codec backend reads_back view laws b s t u o saved
          (ap (λ k. Backend.load backend k t) (sym (key_for_domains-Perm ds b.domains p)) ∙ loaded)
