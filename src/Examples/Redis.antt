-- ===== src/Examples/Redis.antt =====
-- A sorted set as a list of its members with their scores.
use stock_trader.Prelude.{
  ℕ, ◌≤◌, ◌<◌, ◌≡◌, ◌↔◌, refl, ap, inl, inr, Bool, true, false, not, ◌||◌, List, [], ◌∷◌, String,
  str_eq, length, filter, ltb, leb, arith, All, Bool-cases, if◌then◌else◌,
}
use stock_trader.Prelude.Int.{ℤ}
use stock_trader.Prelude.Sorted.{IsSorted, insert_sorted}
use stock_trader.RateLimit.SortedSet.{SortedSets, head?, in_range}

abbrev Entries : Type 0
Entries = List (ℕ × String)

abbrev entry_scores : Entries → List ℕ
entry_scores [] = []
entry_scores ((s, _) ∷ z) = insert_sorted s (entry_scores z)

abbrev entry_has : String → Entries → Bool
entry_has m [] = false
entry_has m ((_, k) ∷ z) = str_eq k m || entry_has m z

abbrev remove_range : ℤ → ℤ → Entries → Entries
remove_range lo hi [] = []
remove_range lo hi ((s, m) ∷ z) =
    let rest = remove_range lo hi z in if in_range lo hi s then rest else (s, m) ∷ rest

insert_sorted-All :
    (P : ℕ → Type 0) (a : ℕ) (xs : List ℕ) → P a → All P xs → All P (insert_sorted a xs)
insert_sorted-All P a [] p h = (p, tt)
insert_sorted-All P a (x ∷ xs) p h = elim (Bool-cases (ltb a x)) [
  | inl first ↦ rw first (p, h)
  | inr later ↦ rw later (h.0, insert_sorted-All P a xs p h.1)
]

All-le : (a b : ℕ) (xs : List ℕ) → a ≤ b → All (λ y. b ≤ y) xs → All (λ y. a ≤ y) xs
All-le a b [] le h = tt
All-le a b (x ∷ xs) le h = (omega (arith, h.0), All-le a b xs le h.1)

insert_sorted-IsSorted : (a : ℕ) (xs : List ℕ) → IsSorted xs → IsSorted (insert_sorted a xs)
insert_sorted-IsSorted a [] h = (tt, tt)
insert_sorted-IsSorted a (x ∷ xs) h = elim (Bool-cases (ltb a x)) [
  | inl first ↦ let le : a ≤ x = ground arith in rw first ((le, All-le a x xs le h.0), h)
  | inr later ↦
      let le : x ≤ a = ground arith in
      rw later (insert_sorted-All (λ y. x ≤ y) a xs le h.0, insert_sorted-IsSorted a xs h.1)
]

pub entry_scores-IsSorted : (z : Entries) → IsSorted (entry_scores z)
entry_scores-IsSorted [] = tt
entry_scores-IsSorted ((s, _) ∷ z) =
    insert_sorted-IsSorted s (entry_scores z) (entry_scores-IsSorted z)

filter-above :
    (p : ℕ → Bool) (a x : ℕ) (xs : List ℕ)
    → a < x
    → All (λ y. x ≤ y) xs
    → insert_sorted a (filter p xs) ≡ a ∷ filter p xs
filter-above p a x [] lt h = refl
filter-above p a x (y ∷ ys) lt h = elim (Bool-cases (p y)) [
  | inl kept ↦ rw kept (let le = h.0 in ground arith)
  | inr gone ↦ rw gone (filter-above p a x ys lt h.1)
]

filter-insert_sorted :
    (p : ℕ → Bool) (a : ℕ) (xs : List ℕ)
    → IsSorted xs
    → filter p (insert_sorted a xs) ≡ (if p a then insert_sorted a (filter p xs) else filter p xs)
filter-insert_sorted p a [] h = refl
filter-insert_sorted p a (x ∷ xs) h = elim (Bool-cases (ltb a x)) [
  | inl first ↦ elim (Bool-cases (p x)) [
    | inl kept ↦ rw (first, kept) (rw first refl)
    | inr gone ↦ rw (first, gone) (rw (filter-above p a x xs (ground arith) h.0) refl)
  ]
  | inr later ↦ ground (arith, filter-insert_sorted p a xs h.1)
]

pub entry_scores-remove_range :
    (lo hi : ℤ) (z : Entries)
    → entry_scores (remove_range lo hi z) ≡ filter (λ s. not (in_range lo hi s)) (entry_scores z)
entry_scores-remove_range lo hi [] = refl
entry_scores-remove_range lo hi ((s, m) ∷ z) =
    let split =
      filter-insert_sorted (λ s. not (in_range lo hi s)) s (entry_scores z)
        (entry_scores-IsSorted z) in
    elim (Bool-cases (in_range lo hi s)) [
      | inl gone ↦ rw split (rw gone (entry_scores-remove_range lo hi z))
      | inr kept ↦ rw split (rw kept (ap (insert_sorted s) (entry_scores-remove_range lo hi z)))
    ]

pub entry_has-remove_range :
    (lo hi : ℤ) (m : String) (z : Entries)
    → entry_has m z ≡ false
    → entry_has m (remove_range lo hi z) ≡ false
entry_has-remove_range lo hi m [] h = refl
entry_has-remove_range lo hi m ((s, k) ∷ z) h = elim (Bool-cases (str_eq k m)) [
  | inl same ↦ absurd (let e = rw same at h in cc)
  | inr other ↦
      let ih = entry_has-remove_range lo hi m z (rw other at h) in
      elim (Bool-cases (in_range lo hi s)) [
        | inl gone ↦ rw gone ih
        | inr kept ↦ rw (kept, other) ih
      ]
]

pub leb_iff : (d now : ℕ) → (leb d now ≡ true) ↔ (d ≤ now)
leb_iff d now = ground arith

abbrev pub list_redis : SortedSets
list_redis = record {
  ZSet = Entries;
  empty = [];
  zremrangebyscore = remove_range;
  zcard = λ z. length (entry_scores z);
  zadd = λ s m z. (s, m) ∷ z;
  zrange_first = λ z. head? (entry_scores z);
  expired = leb;
  scores = entry_scores;
  has = entry_has;
  scores-IsSorted = entry_scores-IsSorted;
  scores-empty = refl;
  has-empty = λ m. refl;
  scores-zremrangebyscore = entry_scores-remove_range;
  has-zremrangebyscore = entry_has-remove_range;
  zcard-length = λ z. refl;
  scores-zadd = λ s m z h. refl;
  has-zadd = λ s k m z. refl;
  zrange_first-head = λ z. refl;
  expired_iff = leb_iff;
}
