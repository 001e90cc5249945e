-- ===== src/RateLimit/Spacing.antt =====
-- What a sliding-window limiter promises, for either of the two: among the recorded calls, oldest
-- first, one and the `max`-th after it lie a window apart.
use stock_trader.Prelude.{
  ℕ, zero, suc, ◌+◌, ◌≤◌, ◌<◌, ◌≡◌, refl, sym, ap, ◌∙◌, ◌⊎◌, inl, inr, List, [], ◌∷◌, ◌++◌, some,
  arith, length, get_elem?, length-append, get_elem?-append_left, get_elem?-lt, All, All-get_elem?,
}

-- `history` holds at most `max` calls in any span of time shorter than `window`.
pub record IsSpaced (max window : ℕ) (history : List ℕ) : Type 0 where
  pub spaced :
      (i a b : ℕ)
      → get_elem? history i ≡ some a
      → get_elem? history (i + max) ≡ some b
      → a + window ≤ b

pub IsSpaced-nil : (max window : ℕ) → IsSpaced max window []
IsSpaced-nil max window = record { spaced = λ i a b p q. cc }

-- The element at an index of `xs ++ now ∷ []`: one of `xs`, or `now` itself.
get_elem?-snoc :
    (xs : List ℕ) (now i b : ℕ)
    → get_elem? (xs ++ now ∷ []) i ≡ some b
    → (get_elem? xs i ≡ some b) ⊎ ((i ≡ length xs) × (b ≡ now))
get_elem?-snoc [] now zero b h = inr (refl, cc)
get_elem?-snoc [] now (suc i) b h = absurd (cc)
get_elem?-snoc (x ∷ xs) now zero b h = inl h
get_elem?-snoc (x ∷ xs) now (suc i) b h = elim (get_elem?-snoc xs now i b h) [
  | inl e ↦ inl e
  | inr (e, f) ↦ inr (ap suc e, f)
]

-- The calls that have left the window by `now`.
abbrev pub HaveLeft : ℕ → ℕ → List ℕ → Type 0
HaveLeft window now = All (λ a. a + window ≤ now)

pub HaveLeft-later :
    (window s t : ℕ) (xs : List ℕ) → s ≤ t → HaveLeft window s xs → HaveLeft window t xs
HaveLeft-later window s t [] le h = tt
HaveLeft-later window s t (x ∷ xs) le h = (omega arith, HaveLeft-later window s t xs le h.1)

-- A call may be admitted at `now` once fewer than `max` of the recorded calls are `recent`, if all
-- others are a window old.
module _ (max window now : ℕ) (old recent : List ℕ) where
  pub IsSpaced-admit :
      IsSpaced max window (old ++ recent)
      → HaveLeft window now old
      → length recent < max
      → IsSpaced max window ((old ++ recent) ++ now ∷ [])
  IsSpaced-admit h left room = record {
    spaced = λ i a b p q. elim (get_elem?-snoc (old ++ recent) now i a p) [
      | inl p' ↦ elim (get_elem?-snoc (old ++ recent) now (i + max) b q) [
        | inl q' ↦ h.spaced i a b p' q'
        | inr (e, f) ↦
            let small : i < length old = omega (arith, length-append old recent) in
            let at_i : get_elem? old i ≡ some a =
              sym (get_elem?-append_left old recent i small) ∙ p' in
            let gone : a + window ≤ now = All-get_elem? (λ t. t + window ≤ now) old i left at_i in
            omega arith
      ]
      | inr (e, f) ↦ elim (get_elem?-snoc (old ++ recent) now (i + max) b q) [
        | inl q' ↦ absurd (omega (arith, get_elem?-lt (old ++ recent) (i + max) q'))
        | inr (e', f') ↦ absurd (omega arith)
      ]
    ];
  }
