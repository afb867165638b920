-- ===== src/Connect/EventTypes.antt =====
-- matches_event_type of services/connect-service/src/services/tp_webhook_service.py: which events an
-- endpoint subscribes to. A pattern and an event type are the lists of their code points.
use multi_tenant_event_drive.Prelude.{
  ℕ, ◌≡◌, refl, ◌↔◌, ◌⊎◌, inl, inr, Bool, true, false, ◌&&◌, ◌||◌, Option, none, some, List, [],
  ◌∷◌, ◌++◌, arith, ◌==◌, ==_iff, ==_refl, &&-true, Bool-cases, Option-cases, if◌then◌else◌,
  text_eq, text_eq-eq, text_eq_self,
}

-- event_type.startswith(prefix)
unfoldable pub starts_with : List ℕ → List ℕ → Bool
starts_with [] t = true
starts_with (a ∷ s) [] = false
starts_with (a ∷ s) (b ∷ t) = (a == b) && starts_with s t

-- pattern[:-2], where pattern.endswith(".*")
unfoldable pub without_wildcard : List ℕ → Option (List ℕ)
without_wildcard [] = none
without_wildcard (a ∷ []) = none
without_wildcard (a ∷ b ∷ []) = if (a == b'.') && (b == b'*') then some [] else none
without_wildcard (a ∷ b ∷ c ∷ rest) = elim (without_wildcard (b ∷ c ∷ rest)) [
  | none ↦ none
  | some prefix ↦ some (a ∷ prefix)
]

-- The body of the loop, for one pattern.
unfoldable pub matches_pattern : List ℕ → List ℕ → Bool
unfolding without_wildcard starts_with
matches_pattern pattern event_type =
    text_eq pattern (b'*' ∷ [])
    || (text_eq pattern event_type || elim (without_wildcard pattern) [
      | none ↦ false
      | some prefix ↦ starts_with (prefix ++ b'.' ∷ []) event_type
    ])

unfoldable pub matches_event_type : List (List ℕ) → List ℕ → Bool
unfolding matches_pattern
matches_event_type [] event_type = false
matches_event_type (pattern ∷ rest) event_type =
    matches_pattern pattern event_type || matches_event_type rest event_type

starts_with-append : (s t : List ℕ) → starts_with s t ≡ true → (rest : List ℕ) × (t ≡ s ++ rest)
unfolding starts_with
starts_with-append [] t h = (t, refl)
starts_with-append (a ∷ s) [] h = cc
starts_with-append (a ∷ s) (b ∷ t) h =
    let (first, more) = &&-true (a == b) (starts_with s t) h in
    let (rest, e) = starts_with-append s t more in (rest, cc ((==_iff a b).0 first, e))

append-starts_with : (s rest : List ℕ) → starts_with s (s ++ rest) ≡ true
unfolding starts_with
append-starts_with [] rest = refl
append-starts_with (a ∷ s) rest = rw (==_refl a) (append-starts_with s rest)

without_wildcard-some :
    (pattern prefix : List ℕ)
    → without_wildcard pattern ≡ some prefix
    → pattern ≡ prefix ++ b'.' ∷ b'*' ∷ []
unfolding without_wildcard
without_wildcard-some [] prefix h = cc
without_wildcard-some (a ∷ []) prefix h = cc
without_wildcard-some (a ∷ b ∷ []) [] h = ground (arith, (==_iff a b'.').0, (==_iff b b'*').0)
without_wildcard-some (a ∷ b ∷ []) (p ∷ prefix) h = ground arith
without_wildcard-some (a ∷ b ∷ c ∷ rest) [] h = ground arith
without_wildcard-some (a ∷ b ∷ c ∷ rest) (p ∷ prefix) h =
    ground (arith, without_wildcard-some (b ∷ c ∷ rest) prefix)

without_wildcard-append :
    (prefix : List ℕ) → without_wildcard (prefix ++ b'.' ∷ b'*' ∷ []) ≡ some prefix
unfolding without_wildcard
without_wildcard-append [] = refl
without_wildcard-append (a ∷ []) = refl
without_wildcard-append (a ∷ b ∷ []) = refl
without_wildcard-append (a ∷ b ∷ c ∷ prefix) = rw (without_wildcard-append (b ∷ c ∷ prefix)) refl

-- How a pattern takes an event type: `*`, the type itself, or `prefix.*` for a type that starts with
-- `prefix.`.
abbrev pub Subscribes : List ℕ → List ℕ → Type 0
Subscribes pattern event_type =
    (pattern ≡ b'*' ∷ [])
    ⊎ (pattern ≡ event_type)
    ⊎ ((prefix rest : List ℕ) × (pattern ≡ prefix ++ b'.' ∷ b'*' ∷ [])
        × (event_type ≡ (prefix ++ b'.' ∷ []) ++ rest))

abbrev pub SubscribesAny : List (List ℕ) → List ℕ → Type 0
SubscribesAny [] event_type = ⊥
SubscribesAny (pattern ∷ rest) event_type =
    Subscribes pattern event_type ⊎ SubscribesAny rest event_type

matches_pattern-Subscribes :
    (pattern event_type : List ℕ)
    → matches_pattern pattern event_type ≡ true
    → Subscribes pattern event_type
unfolding matches_pattern
matches_pattern-Subscribes pattern event_type h = elim (Bool-cases (text_eq pattern (b'*' ∷ []))) [
  | inl all ↦ inl (text_eq-eq pattern (b'*' ∷ []) all)
  | inr not_all ↦ elim (Bool-cases (text_eq pattern event_type)) [
    | inl exact ↦ inr (inl (text_eq-eq pattern event_type exact))
    | inr not_exact ↦ elim (Option-cases (without_wildcard pattern)) [
      | inl plain ↦ absurd (ground arith)
      | inr (prefix, wild) ↦
          let (rest, e) = starts_with-append (prefix ++ b'.' ∷ []) event_type (ground arith) in
          inr (inr (prefix, rest, without_wildcard-some pattern prefix wild, e))
    ]
  ]
]

Subscribes-matches_pattern :
    (pattern event_type : List ℕ)
    → Subscribes pattern event_type
    → matches_pattern pattern event_type ≡ true
unfolding matches_pattern
Subscribes-matches_pattern pattern event_type (inl all) = ground (arith, text_eq_self pattern)
Subscribes-matches_pattern pattern event_type (inr (inl exact)) =
    ground (arith, text_eq_self pattern)
Subscribes-matches_pattern pattern event_type (inr (inr (prefix, rest, wild, e))) =
    ground (arith, without_wildcard-append prefix, append-starts_with (prefix ++ b'.' ∷ []) rest)

-- An endpoint gets an event exactly when one of its patterns is `*`, is the event's type, or is
-- `prefix.*` for a prefix that a dot follows in the event's type.
pub matches_event_type_iff :
    (subscribed_types : List (List ℕ)) (event_type : List ℕ)
    → (matches_event_type subscribed_types event_type ≡ true)
      ↔ SubscribesAny subscribed_types event_type
unfolding matches_event_type
matches_event_type_iff [] event_type = ground arith
matches_event_type_iff (pattern ∷ rest) event_type = ground (
  arith,
  matches_pattern-Subscribes pattern event_type,
  Subscribes-matches_pattern pattern event_type,
  matches_event_type_iff rest event_type,
)
