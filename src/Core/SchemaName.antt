-- ===== src/Core/SchemaName.antt =====
-- src/utils/validators.py of the three services: `^m_[a-f0-9]{32}$`, the guard of every statement
-- that a schema name is spliced into. A text is the list of its code points.
use multi_tenant_event_drive.Prelude.{
  ℕ, zero, suc, ◌≡◌, refl, ◌↔◌, ◌⊎◌, inl, inr, Bool, true, false, ◌&&◌, ◌||◌, [], ◌∷◌, ◌++◌, All,
  length, arith, leb, ◌==◌, ==_iff, &&-true, ap,
}
use multi_tenant_event_drive.Core.Rows.{Text}

-- [a-f0-9]
unfoldable pub is_hex : ℕ → Bool
is_hex c = (leb b'a' c && leb c b'f') || (leb b'0' c && leb c b'9')

-- `n` digits and then `$`, which also matches before a final newline.
unfoldable pub hex_run : ℕ → Text → Bool
hex_run zero [] = true
hex_run zero (c ∷ []) = c == 10
hex_run zero (c ∷ d ∷ rest) = false
hex_run (suc n) [] = false
hex_run (suc n) (c ∷ rest) = is_hex c && hex_run n rest

-- SCHEMA_PATTERN.match(schema) is not None
unfoldable pub valid_schema_name : Text → Bool
valid_schema_name (m ∷ u ∷ rest) = (m == b'm') && ((u == b'_') && hex_run 32 rest)
valid_schema_name _ = false

abbrev pub IsHex : ℕ → Type 0
IsHex c = is_hex c ≡ true

hex_run-splits :
    (n : ℕ) (s : Text)
    → hex_run n s ≡ true
    → (digits : Text) × (length digits ≡ n)
      × All IsHex digits
      × ((s ≡ digits) ⊎ (s ≡ digits ++ 10 ∷ []))
unfolding hex_run
hex_run-splits zero [] h = ([], refl, tt, inl refl)
hex_run-splits zero (c ∷ []) h = ([], refl, tt, inr (rw ((==_iff c 10).0 h)))
hex_run-splits zero (c ∷ d ∷ rest) h = cc
hex_run-splits (suc n) [] h = cc
hex_run-splits (suc n) (c ∷ rest) h =
    let (digits, len, hex, shape) = hex_run-splits n rest (ground arith) in
    (
      c ∷ digits,
      omega arith,
      (ground arith, hex),
      elim shape [ inl e ↦ inl (ap (λ t. c ∷ t) e) | inr e ↦ inr (ap (λ t. c ∷ t) e) ],
    )

hex_run-digits : (digits : Text) → All IsHex digits → hex_run (length digits) digits ≡ true
unfolding hex_run
hex_run-digits [] h = refl
hex_run-digits (c ∷ cs) h = ground (arith, hex_run-digits cs h.1)

hex_run-newline :
    (digits : Text) → All IsHex digits → hex_run (length digits) (digits ++ 10 ∷ []) ≡ true
unfolding hex_run
hex_run-newline [] h = refl
hex_run-newline (c ∷ cs) h = ground (arith, hex_run-newline cs h.1)

-- `m_` and 32 lower-case hexadecimal digits, with or without a newline behind them.
abbrev pub IsSchemaName : Text → Type 0
IsSchemaName s =
    (digits : Text) × (length digits ≡ 32)
    × All IsHex digits
    × ((s ≡ b'm' ∷ b'_' ∷ digits) ⊎ (s ≡ b'm' ∷ b'_' ∷ (digits ++ 10 ∷ [])))

valid-IsSchemaName : (s : Text) → valid_schema_name s ≡ true → IsSchemaName s
unfolding valid_schema_name
valid-IsSchemaName [] h = cc
valid-IsSchemaName (m ∷ []) h = cc
valid-IsSchemaName (m ∷ u ∷ rest) h =
    let (m_ok, more) = &&-true (m == b'm') ((u == b'_') && hex_run 32 rest) h in
    let (u_ok, run) = &&-true (u == b'_') (hex_run 32 rest) more in
    let (digits, len, hex, shape) = hex_run-splits 32 rest run in
    rw ((==_iff m b'm').0 m_ok, (==_iff u b'_').0 u_ok)
      (
        digits,
        len,
        hex,
        elim shape [
          | inl e ↦ inl (ap (λ t. b'm' ∷ b'_' ∷ t) e)
          | inr e ↦ inr (ap (λ t. b'm' ∷ b'_' ∷ t) e)
        ],
      )

IsSchemaName-valid : (s : Text) → IsSchemaName s → valid_schema_name s ≡ true
unfolding valid_schema_name
IsSchemaName-valid s (digits, len, hex, inl e) = rw e (rw len at (hex_run-digits digits hex))
IsSchemaName-valid s (digits, len, hex, inr e) = rw e (rw len at (hex_run-newline digits hex))

-- The validator accepts exactly `m_` and 32 digits from 0-9a-f, and the same with a final newline.
pub valid_schema_name_iff : (s : Text) → (valid_schema_name s ≡ true) ↔ IsSchemaName s
valid_schema_name_iff s = (valid-IsSchemaName s, IsSchemaName-valid s)
