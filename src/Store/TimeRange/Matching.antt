-- ===== src/Store/TimeRange/Matching.antt =====
-- The text of a relative time, as the regular expression of parseRelative matches it.
use the_family_vpn.Base.{
  ltb, if◌then◌else◌, if-true, Bytes, decimal, value_from-decimal, is_digit, all_digits,
  all_digits-decimal, decimal_nonempty, ℕ, ◌^◌, ◌<◌, ◌≡◌, refl, ap, ◌∙◌, ◌≢◌, Bool, true, false,
  ◌&&◌, Option, none, some, [], ◌∷◌, ◌++◌, arith,
}
use the_family_vpn.Store.TimeRange.{
  parse_int, is_unit, match_unit, take_digits, drop_digits, match_amount, match_relative,
}

-- A text that does not start with a digit
abbrev pub NoDigit : Bytes → Type 0
NoDigit [] = Unit
NoDigit (c ∷ cs) = is_digit c ≡ false

take_digits-append :
    (s rest : Bytes) → all_digits s ≡ true → NoDigit rest → take_digits (s ++ rest) ≡ s
take_digits-append [] [] digits stop = refl
take_digits-append [] (c ∷ cs) digits stop = rw stop refl
take_digits-append (d ∷ s) rest digits stop =
    let here : is_digit d ≡ true = ground (arith, digits) in
    rw here (ap (◌∷◌ d) (take_digits-append s rest (ground (arith, digits)) stop))

drop_digits-append :
    (s rest : Bytes) → all_digits s ≡ true → NoDigit rest → drop_digits (s ++ rest) ≡ rest
drop_digits-append [] [] digits stop = refl
drop_digits-append [] (c ∷ cs) digits stop = rw stop refl
drop_digits-append (d ∷ s) rest digits stop =
    let here : is_digit d ≡ true = ground (arith, digits) in
    rw here (drop_digits-append s rest (ground (arith, digits)) stop)

is_unit-NoDigit : (u : ℕ) → is_unit u ≡ true → is_digit u ≡ false
is_unit-NoDigit u unit = ground (arith, unit)

-- What follows the amount: a unit, and maybe `@` and a unit
abbrev pub unit_text : ℕ → Option ℕ → Bytes
unit_text u none = u ∷ []
unit_text u (some s) = u ∷ 64 ∷ s ∷ []

abbrev pub sign_text : Bool → ℕ
sign_text minus = if minus then 45 else 43

abbrev pub AreUnits : ℕ → Option ℕ → Type 0
AreUnits u none = is_unit u ≡ true
AreUnits u (some s) = (is_unit u ≡ true) × (is_unit s ≡ true)

match_unit-unit_text :
    (minus : Bool) (amount : Bytes) (u : ℕ) (snap : Option ℕ)
    → AreUnits u snap
    → match_unit minus amount (unit_text u snap)
      ≡ some (record { minus = minus; amount = amount; step = u; snap = snap })
match_unit-unit_text minus amount u none unit = if-true (is_unit u) _ none unit
match_unit-unit_text minus amount u (some s) (unit, other) =
    if-true (is_unit u && is_unit s) _ none (rw (unit, other) refl)

match_amount-nonempty :
    (minus : Bool) (ds rest : Bytes)
    → ds ≢ []
    → match_amount minus ds rest ≡ match_unit minus ds rest
match_amount-nonempty minus [] rest nonempty = absurd (nonempty refl)
match_amount-nonempty minus (d ∷ ds) rest nonempty = refl

unit_text-NoDigit : (u : ℕ) (snap : Option ℕ) → AreUnits u snap → NoDigit (unit_text u snap)
unit_text-NoDigit u none unit = is_unit-NoDigit u unit
unit_text-NoDigit u (some s) (unit, other) = is_unit-NoDigit u unit

match_amount_lem :
    (minus : Bool) (n u : ℕ) (snap : Option ℕ)
    → AreUnits u snap
    → match_amount minus
        (take_digits (decimal n ++ unit_text u snap))
        (drop_digits (decimal n ++ unit_text u snap))
      ≡ some (record { minus = minus; amount = decimal n; step = u; snap = snap })
match_amount_lem minus n u snap units =
    let stop = unit_text-NoDigit u snap units in
    rw
      (
        take_digits-append (decimal n) (unit_text u snap) (all_digits-decimal n) stop,
        drop_digits-append (decimal n) (unit_text u snap) (all_digits-decimal n) stop,
      )
      (match_amount-nonempty minus (decimal n) (unit_text u snap) (decimal_nonempty n)
        ∙ match_unit-unit_text minus (decimal n) u snap units)

-- The text of a relative time
unfoldable pub relative_text : Bool → ℕ → ℕ → Option ℕ → Bytes
relative_text minus n u snap = sign_text minus ∷ (decimal n ++ unit_text u snap)

pub match_relative-relative_text :
    (minus : Bool) (n u : ℕ) (snap : Option ℕ)
    → AreUnits u snap
    → match_relative (relative_text minus n u snap)
      ≡ some (record { minus = minus; amount = decimal n; step = u; snap = snap })
unfolding match_relative relative_text
match_relative-relative_text true n u snap units = match_amount_lem true n u snap units
match_relative-relative_text false n u snap units = match_amount_lem false n u snap units

pub parse_int-decimal : (n : ℕ) → n < 2 ^ 63 → parse_int (decimal n) ≡ n
parse_int-decimal n bound =
    rw (value_from-decimal n) (if-true (ltb n (2 ^ 63)) _ _ (ground (arith, bound)))
