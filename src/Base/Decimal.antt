-- ===== src/Base/Decimal.antt =====
-- Numbers as fmt.Sprintf("%d", n) prints them, and as their digits are read.
use Prim.Native.Nat.{ℕ, zero, suc, ◌+◌, ◌-◌, ◌*◌, ◌/◌, ◌%◌, ◌<◌}
use mathlib.Core.Path.{◌≡◌, refl, sym, ap, ◌∙◌}
use mathlib.Core.Logic.{◌≢◌, inl, inr}
use mathlib.Core.Bool.{Bool, true, ◌&&◌}
use mathlib.Core.List.{[], ◌∷◌, ◌++◌}
use native.Mathlib.Omega.{arith}
use the_family_vpn.Base.Tests.{ltb, leb, if◌then◌else◌, Bool-cases, if-true, if-false}
use the_family_vpn.Base.Text.{Bytes}

-- fmt.Sprintf("%d", n)
decimal_within : ℕ → ℕ → Bytes
decimal_within zero n = []
decimal_within (suc f) n =
    let rest = decimal_within f (n / 10) in
    if ltb n 10 then (48 + n) ∷ [] else rest ++ (48 + n % 10) ∷ []

unfoldable pub decimal : ℕ → Bytes
unfolding decimal_within
decimal n = decimal_within (suc n) n

-- The number that a text of digits stands for.
unfoldable pub value_from : ℕ → Bytes → ℕ
value_from acc [] = acc
value_from acc (c ∷ cs) = value_from (acc * 10 + (c - 48)) cs

value_from-append :
    (acc c : ℕ) (cs : Bytes) → value_from acc (cs ++ c ∷ []) ≡ value_from acc cs * 10 + (c - 48)
unfolding value_from
value_from-append acc c [] = refl
value_from-append acc c (d ∷ cs) = value_from-append (acc * 10 + (d - 48)) c cs

value-decimal_within : (f n : ℕ) → n < f → value_from 0 (decimal_within f n) ≡ n
unfolding decimal_within value_from
value-decimal_within zero n h = absurd (omega arith)
value-decimal_within (suc f) n h = elim (Bool-cases (ltb n 10)) [
  | inl small ↦ rw small (omega arith)
  | inr big ↦ rw big (
      rw (value_from-append 0 (48 + n % 10) (decimal_within f (n / 10)))
        (rw (value-decimal_within f (n / 10) (ground arith)) (omega arith)))
]

pub value_from-decimal : (n : ℕ) → value_from 0 (decimal n) ≡ n
unfolding decimal
value_from-decimal n = value-decimal_within (suc n) n (omega arith)

pub decimal-injective : (m n : ℕ) → decimal m ≡ decimal n → m ≡ n
decimal-injective m n h = sym (value_from-decimal m) ∙ ap (value_from 0) h ∙ value_from-decimal n

abbrev pub is_digit : ℕ → Bool
is_digit c = leb 48 c && leb c 57

abbrev pub all_digits : Bytes → Bool
all_digits [] = true
all_digits (c ∷ cs) = is_digit c && all_digits cs

all_digits-append :
    (s : Bytes) (c : ℕ) → all_digits s ≡ true → is_digit c ≡ true → all_digits (s ++ c ∷ []) ≡ true
all_digits-append [] c hs hc = ground (arith, hc)
all_digits-append (d ∷ s) c hs hc = ground (arith, all_digits-append s c, hs, hc)

all_digits-decimal_within : (f n : ℕ) → all_digits (decimal_within f n) ≡ true
unfolding decimal_within
all_digits-decimal_within zero n = refl
all_digits-decimal_within (suc f) n = elim (Bool-cases (ltb n 10)) [
  | inl small ↦ rw small (ground (arith, small))
  | inr big ↦ rw big (
      all_digits-append (decimal_within f (n / 10)) (48 + n % 10)
        (all_digits-decimal_within f (n / 10)) (ground arith))
]

pub all_digits-decimal : (n : ℕ) → all_digits (decimal n) ≡ true
unfolding decimal
all_digits-decimal n = all_digits-decimal_within (suc n) n

append_nonempty : (s : Bytes) (c : ℕ) → (s ++ c ∷ []) ≢ []
append_nonempty [] c h = cc
append_nonempty (d ∷ s) c h = cc

pub decimal_nonempty : (n : ℕ) → decimal n ≢ []
unfolding decimal decimal_within
decimal_nonempty n empty = elim (Bool-cases (ltb n 10)) [
  | inl small ↦
      let digit : ((48 + n) ∷ []) ≡ [] = sym (if-true (ltb n 10) ((48 + n) ∷ []) _ small) ∙ empty in
      cc
  | inr big ↦
      append_nonempty (decimal_within n (n / 10)) (48 + n % 10)
        (sym (if-false (ltb n 10) ((48 + n) ∷ []) _ big) ∙ empty)
]
