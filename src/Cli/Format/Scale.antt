-- ===== src/Cli/Format/Scale.antt =====
-- The loop of formatBytes ends, and its letter is there.
use mathlib.Core.Path.{subst}
use the_family_vpn.Base.{
  ltb, leb, if◌then◌else◌, le→ltb, Bool-cases, if-true, if-false, get_or, Bytes, codes, ℕ, zero,
  suc, ◌+◌, ◌*◌, ◌/◌, ◌^◌, ◌≤◌, ◌<◌, ◌≡◌, refl, sym, ap, ◌∙◌, ◌⊎◌, inl, inr, true, false, Option,
  none, some, ◌∷◌, ◌++◌, arith,
}
use the_family_vpn.Cli.Format.{u64, scale, unit_letter, with_letter, scaled, format_bytes}

abbrev pub power : ℕ → ℕ
power zero = 1
power (suc k) = power k * 1024

-- A number divided k times
abbrev pub quotient : ℕ → ℕ → ℕ
quotient zero n = n
quotient (suc k) n = quotient k (n / 1024)

no_wrap : (exp : ℕ) → exp ≤ 4 → u64 (power (suc exp) * 1024) ≡ power (suc (suc exp))
no_wrap zero bound = refl
no_wrap (suc zero) bound = refl
no_wrap (suc (suc zero)) bound = refl
no_wrap (suc (suc (suc zero))) bound = refl
no_wrap (suc (suc (suc (suc zero)))) bound = refl
no_wrap (suc (suc (suc (suc (suc k))))) bound = ground arith

-- What the loop gives after k more rounds
abbrev pub Scaled : ℕ → ℕ → Option (ℕ × ℕ) → Type 0
Scaled n exp result =
    (k : ℕ) × ((result ≡ some (power (suc (exp + k)), exp + k))
      × ((exp + k ≤ 5) × (quotient k n < 1024)))

ended-Scaled : (n exp : ℕ) → n < 1024 → exp ≤ 5 → Scaled n exp (some (power (suc exp), exp))
ended-Scaled n exp small bound =
    let same : exp + 0 ≡ exp = omega arith in
    (0, (ap (λ e. some (power (suc e), e)) (sym same), (rw same bound, small)))

scale-Scaled :
    (fuel n exp : ℕ)
    → n < power (suc fuel)
    → exp + fuel ≤ 5
    → Scaled n exp (scale (suc fuel) n (power (suc exp)) exp)
unfolding scale
scale-Scaled zero n exp small bound =
    subst (Scaled n exp)
      (sym (if-false (leb 1024 n) _ (some (power (suc exp), exp)) (ground (arith, small))))
      (ended-Scaled n exp (omega (arith, small)) (omega (arith, bound)))
scale-Scaled (suc fuel) n exp small bound =
    by_size (Bool-cases (leb 1024 n))
      (scale-Scaled fuel (n / 1024) (suc exp) (omega (arith, small)) (omega (arith, bound)))
  where
    by_size :
        (leb 1024 n ≡ true) ⊎ (leb 1024 n ≡ false)
        → Scaled
            (n / 1024)
            (suc exp)
            (scale (suc fuel) (n / 1024) (power (suc (suc exp))) (suc exp))
        → Scaled n exp (
            if leb 1024 n
            then scale (suc fuel) (n / 1024) (u64 (power (suc exp) * 1024)) (exp + 1)
            else some (power (suc exp), exp))
    by_size (inl large) (k, (given, (below, ended))) =
        let next : exp + 1 ≡ suc exp = omega arith in
        let later : exp + suc k ≡ suc exp + k = omega arith in
        (
          suc k,
          (
            if-true (leb 1024 n) _ _ large
                ∙ ap (λ d. scale (suc fuel) (n / 1024) d (exp + 1))
                    (no_wrap exp (omega (arith, bound)))
                ∙ ap (λ e. scale (suc fuel) (n / 1024) (power (suc (suc exp))) e) next
                ∙ given
                ∙ ap (λ e. some (power (suc e), e)) (sym later),
            (rw later below, ended),
          ),
        )
    by_size (inr few) later =
        subst (Scaled n exp) (sym (if-false (leb 1024 n) _ (some (power (suc exp), exp)) few))
          (ended-Scaled n exp (ground (arith, few)) (omega (arith, bound)))

-- The text of a number of bytes, for the exponent of its unit
abbrev pub in_unit : (ℕ → ℕ → Bytes) → ℕ → ℕ → Bytes
in_unit ratio_text b exp =
    ratio_text b (power (suc exp)) ++ (codes " " ++ (get_or (codes "KMGTPE") exp 0 ∷ codes "B"))

-- formatBytes of a uint64 of 1024 or more ends, its divisor does not overflow and its letter is one of
-- the six: it prints the number over 1024 ^ (exp + 1), where exp is at most 5 and dividing the
-- number exp + 1 times by 1024 leaves less than 1024.
pub format_bytes_lem :
    (ratio_text : ℕ → ℕ → Bytes) (b : ℕ)
    → 1024 ≤ b
    → b < 2 ^ 64
    → (exp : ℕ) × ((format_bytes ratio_text b ≡ some (in_unit ratio_text b exp))
        × ((exp ≤ 5) × (quotient (suc exp) b < 1024)))
unfolding format_bytes unit_letter
format_bytes_lem ratio_text b large word =
    let (k, (given, (bound, ended))) =
      scale-Scaled 5 (b / 1024) 0 (omega (arith, word)) (omega arith) in
    let plain : 0 + k ≡ k = omega arith in
    let found : scale 6 (b / 1024) 1024 0 ≡ some (power (suc k), k) =
      given ∙ ap (λ e. some (power (suc e), e)) plain in
    let shown : format_bytes ratio_text b ≡ some (in_unit ratio_text b k) =
      if-false (ltb b 1024) _ _ (le→ltb b 1024 large)
      ∙ ap (scaled ratio_text b) found
      ∙ ap (with_letter ratio_text (ratio_text b (power (suc k))))
          (if-true (ltb k 6) _ none (ground (arith, bound))) in
    (k, (shown, (omega (arith, bound), ended)))
