-- ===== src/Cli/Format.antt =====
-- cmd/vpn/main.go: formatBytes, truncate and getLevelColor.
pub mod Scale
use the_family_vpn.Base.{
  ltb, leb, if◌then◌else◌, length, get_or, take, Bytes, codes, text_eq, decimal, ℕ, zero, suc, ◌+◌,
  ◌-◌, ◌*◌, ◌/◌, ◌%◌, ◌^◌, Option, none, some, ◌∷◌, ◌++◌,
}

abbrev pub u64 : ℕ → ℕ
u64 n = n % 2 ^ 64

-- The loop of formatBytes, from its three variables on, for at most `fuel` rounds: div and exp
unfoldable pub scale : ℕ → ℕ → ℕ → ℕ → Option (ℕ × ℕ)
scale zero n div exp = none
scale (suc fuel) n div exp =
    let rest = scale fuel (n / 1024) (u64 (div * 1024)) (exp + 1) in
    if leb 1024 n then rest else some (div, exp)

-- "KMGTPE"[exp], which panics past the end
unfoldable pub unit_letter : ℕ → Option ℕ
unit_letter exp = if ltb exp 6 then some (get_or (codes "KMGTPE") exp 0) else none

-- `ratio_text b div` is `%.1f` of their quotient.
module _ (ratio_text : ℕ → ℕ → Bytes) where
  abbrev with_letter : Bytes → Option ℕ → Option Bytes
  with_letter ratio none = none
  with_letter ratio (some letter) = some (ratio ++ (codes " " ++ (letter ∷ codes "B")))

  abbrev scaled : ℕ → Option (ℕ × ℕ) → Option Bytes
  scaled b none = none
  scaled b (some (div, exp)) = with_letter (ratio_text b div) (unit_letter exp)

  -- formatBytes, `none` being a panic
  unfoldable pub format_bytes : ℕ → Option Bytes
  format_bytes b =
      if ltb b 1024 then some (decimal b ++ codes " B") else scaled b (scale 6 (b / 1024) 1024 0)

-- truncate, `none` being a panic
unfoldable pub truncate_text : Bytes → ℕ → Option Bytes
truncate_text s max =
    if leb (length s) max
    then some s
    else if ltb max 3
    then none
    else some (take (max - 3) s ++ codes "...")

-- getLevelColor, as the number of the color
unfoldable pub get_level_color : Bytes → Option ℕ
get_level_color level =
    if text_eq level (codes "ERROR")
    then some 31
    else if text_eq level (codes "WARN")
    then some 33
    else if text_eq level (codes "INFO")
    then some 34
    else if text_eq level (codes "DEBUG")
    then some 90
    else none
