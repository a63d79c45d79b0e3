-- ===== src/Node/Address/Search.antt =====
-- The loop of assignIP: it ends within one turn of the pool, at a free address if there is one.
use mathlib.Core.Path.{ap₂}
use native.Mathlib.Decide.{ℕ_discrete}
use the_family_vpn.Base.{
  Bool-cases, Dict, ℕ, zero, suc, ◌+◌, ◌%◌, ◌≤◌, ◌<◌, ◌≡◌, sym, ap, ◌∙◌, ◌≢◌, ◌⊎◌, inl, inr, true,
  false, arith,
}
use the_family_vpn.Node.Address.{
  Peer, vpn_ip, in_use, bump, Found, find_unused, pool_size, free, exhausted,
}

-- The address `k` places after `b`, both counted from the first of the pool.
abbrev pub slot : ℕ → ℕ → ℕ
slot b k = (b + k) % 253 + 2

bump-slot : (b : ℕ) → b < 253 → bump (b + 2) ≡ (b + 1) % 253 + 2
unfolding bump
bump-slot b h = ground arith

-- A free address `k` places on, and the loop's last `nextIP`.
abbrev pub FindsFree : Dict Peer → ℕ → ℕ → Found → Type 0
FindsFree peers b r x =
    (k : ℕ) × (k < r)
    × (x ≡ free (slot b k) (slot b (k + 1)))
    × (in_use peers (vpn_ip (slot b k)) ≡ false)

-- No free address in the `r` places from `b`.
abbrev pub FindsNone : Dict Peer → ℕ → ℕ → ℕ → Found → Type 0
FindsNone peers b s r x =
    (x ≡ exhausted (s + 2) (s + 3)) × ((k : ℕ) → k < r → in_use peers (vpn_ip (slot b k)) ≡ true)

module _ (peers : Dict Peer) (start r next : ℕ) where
  step_free :
      in_use peers (vpn_ip next) ≡ false
      → find_unused peers start (suc r) next ≡ free next (bump next)
  unfolding find_unused
  step_free h = rw h

  step_wrap :
      in_use peers (vpn_ip next) ≡ true
      → bump next ≡ start
      → find_unused peers start (suc r) next ≡ exhausted start (start + 1)
  unfolding find_unused
  step_wrap h e = rw (h, e) (ground arith)

  step_on :
      in_use peers (vpn_ip next) ≡ true
      → bump next ≢ start
      → find_unused peers start (suc r) next ≡ find_unused peers start r (bump next)
  unfolding find_unused
  step_on h n = rw h (ground arith)

-- What holds one place on holds here, if the place here is in use.
finds_later :
    (peers : Dict Peer) (b s r : ℕ) (x : Found)
    → b < 253
    → in_use peers (vpn_ip (b + 2)) ≡ true
    → FindsFree peers ((b + 1) % 253) r x ⊎ FindsNone peers ((b + 1) % 253) s r x
    → FindsFree peers b (suc r) x ⊎ FindsNone peers b s (suc r) x
finds_later peers b s r x hb used (inl (k, lt, shape, unused)) =
    let here : slot ((b + 1) % 253) k ≡ slot b (k + 1) = omega arith in
    let next : slot ((b + 1) % 253) (k + 1) ≡ slot b (k + 1 + 1) = omega arith in
    inl (k + 1, omega arith, shape ∙ ap₂ free here next, rw (← here) unused)
finds_later peers b s r x hb used (inr (shape, all)) = inr (shape, later)
  where
    later : (k : ℕ) → k < suc r → in_use peers (vpn_ip (slot b k)) ≡ true
    later zero lt = let here : slot b 0 ≡ b + 2 = omega arith in rw here used
    later (suc k) lt =
        let here : slot b (suc k) ≡ slot ((b + 1) % 253) k = omega arith in
        rw here (all k (omega arith))

find_unused_turn :
    (peers : Dict Peer) (s r b : ℕ)
    → s < 253
    → b < 253
    → 0 < r
    → r ≤ 253
    → (b + r) % 253 ≡ s
    → FindsFree peers b r (find_unused peers (s + 2) r (b + 2))
      ⊎ FindsNone peers b s r (find_unused peers (s + 2) r (b + 2))
find_unused_turn peers s zero b hs hb pos le e = absurd (omega arith)
find_unused_turn peers s (suc r) b hs hb pos le e =
    elim (Bool-cases (in_use peers (vpn_ip (b + 2)))) [
      | inl used ↦ elim (ℕ_discrete ((b + 1) % 253) s) [
        | yes wrapped ↦
            let only : r ≡ 0 = omega arith in
            inr (
              step_wrap peers (s + 2) r (b + 2) used (omega (arith, bump-slot b hb))
                  ∙ ap (exhausted (s + 2)) (omega arith),
              λ k lt. let here : slot b k ≡ b + 2 = omega arith in rw here used,
            )
        | no on ↦
            rw (step_on peers (s + 2) r (b + 2) used (λ q. on (omega (arith, bump-slot b hb)))) (
              finds_later peers b s r _ hb used (
                rw (bump-slot b hb) (
                  find_unused_turn peers s r ((b + 1) % 253) hs (omega arith) (omega arith)
                    (omega arith) (omega arith))))
      ]
      | inr unused ↦
          let here : slot b 0 ≡ b + 2 = omega arith in
          inl (
            0,
            omega arith,
            step_free peers (s + 2) r (b + 2) unused
                ∙ ap₂ free (sym here) (bump-slot b hb ∙ omega arith),
            rw here unused,
          )
    ]

-- Begun anywhere in the pool, the loop of assignIP ends within 253 rounds: at an address of the
-- pool that is not in use, or, with `nextIP` past its start, where all 253 are in use.
pub find_unused_lem :
    (peers : Dict Peer) (b : ℕ)
    → b < 253
    → FindsFree peers b pool_size (find_unused peers (b + 2) pool_size (b + 2))
      ⊎ FindsNone peers b b pool_size (find_unused peers (b + 2) pool_size (b + 2))
find_unused_lem peers b hb =
    find_unused_turn peers b 253 b hb hb (omega arith) (omega arith) (omega arith)
