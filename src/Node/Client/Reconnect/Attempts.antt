-- ===== src/Node/Client/Reconnect/Attempts.antt =====
-- How attemptReconnect ends, attempt by attempt.
use the_family_vpn.Base.{
  if◌then◌else◌, Bool-cases, Bytes, text_eq, Result, ℕ, zero, suc, ◌+◌, ◌-◌, ◌*◌, ◌≤◌, ◌<◌, ◌≡◌,
  refl, sym, ap, ◌∙◌, ◌⊎◌, inl, inr, Bool, true, false, ◌||◌, Option, none, some, arith, ok, err,
}
use the_family_vpn.Protocol.Types.{}
use the_family_vpn.Tunnel.Routing.{Tun, Host, RouteError, attempt, reconfigure}
use the_family_vpn.Node.Client.{LifecycleEvent, Client, rerouted, record_event}
use the_family_vpn.Node.Client.Reconnect.{
  second, backoff, Attempt, greet, handshake, Ending, reconnected, reset_connection, max_retries,
  failure, on_tun, reroute, retune, resume, stop, connect, try_attempt, give_up, attempts_from,
  attempt_reconnect, stopped, gave_up,
}

rerouted_keeps :
    {Net : Type 0} (b : Bool) (d : Client Net) (r : Result RouteError (Unit {0}) × (Tun × Net))
    → ((rerouted b d r).1.vpn_conn ≡ d.vpn_conn)
      × ((rerouted b d r).1.vpn_address ≡ d.vpn_address)
      × ((rerouted b d r).1.waited ≡ d.waited)
rerouted_keeps b d (err e, s) = (refl, refl, refl)
rerouted_keeps b d (ok u, s) = (refl, refl, refl)

record_event_keeps :
    {Net : Type 0} (e : LifecycleEvent) (d : Client Net)
    → ((record_event e d).vpn_conn ≡ d.vpn_conn)
      × ((record_event e d).vpn_address ≡ d.vpn_address)
      × ((record_event e d).waited ≡ d.waited)
record_event_keeps e d = elim (Bool-cases d.has_store) [
  | inl some_store ↦ (rw some_store, rw some_store, rw some_store)
  | inr no_store ↦ (rw no_store, rw no_store, rw no_store)
]

abbrev with_conn : Option ℕ → Option Bytes → Option (ℕ × Bytes)
with_conn none ip = none
with_conn (some conn) none = none
with_conn (some conn) (some ip) = some (conn, ip)

-- The connection and the address of an attempt that goes through.
unfoldable pub reached : Attempt → Option (ℕ × Bytes)
reached a = with_conn a.dialled (if a.hello_sent then a.assigned_ip else none)

abbrev pub interrupted : Attempt → Bool
interrupted a = a.cancelled_before || a.cancelled_after

module _ {Net : Type 0} (host : Host Net) (split_host : Bytes → Option Bytes) where
  abbrev Keeps : Client Net → Client Net → Type 0
  Keeps d e = (e.vpn_conn ≡ d.vpn_conn) × (e.vpn_address ≡ d.vpn_address) × (e.waited ≡ d.waited)

  Keeps-trans : (d e f : Client Net) → Keeps d e → Keeps e f → Keeps d f
  Keeps-trans d e f (a, b, c) (a', b', c') = (a' ∙ a, b' ∙ b, c' ∙ c)

  reroute-Keeps :
      (t : Option Tun) (restore : Bool) (d : Client Net)
      → Keeps d (reroute host split_host t restore d)
  unfolding reroute
  reroute-Keeps none restore d = (refl, refl, refl)
  reroute-Keeps (some t) false d = (refl, refl, refl)
  reroute-Keeps (some t) true d = rerouted_keeps true d _

  on_tun-Keeps :
      (t : Option Tun) (f : Tun × Net → Result RouteError (Unit {0}) × (Tun × Net)) (d : Client Net)
      → Keeps d (on_tun host split_host t f d)
  on_tun-Keeps none f d = (refl, refl, refl)
  on_tun-Keeps (some t) f d = (refl, refl, refl)

  retune-Keeps : (old ip : Bytes) (d : Client Net) → Keeps d (retune host split_host old ip d)
  unfolding retune
  retune-Keeps old ip d = elim (Bool-cases (text_eq old ip)) [
    | inl same ↦ rw same (refl, refl, refl)
    | inr other ↦ rw other (on_tun-Keeps d.tun (reconfigure host ip) d)
  ]

  resume-Keeps :
      (restore : Bool) (attempt conn : ℕ) (ip : Bytes) (d : Client Net)
      → Keeps
          (record d { vpn_conn = some conn; vpn_address = ip })
          (resume host split_host restore attempt conn ip d)
  unfolding resume
  resume-Keeps restore attempt conn ip d =
      let d1 = record d { vpn_conn = some conn; vpn_address = ip } in
      let d2 = retune host split_host d.vpn_address ip d1 in
      let d3 = reroute host split_host d2.tun restore d2 in
      let e = resume host split_host restore attempt conn ip d in
      Keeps-trans d1 d2 e (retune-Keeps d.vpn_address ip d1)
        (Keeps-trans d2 d3 e (reroute-Keeps d2.tun restore d2) (record_event_keeps _ d3))

  -- What the loop promises with `left` attempts left, the next one being number `k`.
  abbrev pub Reconnects : ℕ → ℕ → (ℕ → Attempt) → Ending × Client Net → Type 0
  Reconnects left k meets (ending, e) =
      (j : ℕ) × (conn : ℕ) × (ip : Bytes) × (j < left)
      × (ending ≡ reconnected (k + j))
      × (reached (meets (k + j)) ≡ some (conn, ip))
      × (e.vpn_conn ≡ some conn)
      × (e.vpn_address ≡ ip)
      × ((i : ℕ) → i < j → reached (meets (k + i)) ≡ none)

  abbrev pub Stops : ℕ → ℕ → (ℕ → Attempt) → Ending × Client Net → Type 0
  Stops left k meets (ending, e) =
      (j : ℕ) × (j < left)
      × (ending ≡ stopped)
      × (interrupted (meets (k + j)) ≡ true)
      × (e.cancelled ≡ true)

  abbrev pub GivesUp : ℕ → ℕ → (ℕ → Attempt) → Ending × Client Net → Type 0
  GivesUp left k meets (ending, e) =
      (ending ≡ gave_up)
      × (e.cancelled ≡ true)
      × ((i : ℕ) → i < left → reached (meets (k + i)) ≡ none)

  abbrev pub Ends : ℕ → ℕ → (ℕ → Attempt) → Client Net → Ending × Client Net → Type 0
  Ends left k meets d x =
      (Reconnects left k meets x ⊎ (Stops left k meets x ⊎ GivesUp left k meets x))
      × (x.1.waited ≤ d.waited + left * (30 * second))

  backoff_le : (k : ℕ) → backoff second (30 * second) k ≤ 30 * second
  unfolding backoff
  backoff_le k = ground arith

  fails_before :
      (n k : ℕ) (meets : ℕ → Attempt)
      → reached (meets k) ≡ none
      → ((i : ℕ) → i < n → reached (meets (k + 1 + i)) ≡ none)
      → (i : ℕ) → i < suc n
      → reached (meets (k + i)) ≡ none
  fails_before n k meets failed later zero h =
      let here : k + zero ≡ k = omega arith in rw here failed
  fails_before n k meets failed later (suc i) h =
      let there : k + suc i ≡ k + 1 + i = omega arith in rw there (later i (omega arith))

  -- What holds of the attempts that follow holds with this one before them, if it fails.
  Ends-after :
      (left k w : ℕ) (meets : ℕ → Attempt) (d d' : Client Net) (x : Ending × Client Net)
      → d'.waited ≡ d.waited + w
      → w ≤ 30 * second
      → reached (meets k) ≡ none
      → Ends left (k + 1) meets d' x
      → Ends (suc left) k meets d x
  Ends-after left k w meets d d' x slept short failed (how, bound) = (
    elim how [
      | inl (j, conn, ip, lt, ending, at, c, a, before) ↦
          let there : k + suc j ≡ k + 1 + j = omega arith in
          inl (
            suc j,
            conn,
            ip,
            omega arith,
            ending ∙ ap reconnected (sym there),
            rw there at,
            c,
            a,
            fails_before j k meets failed before,
          )
      | inr (inl (j, lt, ending, at, c)) ↦
          let there : k + suc j ≡ k + 1 + j = omega arith in
          inr (inl (suc j, omega arith, ending, rw there at, c))
      | inr (inr (ending, c, never)) ↦ inr (inr (ending, c, fails_before left k meets failed never))
    ],
    omega arith,
  )

  connect-Ends :
      (left k : ℕ) (meets : ℕ → Attempt) (restore : Bool) (d d' : Client Net) (dialled : Option ℕ)
      (ip : Option Bytes) (others : Client Net → Ending × Client Net)
      → d'.waited ≡ d.waited + backoff second (30 * second) (k - 1)
      → with_conn dialled ip ≡ reached (meets k)
      → ((f : Client Net) → Ends left (k + 1) meets f (others f))
      → Ends (suc left) k meets d (connect host split_host restore k dialled ip others d')
  unfolding connect
  connect-Ends left k meets restore d d' none ip others slept at rest =
      Ends-after left k _ meets d (reset_connection d') (others (reset_connection d')) slept
        (backoff_le (k - 1)) (sym at) (rest (reset_connection d'))
  connect-Ends left k meets restore d d' (some conn) none others slept at rest =
      let g = greet (reset_connection d') in
      Ends-after left k _ meets d g (others g) slept (backoff_le (k - 1)) (sym at) (rest g)
  connect-Ends left k meets restore d d' (some conn) (some ip) others slept at rest =
      let g = greet (reset_connection d') in
      let (c, a, w) = resume-Keeps restore k conn ip g in
      let here : k ≡ k + 0 = omega arith in
      (
        inl (
          0,
          conn,
          ip,
          omega arith,
          ap reconnected here,
          rw (← here) (sym at),
          c,
          a,
          λ i h. absurd (omega arith),
        ),
        omega (arith, w, backoff_le (k - 1)),
      )

  handshake-reached : (a : Attempt) → with_conn a.dialled (handshake a) ≡ reached a
  unfolding reached
  handshake-reached a = refl

  attempts_from-Ends :
      (left k : ℕ) (meets : ℕ → Attempt) (restore : Bool) (d : Client Net)
      → Ends left k meets d (attempts_from host split_host left k meets restore d)
  unfolding attempts_from try_attempt stop give_up
  attempts_from-Ends zero k meets restore d = (
    inr (inr (refl, refl, λ i h. absurd (omega arith))),
    omega (arith, (record_event_keeps failure d).2),
  )
  attempts_from-Ends (suc left) k meets restore d =
      let others = attempts_from host split_host left (k + 1) meets restore in
      let slept = record d { waited = d.waited + backoff second (30 * second) (k - 1) } in
      let a = meets k in
      let short = backoff_le (k - 1) in
      let here : k + 0 ≡ k = omega arith in
      elim (Bool-cases a.cancelled_before) [
        | inl before ↦
            rw before (inr (inl (0, omega arith, refl, rw (here, before), refl)), omega arith)
        | inr not_before ↦ rw not_before (elim (Bool-cases a.cancelled_after) [
          | inl after ↦
              rw after
                (inr (inl (0, omega arith, refl, rw (here, not_before, after), refl)), omega arith)
          | inr not_after ↦ rw not_after (
              connect-Ends left k meets restore d slept a.dialled (handshake a) others refl
                (handshake-reached a) (λ f. attempts_from-Ends left (k + 1) meets restore f))
        ])
      ]

  -- attemptReconnect ends in one of three ways: connected by the first attempt of the 30 that goes
  -- through, with that attempt's connection and address; stopped by a cancellation; or given up after
  -- 30 attempts of which none goes through, with the daemon's context cancelled. It sleeps for at most
  -- 30 times 30 seconds.
  pub attempt_reconnect-Ends :
      (meets : ℕ → Attempt) (restore : Bool) (d : Client Net)
      → Ends max_retries 1 meets d (attempt_reconnect host split_host meets restore d)
  unfolding attempt_reconnect
  attempt_reconnect-Ends meets restore d =
      attempts_from-Ends max_retries 1 meets restore
        (record d { reconnect_count = d.reconnect_count + 1 })
