-- ===== src/Tunnel/Routing/Default.antt =====
-- The machine's default route before and after RouteAllTraffic and RestoreRouting.
use mathlib.Core.Path.{subst}
use the_family_vpn.Base.{
  if◌then◌else◌, Bool-cases, Bytes, codes, Result, ◌≡◌, refl, sym, ap, ◌∙◌, ◌⊎◌, inl, inr, Bool,
  true, false, Option, none, some, [], ◌∷◌, ◌++◌, ok, err,
}
use the_family_vpn.Tunnel.Routing.{
  delete_address, flush_addresses, Tun, Command, delete_default, add_host_route, add_default,
  add_default_on, delete_default_on, set_dns_servers, Host, RouteError, Action, continue,
  trim_newline, must, attempt, get_default_gateway, check_ipv6, route_all_traffic_darwin,
  route_all_traffic_linux, route_all_traffic, set_v6_off, delete_failed, add_failed,
}

-- The commands that are about the default route, or that take addresses from a device and so may take the
-- routes through it.
abbrev pub may_move_default : Command → Bool
may_move_default delete_default = true
may_move_default (add_default gateway) = true
may_move_default (add_default_on gateway device) = true
may_move_default (delete_default_on device) = true
may_move_default (delete_address device ip) = true
may_move_default (flush_addresses device) = true
may_move_default other = false

-- What the commands' manuals say of the default route on a machine that has at most one: a deletion that succeeds leaves none, an
-- addition that succeeds leaves the one that was added, a command that fails and a command about
-- something else leave it alone, and the pipeline that reads it prints its gateway on a line.
pub record IsHost {Net : Type 0} (host : Host Net) : Type 0 where
  pub default_via : Net → Option Bytes
  pub printed :
      (n : Net) (gateway : Bytes)
      → default_via n ≡ some gateway
      → host.gateway_output n ≡ some (gateway ++ 10 ∷ [])
  pub deleted :
      (n : Net)
      → (host.run delete_default n).0 ≡ true
      → default_via (host.run delete_default n).1 ≡ none
  pub added :
      (n : Net) (gateway : Bytes)
      → (host.run (add_default gateway) n).0 ≡ true
      → default_via (host.run (add_default gateway) n).1 ≡ some gateway
  pub added_on :
      (n : Net) (gateway device : Bytes)
      → (host.run (add_default_on gateway device) n).0 ≡ true
      → default_via (host.run (add_default_on gateway device) n).1 ≡ some gateway
  pub failed :
      (n : Net) (c : Command)
      → (host.run c n).0 ≡ false
      → default_via (host.run c n).1 ≡ default_via n
  pub kept :
      (n : Net) (c : Command)
      → may_move_default c ≡ false
      → default_via (host.run c n).1 ≡ default_via n

trim_newline-append : (s : Bytes) → trim_newline (s ++ 10 ∷ []) ≡ s
unfolding trim_newline
trim_newline-append [] = refl
trim_newline-append (c ∷ []) = refl
trim_newline-append (c ∷ d ∷ s) = ap (λ r. c ∷ r) (trim_newline-append (d ∷ s))

-- Whichever of two functions runs, one of them runs.
pub runs_either :
    {A B : Type 0} (b : Bool) (f g : A → B) (a : A) {r : B}
    → (if b then f else g) a ≡ r
    → (f a ≡ r) ⊎ (g a ≡ r)
runs_either true f g a h = inl h
runs_either false f g a h = inr h

module _ {Net : Type 0} (host : Host Net) (law : IsHost host) where
  -- A command that must succeed, and what follows it.
  abbrev Continued :
      {B : Type 0}
      → Command
      → RouteError
      → Tun
      → Net
      → Action Net B
      → Result RouteError B × (Tun × Net)
  Continued c e t n next = continue (must host c e (t, n)) (λ _. next)

  pub Continued_ok :
      {B : Type 0} (c : Command) (e : RouteError) (t : Tun) (n : Net) (next : Action Net B) {b : B}
      {s : Tun × Net}
      → Continued c e t n next ≡ (ok b, s)
      → ((host.run c n).0 ≡ true) × (next (t, (host.run c n).1) ≡ (ok b, s))
  unfolding must
  Continued_ok c e t n next h = elim (Bool-cases ((host.run c n).0)) [
    | inl fine ↦ (fine, rw fine at h)
    | inr bad ↦ cc (rw bad at h)
  ]

  Continued_err :
      {B : Type 0} (c : Command) (e e' : RouteError) (t : Tun) (n : Net) (next : Action Net B)
      {s : Tun × Net}
      → Continued c e t n next ≡ (err e', s)
      → ((e ≡ e') × ((host.run c n).0 ≡ false) × (s ≡ (t, (host.run c n).1)))
        ⊎ (((host.run c n).0 ≡ true) × (next (t, (host.run c n).1) ≡ (err e', s)))
  unfolding must
  Continued_err c e e' t n next {s} h = elim (Bool-cases ((host.run c n).0)) [
    | inl fine ↦ inr (fine, rw fine at h)
    | inr bad ↦
        let stopped : ◌≡◌ {A = Result RouteError _ × (Tun × Net)} (err e, (t, (host.run c n).1))
            (err e', s) =
          rw bad at h in
        inl (cc, bad, cc)
  ]

  -- The device while all traffic goes through it, the old gateway being `gateway`.
  abbrev routing_tun : Bytes → Bytes → Tun → Tun
  routing_tun server gateway t = record t { original_gw = gateway; server_public_ip = server }

  -- All but the note about IPv6.
  abbrev SameRoutes : Tun → Tun → Type 0
  SameRoutes t u =
      (t.name ≡ u.name)
      × (t.local_ip ≡ u.local_ip)
      × (t.gateway_ip ≡ u.gateway_ip)
      × (t.original_gw ≡ u.original_gw)
      × (t.server_public_ip ≡ u.server_public_ip)

  -- The state after all traffic has been sent through the VPN.
  abbrev Routes : Tun → Tun × Net → Type 0
  Routes t (u, n) = (law.default_via n ≡ some t.gateway_ip) × SameRoutes u t

  route_all_traffic_darwin_ok :
      (server : Bytes) (t : Tun) (n : Net) {b : Unit {0}} {s : Tun × Net}
      → route_all_traffic_darwin host server (t, n) ≡ (ok b, s)
      → Routes (record t { server_public_ip = server }) s
  unfolding route_all_traffic_darwin attempt check_ipv6
  route_all_traffic_darwin_ok server t n h =
      let t' = record t { server_public_ip = server } in
      let (_, rest) = Continued_ok delete_default delete_failed t' _ _ h in
      let (fine, last) = Continued_ok (add_default t.gateway_ip) add_failed t' _ _ rest in
      let dns = set_dns_servers (codes "1.1.1.1" ∷ codes "8.8.8.8" ∷ []) in
      let now =
        law.kept _ set_v6_off refl ∙ (law.kept _ dns refl ∙ law.added _ t.gateway_ip fine) in
      subst (Routes t') (ap (λ x. x.1) last) (now, (refl, refl, refl, refl, refl))

  pub must_ok :
      (c : Command) (e : RouteError) (t : Tun) (n : Net) {b : Unit {0}} {s : Tun × Net}
      → must host c e (t, n) ≡ (ok b, s)
      → ((host.run c n).0 ≡ true) × ((t, (host.run c n).1) ≡ s)
  unfolding must
  must_ok c e t n h = elim (Bool-cases ((host.run c n).0)) [
    | inl fine ↦ (fine, ap (λ x. x.1) (rw fine at h))
    | inr bad ↦ cc (rw bad at h)
  ]

  must_err :
      (c : Command) (e e' : RouteError) (t : Tun) (n : Net) {s : Tun × Net}
      → must host c e (t, n) ≡ (err e', s)
      → (e ≡ e') × ((host.run c n).0 ≡ false) × (s ≡ (t, (host.run c n).1))
  unfolding must
  must_err c e e' t n {s} h = elim (Bool-cases ((host.run c n).0)) [
    | inl fine ↦ cc (rw fine at h)
    | inr bad ↦
        let stopped : ◌≡◌ {A = Result RouteError (Unit {0}) × (Tun × Net)}
            (err e, (t, (host.run c n).1)) (err e', s) =
          rw bad at h in
        (cc, bad, cc)
  ]

  route_all_traffic_linux_ok :
      (server : Bytes) (t : Tun) (n : Net) {b : Unit {0}} {s : Tun × Net}
      → route_all_traffic_linux host server (t, n) ≡ (ok b, s)
      → Routes (record t { server_public_ip = server }) s
  unfolding route_all_traffic_linux attempt
  route_all_traffic_linux_ok server t n h =
      let t' = record t { server_public_ip = server } in
      let (_, rest) = Continued_ok delete_default delete_failed t' _ _ h in
      let (fine, last) = must_ok (add_default_on t.gateway_ip t.name) add_failed t' _ rest in
      subst (Routes t') last
        (law.added_on _ t.gateway_ip t.name fine, (refl, refl, refl, refl, refl))

  get_default_gateway_lem :
      (n : Net) (gateway : Bytes)
      → law.default_via n ≡ some gateway
      → get_default_gateway host n ≡ some gateway
  unfolding get_default_gateway
  get_default_gateway_lem n gateway h =
      rw (law.printed n gateway h) (ap some (trim_newline-append gateway))

  -- If RouteAllTraffic succeeds, the default route goes through the VPN's gateway, and the device
  -- remembers the server's address and the gateway that the default route had.
  pub route_all_traffic_ok :
      (server gateway : Bytes) (t : Tun) (n : Net) {b : Unit {0}} {s : Tun × Net}
      → law.default_via n ≡ some gateway
      → route_all_traffic host server (t, n) ≡ (ok b, s)
      → Routes (routing_tun server gateway t) s
  unfolding route_all_traffic
  route_all_traffic_ok server gateway t n before h =
      let h' = rw (get_default_gateway_lem n gateway before) at h in
      let t' = record t { original_gw = gateway } in
      elim (runs_either host.is_darwin (route_all_traffic_darwin host server)
        (route_all_traffic_linux host server) (t', n) h') [
          | inl darwin ↦ route_all_traffic_darwin_ok server t' n darwin
          | inr linux ↦ route_all_traffic_linux_ok server t' n linux
        ]

  -- The state after a failure, and which it was.
  abbrev pub Fails : Bytes → Net → RouteError → Tun × Net → Type 0
  Fails gateway n e (u, m) =
      (u.original_gw ≡ gateway)
      × (((e ≡ delete_failed) × (law.default_via m ≡ law.default_via n))
          ⊎ ((e ≡ add_failed) × (law.default_via m ≡ none)))

  route_all_traffic_darwin_err :
      (server : Bytes) (t : Tun) (n : Net) {e : RouteError} {s : Tun × Net}
      → route_all_traffic_darwin host server (t, n) ≡ (err e, s)
      → Fails t.original_gw n e s
  unfolding route_all_traffic_darwin attempt check_ipv6
  route_all_traffic_darwin_err server t n {e} {s} h =
      let t' = record t { server_public_ip = server } in
      let via = law.kept n (add_host_route server t.original_gw) refl in
      elim (Continued_err delete_default delete_failed e t' _ _ h) [
        | inl (which, bad, at) ↦
            subst (Fails t.original_gw n e) (sym at)
              (refl, inl (sym which, law.failed _ delete_default bad ∙ via))
        | inr (fine, rest) ↦
            elim (Continued_err (add_default t.gateway_ip) add_failed e t' _ _ rest) [
              | inl (which, bad, at) ↦ subst (Fails t.original_gw n e) (sym at) (
                refl,
                inr (sym which, law.failed _ (add_default t.gateway_ip) bad ∙ law.deleted _ fine),
              )
              | inr (_, last) ↦ cc
            ]
      ]

  route_all_traffic_linux_err :
      (server : Bytes) (t : Tun) (n : Net) {e : RouteError} {s : Tun × Net}
      → route_all_traffic_linux host server (t, n) ≡ (err e, s)
      → Fails t.original_gw n e s
  unfolding route_all_traffic_linux attempt
  route_all_traffic_linux_err server t n {e} {s} h =
      let t' = record t { server_public_ip = server } in
      let via = law.kept n (add_host_route server t.original_gw) refl in
      elim (Continued_err delete_default delete_failed e t' _ _ h) [
        | inl (which, bad, at) ↦
            subst (Fails t.original_gw n e) (sym at)
              (refl, inl (sym which, law.failed _ delete_default bad ∙ via))
        | inr (fine, rest) ↦
            let (which, bad, at) =
              must_err (add_default_on t.gateway_ip t.name) add_failed e t' _ rest in
            subst (Fails t.original_gw n e) (sym at) (
              refl,
              inr (
                sym which,
                law.failed _ (add_default_on t.gateway_ip t.name) bad ∙ law.deleted _ fine,
              ),
            )
      ]

  -- If RouteAllTraffic fails where there was a default route, it is one of two ways: nothing was
  -- deleted, and the default route is as it was, or the default route was deleted and none was added.
  -- The device remembers the old gateway in both.
  pub route_all_traffic_err :
      (server gateway : Bytes) (t : Tun) (n : Net) {e : RouteError} {s : Tun × Net}
      → law.default_via n ≡ some gateway
      → route_all_traffic host server (t, n) ≡ (err e, s)
      → Fails gateway n e s
  unfolding route_all_traffic
  route_all_traffic_err server gateway t n before h =
      let h' = rw (get_default_gateway_lem n gateway before) at h in
      let t' = record t { original_gw = gateway } in
      elim (runs_either host.is_darwin (route_all_traffic_darwin host server)
        (route_all_traffic_linux host server) (t', n) h') [
          | inl darwin ↦ route_all_traffic_darwin_err server t' n darwin
          | inr linux ↦ route_all_traffic_linux_err server t' n linux
        ]
