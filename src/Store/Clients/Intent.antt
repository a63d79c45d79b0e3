-- ===== src/Store/Clients/Intent.antt =====
-- The Connection Intent Protocol as the table keeps it: who would be invited to route again.
use the_family_vpn.Base.{
  if◌then◌else◌, All, Bytes, text_eq, text_eq_refl, lookup-insert, when_some, lookup-modify,
  lookup-map_values, ℕ, ◌≡◌, refl, ap, ◌∙◌, Bool, true, false, ◌&&◌, Option, none, some, List, [],
  ◌∷◌, ◌++◌, arith,
}
use the_family_vpn.Store.Clients.{
  Status, ClientState, ClientStates, set_client_connected, set_client_route_all,
  set_client_disconnected_intentional, is_routing, get_client_state, clear_all_client_states,
  connected_routing, connected_no_routing, disconnected_intentional,
}

-- The calls that change the table, with the times at which they are made.
pub data Call : Type 0 where
  connect : ℕ → Bytes → Bytes → Bool → Call
  switch : ℕ → Bytes → Bool → Call
  intent : ℕ → Bytes → Bytes → Call
  clear : ℕ → Call

unfoldable pub perform : Call → ClientStates → ClientStates
perform (connect now addr name route_all) t = set_client_connected now addr name route_all t
perform (switch now addr route_all) t = set_client_route_all now addr route_all t
perform (clear now) t = clear_all_client_states now t
perform (intent now addr reason) t = set_client_disconnected_intentional now addr reason t

-- The calls in the order in which they are made.
unfoldable pub perform_all : List Call → ClientStates → ClientStates
perform_all [] t = t
perform_all (c ∷ cs) t = perform_all cs (perform c t)

-- What the protocol promises, without the table: the status of one address after a call. A client that
-- connects or changes its routing is routing or not, an intent to disconnect of a known client is
-- kept, and the end of all connections at a restart leaves what each client wanted.
abbrev pub next_status : Bytes → Call → Option Status → Option Status
next_status a (connect now addr name route_all) s =
    if text_eq addr a
    then some (if route_all then connected_routing else connected_no_routing)
    else s
next_status a (switch now addr route_all) none = none
next_status a (switch now addr route_all) (some s) =
    if text_eq addr a
    then some (if route_all then connected_routing else connected_no_routing)
    else some s
next_status a (clear now) s = s
next_status a (intent now addr reason) s =
    if text_eq addr a then when_some s (λ _. disconnected_intentional) else s

unfoldable pub status_after : Bytes → List Call → Option Status → Option Status
status_after a [] s = s
status_after a (c ∷ cs) s = status_after a cs (next_status a c s)

abbrev pub row_status : Option ClientState → Option Status
row_status none = none
row_status (some r) = some r.state

-- The status that the table holds for an address.
unfoldable pub status_of : Bytes → ClientStates → Option Status
status_of a t = row_status (get_client_state a t)

-- ClearAllClientStates changes no address's status.
pub status_of-clear_all_client_states :
    (now : ℕ) (a : Bytes) (t : ClientStates)
    → status_of a (clear_all_client_states now t) ≡ status_of a t
unfolding status_of get_client_state clear_all_client_states
status_of-clear_all_client_states now a t = rw (lookup-map_values a _ t) (ground arith)

pub status_of-perform :
    (a : Bytes) (c : Call) (t : ClientStates)
    → status_of a (perform c t) ≡ next_status a c (status_of a t)
unfolding status_of perform get_client_state set_client_connected
    set_client_disconnected_intentional set_client_route_all
status_of-perform a (connect now addr name route_all) t =
    rw (lookup-insert addr a _ t) (ground arith)
status_of-perform a (switch now addr route_all) t = rw (lookup-modify addr a _ t) (ground arith)
status_of-perform a (clear now) t = status_of-clear_all_client_states now a t
status_of-perform a (intent now addr reason) t = rw (lookup-modify addr a _ t) (ground arith)

-- After any calls of SetClientConnected, SetClientRouteAll, SetClientDisconnectedIntentional and
-- ClearAllClientStates, in any order, the table holds for each address the status that the protocol
-- promises, which depends only on the calls for that address.
pub status_of-perform_all :
    (a : Bytes) (cs : List Call) (t : ClientStates)
    → status_of a (perform_all cs t) ≡ status_after a cs (status_of a t)
unfolding perform_all status_after
status_of-perform_all a [] t = refl
status_of-perform_all a (c ∷ cs) t =
    status_of-perform_all a cs (perform c t) ∙ ap (status_after a cs) (status_of-perform a c t)

pub perform_all-append :
    (cs ds : List Call) (t : ClientStates)
    → perform_all (cs ++ ds) t ≡ perform_all ds (perform_all cs t)
unfolding perform_all
perform_all-append [] ds t = refl
perform_all-append (c ∷ cs) ds t = perform_all-append cs ds (perform c t)

-- The test of handleVPNClient on the state before the connection.
unfoldable pub was_routing : Option Status → Bool
was_routing none = false
was_routing (some s) = is_routing s

abbrev pub routes : Bytes → Call → Bool
routes a (connect now addr name route_all) = text_eq addr a && route_all
routes a (switch now addr route_all) = text_eq addr a && route_all
routes a (intent now addr reason) = false
routes a (clear now) = false

next_status_keeps :
    (a : Bytes) (c : Call) (s : Option Status)
    → routes a c ≡ false
    → was_routing s ≡ false
    → was_routing (next_status a c s) ≡ false
unfolding was_routing
next_status_keeps a (connect now addr name route_all) s quiet h = ground arith
next_status_keeps a (switch now addr route_all) none quiet h = refl
next_status_keeps a (switch now addr route_all) (some s) quiet h = ground arith
next_status_keeps a (intent now addr reason) s quiet h = ground arith
next_status_keeps a (clear now) s quiet h = h

status_after_keeps :
    (a : Bytes) (cs : List Call) (s : Option Status)
    → All (λ c. routes a c ≡ false) cs
    → was_routing s ≡ false
    → was_routing (status_after a cs s) ≡ false
unfolding status_after
status_after_keeps a [] s quiet h = h
status_after_keeps a (c ∷ cs) s quiet h =
    status_after_keeps a cs (next_status a c s) quiet.1 (next_status_keeps a c s quiet.0 h)

intent_stops :
    (now : ℕ) (a reason : Bytes) (s : Option Status)
    → was_routing (next_status a (intent now a reason) s) ≡ false
unfolding was_routing
intent_stops now a reason none = ground arith
intent_stops now a reason (some s) = rw (text_eq_refl a)

-- Once the server has recorded an intent to disconnect from an address, whatever came before, the
-- address does not count as routing, and so gets no invitation, until it connects with routing on.
pub no_invite_after_intent :
    (cs ds : List Call) (now : ℕ) (a reason : Bytes) (t : ClientStates)
    → All (λ c. routes a c ≡ false) ds
    → was_routing (status_of a (perform_all (cs ++ intent now a reason ∷ ds) t)) ≡ false
unfolding perform_all
no_invite_after_intent cs ds now a reason t quiet =
    rw (perform_all-append cs (intent now a reason ∷ ds) t) (
      rw (status_of-perform_all a ds (perform (intent now a reason) (perform_all cs t))) (
        rw (status_of-perform a (intent now a reason) (perform_all cs t)) (
          status_after_keeps a ds _ quiet
            (intent_stops now a reason (status_of a (perform_all cs t))))))

abbrev pub concerns : Bytes → Call → Bool
concerns a (connect now addr name route_all) = text_eq addr a
concerns a (switch now addr route_all) = text_eq addr a
concerns a (intent now addr reason) = text_eq addr a
concerns a (clear now) = false

status_after_others :
    (a : Bytes) (cs : List Call) (s : Option Status)
    → All (λ c. concerns a c ≡ false) cs
    → status_after a cs s ≡ s
unfolding status_after
status_after_others a [] s o = refl
status_after_others a (connect now addr name route_all ∷ cs) s o =
    rw o.0 (status_after_others a cs s o.1)
status_after_others a (switch now addr route_all ∷ cs) none o = status_after_others a cs none o.1
status_after_others a (switch now addr route_all ∷ cs) (some s) o =
    rw o.0 (status_after_others a cs (some s) o.1)
status_after_others a (intent now addr reason ∷ cs) s o = rw o.0 (status_after_others a cs s o.1)
status_after_others a (clear now ∷ cs) s o = status_after_others a cs s o.1

-- An address that connected with routing on counts as routing after any later calls that concern
-- other addresses, so it gets an invitation if it comes back without routing.
pub invite_after_crash :
    (ds : List Call) (now : ℕ) (a name : Bytes) (t : ClientStates)
    → All (λ c. concerns a c ≡ false) ds
    → was_routing (status_of a (perform_all (connect now a name true ∷ ds) t)) ≡ true
unfolding perform_all was_routing
invite_after_crash ds now a name t others =
    rw (status_of-perform_all a ds (perform (connect now a name true) t)) (
      rw (status_of-perform a (connect now a name true) t)
        (rw (text_eq_refl a) (rw (status_after_others a ds (some connected_routing) others))))
