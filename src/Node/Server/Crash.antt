-- ===== src/Node/Server/Crash.antt =====
-- The other half of the Connection Intent Protocol: a client that has gone without an intent.
use the_family_vpn.Base.{
  All, Bytes, codes, ℕ, ◌≡◌, refl, ◌∙◌, true, false, some, List, [], ◌∷◌, ◌++◌, ok,
}
use the_family_vpn.Protocol.Control.{make_reconnect_invite_message}
use the_family_vpn.Store.Clients.{ClientStates}
use the_family_vpn.Store.Clients.Intent.{
  Call, perform_all, perform_all-append, concerns, invite_after_crash, connect,
}
use the_family_vpn.Node.Server.{Codecs, Server, Hello, accept_client}
use the_family_vpn.Node.Server.Invites.{greeted, accept_client_invites, Steps, Steps-store}

-- On a server with a store, a client that has been registered under an address with routing on and is
-- given the same address when it comes back without routing is sent the peer list and then, on its new
-- connection, one invitation to enable routing, whatever of the handlers of Step have run before or in
-- between, as long as none in between has recorded anything for this address.
pub invite_after_crash-Steps :
    (codecs : Codecs) (d : Server) {e f : Server} (cs ds : List Call) (h : Hello) (now : ℕ)
    (addr name : Bytes) (table : ClientStates)
    → d.store ≡ some table
    → Steps codecs d e (cs ++ connect now addr name true ∷ ds)
    → All (λ c. concerns addr c ≡ false) ds
    → h.info.route_all ≡ false
    → accept_client codecs h e ≡ ok (some addr, f)
    → f.sent
      ≡ greeted codecs h addr e
        ++ (
          h.conn,
          make_reconnect_invite_message codecs.reconnect_invite (record {
            server_name = e.node_name;
            reason = codes "reconnection";
            should_enable_routing = true;
          }),
        )
          ∷ []
invite_after_crash-Steps codecs d {e} {f} cs ds h now addr name table stored steps others off came =
    let t = perform_all (cs ++ connect now addr name true ∷ ds) table in
    let (_, sent) =
      accept_client_invites codecs h addr t e f (Steps-store codecs d table stored steps) came in
    let routing = invite_after_crash ds now addr name (perform_all cs table) others in
    sent
    ∙ rw (perform_all-append cs (connect now addr name true ∷ ds) table) (rw routing (rw off refl))
