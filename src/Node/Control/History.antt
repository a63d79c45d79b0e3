-- ===== src/Node/Control/History.antt =====
-- A handshake that is sent over the control socket is in the history that is asked for there.
use the_family_vpn.Base.{
  ◌==◌, if◌then◌else◌, if-true, length, take, All, ℕ, zero, suc, ◌≡◌, refl, ap, ◌∙◌, true, some,
  List, [], ◌∷◌, map, arith,
}
use the_family_vpn.Store.Handshakes.{Handshake, HandshakeRecord, write_handshake, is_from}
use the_family_vpn.Store.Handshakes.History.{
  IsOlder, row_of, history, get_handshake_history_lem, history-write_handshake,
}
use the_family_vpn.Node.Control.{
  Database, Control, Request, HistoryParams, history_result, Formats, decoded, default_limit,
  history_entry, no_handshake, Proxied, handle_handshake, history_answer, handle_handshake_history,
}

map-take {ℓ} :
    {A B : Type ℓ} (f : A → B) (n : ℕ) (xs : List A) → map f (take n xs) ≡ take n (map f xs)
map-take f zero xs = refl
map-take f (suc n) [] = refl
map-take f (suc n) (x ∷ xs) = ap (◌∷◌ (f x)) (map-take f n xs)

default_limit_again :
    (limit : ℕ)
    → (if default_limit limit 100 == 0 then 100 else default_limit limit 100)
      ≡ default_limit limit 100
default_limit_again limit = ground arith

module _ {F Time : Type 0} (formats : Formats Time) where
  -- A server with a store that has answered a handshake lists it first in the history of its node and
  -- of all nodes, before the handshakes that were there, up to the limit of the request (100 for
  -- none), and counts it, if its time is later than theirs.
  pub handle_handshake_history-handle_handshake :
      (now : ℕ) (req later : Request) (answer : Proxied) (d : Control F) (db : Database F)
      (h : Handshake) (p : HistoryParams)
      → d.server_mode ≡ true
      → d.database ≡ some db
      → decoded formats.handshake_params no_handshake req.params ≡ some h
      → decoded formats.history_params (record { node_name = []; limit = 0 }) later.params ≡ some p
      → is_from p.node_name (row_of db.handshakes.next_id now h) ≡ true
      → All (IsOlder now) db.handshakes.rows
      → let written : HandshakeRecord = record {
        id = db.handshakes.next_id;
        timestamp = now;
        written = h;
      } in
        handle_handshake_history formats answer later (handle_handshake formats now req d).1
        ≡ history_result
            (take
              (default_limit p.limit 100)
              (map (history_entry formats.rfc3339) (written ∷ history p.node_name db.handshakes)))
            (suc (length (history p.node_name db.handshakes)))
  unfolding handle_handshake handle_handshake_history
  handle_handshake_history-handle_handshake now req later answer d db h p server stored sent asked
        listed older =
      let t = write_handshake now h db.handshakes in
      let old = history p.node_name db.handshakes in
      let limit = default_limit p.limit 100 in
      let written : HandshakeRecord = record {
        id = db.handshakes.next_id;
        timestamp = now;
        written = h;
      } in
      let first : history p.node_name t
          ≡ record { id = db.handshakes.next_id; timestamp = now; written = h }
            ∷ history p.node_name db.handshakes =
        history-write_handshake p.node_name now h db.handshakes older ∙ if-true _ _ _ listed in
      rw (sent, stored, asked, server)
        (ap (history_answer formats)
            (get_handshake_history_lem p.node_name (default_limit p.limit 100) t)
          ∙ ap
              (λ n.
                history_answer formats
                  (take n (history p.node_name t), length (history p.node_name t)))
              (default_limit_again p.limit)
          ∙ ap (λ all. history_answer formats (take limit all, length all)) first
          ∙ ap (λ lines. history_result lines (suc (length old)))
              (map-take (history_entry formats.rfc3339) limit (written ∷ old)))
