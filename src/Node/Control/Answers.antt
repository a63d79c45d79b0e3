-- ===== src/Node/Control/Answers.antt =====
-- The answers of a control connection.
use the_family_vpn.Base.{
  All, Bytes, codes, text_eq, Dict, ℕ, ◌≡◌, refl, ap, false, Option, none, some, List, [], ◌∷◌,
  ◌++◌, map,
}
use the_family_vpn.Node.Control.{Request, ErrorCode, invalid_method}
use the_family_vpn.Node.Control.Dispatch.{
  Handlers, select, cases, unknown_method, handle_request, answer_line, handle_control_connection,
}

-- The identifier that the answer to a line carries
abbrev pub id_of : Option Request → ℕ
id_of none = 0
id_of (some req) = req.id

abbrev pub ids {ℓ} : {A : Type ℓ} → List (ℕ × A) → List ℕ
ids [] = []
ids ((i, a) ∷ answers) = i ∷ ids answers

module _ {Daemon A : Type 0} (h : Handlers Daemon A) (fail : ErrorCode → Bytes → A) where
  -- The requests of the lines, one after the other
  unfoldable pub handle_requests : List (Option Request) → Daemon → Daemon
  handle_requests [] d = d
  handle_requests (none ∷ lines) d = handle_requests lines d
  handle_requests (some req ∷ lines) d = handle_requests lines (handle_request h fail req d).1

  -- A connection gets one answer for each line, in order, each with the identifier of its request or
  -- with 0 if the line is no request, and the daemon is as after the requests alone.
  pub handle_control_connection_lem :
      (lines : List (Option Request)) (d : Daemon)
      → (ids (handle_control_connection h fail lines d).0 ≡ map id_of lines)
        × ((handle_control_connection h fail lines d).1 ≡ handle_requests lines d)
  unfolding handle_control_connection answer_line handle_requests
  handle_control_connection_lem [] d = (refl, refl)
  handle_control_connection_lem (none ∷ lines) d =
      let (same, after) = handle_control_connection_lem lines d in (ap (◌∷◌ 0) same, after)
  handle_control_connection_lem (some req ∷ lines) d =
      let (same, after) = handle_control_connection_lem lines (handle_request h fail req d).1 in
      (ap (◌∷◌ req.id) same, after)

  select_other :
      (name : Bytes) (hs : Dict (Request → Daemon → A × Daemon))
      (other : Request → Daemon → A × Daemon)
      → All (λ entry. text_eq name entry.0 ≡ false) hs
      → select name hs other ≡ other
  select_other name [] other apart = refl
  select_other name ((n, f) ∷ hs) other (here, apart) = rw here (select_other name hs other apart)

  -- A request for a method that is none of the fourteen is answered by an error and changes nothing.
  pub handle_request_unknown :
      (req : Request) (d : Daemon)
      → All (λ entry. text_eq req.method entry.0 ≡ false) (cases h fail)
      → handle_request h fail req d
        ≡ (fail invalid_method (codes "unknown method: " ++ req.method), d)
  unfolding handle_request
  handle_request_unknown req d apart =
      ap (λ f. f req d) (select_other req.method (cases h fail) (unknown_method h fail) apart)
