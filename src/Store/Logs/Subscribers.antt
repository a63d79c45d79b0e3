-- ===== src/Store/Logs/Subscribers.antt =====
-- The channels of the log's subscribers, over any sequence of WriteLog calls.
use the_family_vpn.Base.{
  ltb, ltb→lt, Bool-cases, length, take, length-append, take_all, take-append_le, All, Bytes, ℕ,
  ◌≤◌, ◌≡◌, refl, sym, ap, ◌∙◌, inl, inr, List, [], ◌∷◌, ◌++◌, map, append_assoc, append-nil, arith,
}
use the_family_vpn.Store.Logs.{
  LogEntry, Subscriber, Logs, channel_size, offer, notify_log_subscribers, write_log,
}

-- What one WriteLog is called with, after its time
pub record Line : Type 0 where
  pub now : ℕ
  pub level : Bytes
  pub component : Bytes
  pub message : Bytes
  pub fields : Bytes

abbrev pub write_line : Line → Logs → Logs
write_line l = write_log l.now l.level l.component l.message l.fields

unfoldable pub write_lines : List Line → Logs → Logs
write_lines [] t = t
write_lines (l ∷ ls) t = write_lines ls (write_line l t)

-- The entry that the subscribers are offered
abbrev pub entry_of : Line → LogEntry
entry_of l = record {
  id = 0;
  timestamp = l.now;
  level = l.level;
  component = l.component;
  message = l.message;
  fields = l.fields;
}

abbrev pub HasRoom : Subscriber → Type 0
HasRoom s = length s.buffer ≤ channel_size

-- What a subscriber that reads nothing has after the entries
abbrev pub with_first : List LogEntry → Subscriber → Subscriber
with_first entries s = record s { buffer = take channel_size (s.buffer ++ entries) }

offer-HasRoom : (entry : LogEntry) (s : Subscriber) → HasRoom s → HasRoom (offer entry s)
offer-HasRoom entry s room = elim (Bool-cases (ltb (length s.buffer) channel_size)) [
  | inl free ↦ rw free (omega (arith, length-append s.buffer (entry ∷ []), ltb→lt _ _ free))
  | inr full ↦ rw full room
]

notify-HasRoom :
    (entry : LogEntry) (subs : List Subscriber)
    → All HasRoom subs
    → All HasRoom (notify_log_subscribers entry subs)
unfolding notify_log_subscribers
notify-HasRoom entry [] room = tt
notify-HasRoom entry (s ∷ subs) (room, rest) =
    (offer-HasRoom entry s room, notify-HasRoom entry subs rest)

with_first-nil : (subs : List Subscriber) → All HasRoom subs → subs ≡ map (with_first []) subs
with_first-nil [] room = refl
with_first-nil (s ∷ subs) (room, rest) =
    let same : with_first [] s ≡ s =
      ap (λ b. record s { buffer = b })
        (ap (take channel_size) (append-nil s.buffer) ∙ take_all channel_size s.buffer room) in
    ap (λ b. b ∷ subs) (sym same) ∙ ap (◌∷◌ (with_first [] s)) (with_first-nil subs rest)

with_first-offer :
    (entry : LogEntry) (rest : List LogEntry) (s : Subscriber)
    → with_first rest (offer entry s) ≡ with_first (entry ∷ rest) s
with_first-offer entry rest s = elim (Bool-cases (ltb (length s.buffer) channel_size)) [
  | inl free ↦ rw free (
      ap (λ b. record s { buffer = b })
        (ap (take channel_size) (append_assoc s.buffer (entry ∷ []) rest)))
  | inr full ↦ rw full (
      ap (λ b. record s { buffer = b })
        (take-append_le channel_size s.buffer rest (ground (arith, full))
          ∙ sym (take-append_le channel_size s.buffer (entry ∷ rest) (ground (arith, full)))))
]

with_first-notify :
    (entry : LogEntry) (rest : List LogEntry) (subs : List Subscriber)
    → map (with_first rest) (notify_log_subscribers entry subs)
      ≡ map (with_first (entry ∷ rest)) subs
unfolding notify_log_subscribers
with_first-notify entry rest [] = refl
with_first-notify entry rest (s ∷ subs) =
    ap (λ b. b ∷ map (with_first rest) (notify_log_subscribers entry subs))
      (with_first-offer entry rest s)
    ∙ ap (◌∷◌ (with_first (entry ∷ rest) s)) (with_first-notify entry rest subs)

-- While a subscriber reads nothing, its channel holds what it held and then the oldest of the
-- entries written since, up to 100 in all; the entries that find it full are lost, and neither the
-- writer nor the other subscribers wait for it.
pub write_lines-subscribers :
    (ls : List Line) (t : Logs)
    → All HasRoom t.subscribers
    → (write_lines ls t).subscribers ≡ map (with_first (map entry_of ls)) t.subscribers
unfolding write_lines write_log
write_lines-subscribers [] t room = with_first-nil t.subscribers room
write_lines-subscribers (l ∷ ls) t room =
    write_lines-subscribers ls (write_line l t) (notify-HasRoom (entry_of l) t.subscribers room)
    ∙ with_first-notify (entry_of l) (map entry_of ls) t.subscribers
