-- ===== src/Store/Queries/Pages.antt =====
-- What a query of the logs answers, and what is read by asking page after page.
use Prim.Native.Nat.{min}
use the_family_vpn.Base.{
  ltb, if◌then◌else◌, Bool-cases, if-true, if-false, length, take, drop, length-take, length-drop,
  take_all, take-take, drop-drop, take-drop, Bytes, ℕ, zero, suc, ◌+◌, ◌-◌, ◌≤◌, ◌<◌, ◌≡◌, sym, ap,
  ◌∙◌, inl, inr, Bool, Option, none, some, List, ◌++◌, arith,
}
use the_family_vpn.Store.Rows.{filter, count, length-filter, length-order_by}
use the_family_vpn.Store.Logs.{LogEntry}
use the_family_vpn.Store.Queries.{
  LogQuery, effective_limit, comes_before, matches, selected, query_logs,
}

page :
    (n : ℕ) (xs : List LogEntry)
    → (if ltb n (length (take (n + 1) xs)) then take n (take (n + 1) xs) else take (n + 1) xs)
      ≡ take n xs
page n xs = elim (Bool-cases (ltb n (length (take (n + 1) xs)))) [
  | inl more ↦ rw more (take-take n (n + 1) xs (omega arith))
  | inr last ↦
      let short : length xs ≤ n = ground (arith, last, length-take (n + 1) xs) in
      rw last (take_all (n + 1) xs (omega (arith, short)) ∙ sym (take_all n xs short))
]

module _ (to_upper : Bytes → Bytes) (like : Bytes → Bytes → Bool) where
  length-selected :
      (q : LogQuery) (rows : List LogEntry)
      → length (selected to_upper like q rows) ≡ count (matches to_upper like q) rows
  unfolding selected
  length-selected q rows =
      length-order_by (comes_before q.reverse) (filter (matches to_upper like q) rows)
      ∙ length-filter (matches to_upper like q) rows

  -- QueryLogs gives the rows that match, in the query's order, from its offset on and up to its limit
  -- (1000 for 0, at most 10000), counts all that match, and says that there are more exactly if
  -- there are rows after those it gives.
  pub query_logs_lem :
      (q : LogQuery) (rows : List LogEntry)
      → let r = query_logs to_upper like q rows in
        (r.entries ≡ take (effective_limit q.limit) (drop q.offset (selected to_upper like q rows)))
        × ((r.total_count ≡ length (selected to_upper like q rows))
            × (r.has_more
                ≡ ltb
                    (q.offset + effective_limit q.limit)
                    (length (selected to_upper like q rows))))
  unfolding query_logs
  query_logs_lem q rows =
      let limit = effective_limit q.limit in
      let rest = drop q.offset (selected to_upper like q rows) in
      (
        page limit rest,
        (
          sym (length-selected q rows),
          more_after q.offset limit (length (selected to_upper like q rows))
              (length (take (limit + 1) rest))
              (omega (
                arith,
                length-take (limit + 1) rest,
                length-drop q.offset (selected to_upper like q rows),
              )),
        ),
      )
    where
      more_after :
          (offset limit all taken : ℕ)
          → taken ≡ min (limit + 1) (all - offset)
          → ltb limit taken ≡ ltb (offset + limit) all
      more_after offset limit all taken h = ground (arith, h)

  -- A reader that asks for page after page until `has_more` is false, if `fuel` of them are enough
  unfoldable pub read_pages : ℕ → LogQuery → List LogEntry → Option (List LogEntry)
  read_pages zero q rows = none
  read_pages (suc fuel) q rows =
      let r = query_logs to_upper like q rows in
      let next = record q { offset = q.offset + effective_limit q.limit } in
      let rest = read_pages fuel next rows in
      if r.has_more then after r.entries rest else some r.entries
    where
      after : List LogEntry → Option (List LogEntry) → Option (List LogEntry)
      after entries none = none
      after entries (some rest) = some (entries ++ rest)

  limit_positive : (limit : ℕ) → 0 < effective_limit limit
  limit_positive limit = ground arith

  -- Reading page after page until `has_more` is false ends, after at most one round for each row that
  -- matches from the first offset on, or one if there is none, and gives every such row once and in
  -- order.
  pub read_pages-selected :
      (fuel : ℕ) (q : LogQuery) (rows : List LogEntry)
      → 0 < fuel
      → length (selected to_upper like q rows) ≤ q.offset + fuel
      → read_pages fuel q rows ≡ some (drop q.offset (selected to_upper like q rows))
  unfolding read_pages selected matches
  read_pages-selected zero q rows positive bound = absurd (omega arith)
  read_pages-selected (suc fuel) q rows positive bound =
      let limit = effective_limit q.limit in
      let all = selected to_upper like q rows in
      let next = record q { offset = q.offset + limit } in
      let (given, (counted, more)) = query_logs_lem q rows in
      elim (Bool-cases (ltb (q.offset + limit) (length all))) [
        | inl some_more ↦
            let enough : (0 < fuel) × (length all ≤ q.offset + limit + fuel) =
              ground (arith, some_more, bound, limit_positive q.limit) in
            let later : read_pages fuel next rows ≡ some (drop (q.offset + limit) all) =
              read_pages-selected fuel next rows enough.0 enough.1 in
            if-true (query_logs to_upper like q rows).has_more _ _ (more ∙ some_more)
            ∙ rw (given, later)
                (ap (λ b. some (take limit (drop q.offset all) ++ b))
                    (sym (drop-drop limit q.offset all))
                  ∙ ap some (take-drop limit (drop q.offset all)))
        | inr last ↦
            if-false (query_logs to_upper like q rows).has_more _ _ (more ∙ last)
            ∙ ap some (
                given
                ∙ take_all limit (drop q.offset all)
                    (ground (arith, last, length-drop q.offset all)))
      ]
