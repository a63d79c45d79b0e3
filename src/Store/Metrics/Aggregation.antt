-- ===== src/Store/Metrics/Aggregation.antt =====
-- The rows that aggregateMetrics leaves: how many members each counts.
use mathlib.Core.Path.{subst}
use the_family_vpn.Base.{
  if◌then◌else◌, Bool-cases, if-true, if-false, All, Bytes, text_eq_iff, lookup, Dict, ℕ, ◌<◌, ◌≡◌,
  refl, ap, ◌∙◌, ◌⊎◌, inl, inr, Bool, true, false, ◌||◌, Option, none, some, List, [], ◌∷◌, arith,
}
use the_family_vpn.Store.Metrics.{
  Arithmetic, AggregateRow, Group, GroupKey, key_eq, is_member, group_keys, summarize,
  insert_or_replace,
}
use the_family_vpn.Store.Metrics.Groups.{
  untagged, Untagged, total, members_in, replaced, members_in-summarize, lookup-replace_groups,
}

key_eq_lem : (j k : GroupKey) → key_eq j k ≡ true → j ≡ k
key_eq_lem j k same = ground (arith, text_eq_iff j.name k.name, text_eq_iff j.tags k.tags)

module _ {F : Type 0} where
  abbrev pub keys_of : List (GroupKey × Group F) → List GroupKey
  keys_of [] = []
  keys_of ((k, g) ∷ rows) = k ∷ keys_of rows

  -- The groups that are put in are those that rows have.
  is_member-group_keys :
      (k : GroupKey) (rows : List (GroupKey × Group F))
      → is_member k (group_keys rows) ≡ is_member k (keys_of rows)
  is_member-group_keys k [] = refl
  is_member-group_keys k ((j, g) ∷ rows) =
      by_member (Bool-cases (is_member j (group_keys rows))) (Bool-cases (key_eq j k))
        (is_member-group_keys k rows)
    where
      by_member :
          (is_member j (group_keys rows) ≡ true) ⊎ (is_member j (group_keys rows) ≡ false)
          → (key_eq j k ≡ true) ⊎ (key_eq j k ≡ false)
          → is_member k (group_keys rows) ≡ is_member k (keys_of rows)
          → is_member k
              (if is_member j (group_keys rows) then group_keys rows else j ∷ group_keys rows)
            ≡ (key_eq j k || is_member k (keys_of rows))
      by_member (inl there) (inl same) ih =
          rw (there, same)
            (subst (λ i. is_member i (group_keys rows) ≡ true) (key_eq_lem j k same) there)
      by_member (inl there) (inr other) ih = rw (there, other) ih
      by_member (inr absent) same ih = rw (absent) (ap (λ b. key_eq j k || b) ih)

  total-keys_of :
      (k : GroupKey) (rows : List (GroupKey × Group F))
      → is_member k (keys_of rows) ≡ false
      → total k rows ≡ 0
  unfolding total
  total-keys_of k [] absent = refl
  total-keys_of k ((j, g) ∷ rows) absent = ground (arith, total-keys_of k rows)

  group_keys-Untagged :
      (rows : List (GroupKey × Group F)) → Untagged rows → All (λ k. k.tags ≡ []) (group_keys rows)
  group_keys-Untagged [] bare = bare
  group_keys-Untagged ((j, g) ∷ rows) (bare, rest) =
      by_member (is_member j (group_keys rows)) (group_keys-Untagged rows rest)
    where
      by_member :
          (b : Bool)
          → All (λ k. k.tags ≡ []) (group_keys rows)
          → All (λ k. k.tags ≡ []) (if b then group_keys rows else j ∷ group_keys rows)
      by_member true ih = ih
      by_member false ih = (bare, ih)

  abbrev pub count_at : Option (AggregateRow F) → ℕ
  count_at none = 0
  count_at (some r) = r.row_count

module _ {F : Type 0} (floats : Arithmetic F) where
  lookup-insert_or_replace :
      (rows : List (GroupKey × Group F)) (b : ℕ) (n : Bytes) (t : Dict (AggregateRow F))
      → Untagged rows
      → lookup (b ∷ n) (insert_or_replace floats rows t) ≡ (
          if is_member (untagged b n) (keys_of rows)
          then replaced floats
              (untagged b n)
              (summarize floats (untagged b n) rows none)
              (lookup (b ∷ n) t)
          else lookup (b ∷ n) t)
  unfolding insert_or_replace
  lookup-insert_or_replace rows b n t bare =
      lookup-replace_groups floats (group_keys rows) rows b n t (group_keys-Untagged rows bare)
      ∙ ap
          (λ there.
            if there
            then replaced floats (untagged b n) (summarize floats (untagged b n) rows none)
                (lookup (b ∷ n) t)
            else lookup (b ∷ n) t)
          (is_member-group_keys (untagged b n) rows)

  count_at-replaced :
      (k : GroupKey) (o : Option (Group F)) (old : Option (AggregateRow F))
      → 0 < members_in o
      → count_at (replaced floats k o old) ≡ members_in o
  count_at-replaced k none old some_members = ground arith
  count_at-replaced k (some g) old some_members = refl

  -- The statement puts in, for a group that has members, a row that counts all of them.
  pub count_at-insert_or_replace :
      (rows : List (GroupKey × Group F)) (b : ℕ) (n : Bytes) (t : Dict (AggregateRow F))
      → Untagged rows
      → 0 < total (untagged b n) rows
      → count_at (lookup (b ∷ n) (insert_or_replace floats rows t)) ≡ total (untagged b n) rows
  count_at-insert_or_replace rows b n t bare some_members =
      by_member (Bool-cases (is_member k (keys_of rows)))
    where
      k : GroupKey
      k = untagged b n

      by_member :
          (is_member k (keys_of rows) ≡ true) ⊎ (is_member k (keys_of rows) ≡ false)
          → count_at (lookup (b ∷ n) (insert_or_replace floats rows t)) ≡ total k rows
      by_member (inl there) =
          let counted : members_in (summarize floats k rows none) ≡ total k rows =
            omega (arith, members_in-summarize floats k rows none) in
          ap count_at (lookup-insert_or_replace rows b n t bare ∙ if-true _ _ _ there)
          ∙ count_at-replaced k (summarize floats k rows none) (lookup (b ∷ n) t)
              (rw counted some_members)
          ∙ counted
      by_member (inr absent) = ground (arith, total-keys_of k rows absent)

  -- It leaves every other group's row as it was.
  pub lookup-insert_or_replace_absent :
      (rows : List (GroupKey × Group F)) (b : ℕ) (n : Bytes) (t : Dict (AggregateRow F))
      → Untagged rows
      → is_member (untagged b n) (keys_of rows) ≡ false
      → lookup (b ∷ n) (insert_or_replace floats rows t) ≡ lookup (b ∷ n) t
  lookup-insert_or_replace_absent rows b n t bare absent =
      lookup-insert_or_replace rows b n t bare ∙ if-false _ _ _ absent
