-- ===== src/Store/Metrics/Groups.antt =====
-- GROUP BY and INSERT OR REPLACE over rows without tags: one group, and one row of the table.
use the_family_vpn.Base.{
  ◌==◌, if◌then◌else◌, Bool-cases, if-true, if-false, All, Bytes, text_eq, text_eq_iff, lookup,
  Dict, lookup-insert, ℕ, ◌+◌, ◌≡◌, refl, sym, ap, ◌∙◌, ◌⊎◌, inl, inr, Bool, true, false, ◌&&◌,
  ◌||◌, Option, none, some, List, [], ◌∷◌, arith,
}
use the_family_vpn.Store.Rows.{}
use the_family_vpn.Store.Metrics.{
  Arithmetic, AggregateRow, Group, GroupKey, key_eq, is_member, join_groups, summarize, result_row,
  replace_group, replace_groups,
}

-- The group of a name in a bucket, without tags: the collector gives none.
abbrev pub untagged : ℕ → Bytes → GroupKey
untagged b n = record { bucket = b; name = n; tags = [] }

abbrev HasNoTags : {F : Type 0} → GroupKey × Group F → Type 0
HasNoTags (k, g) = k.tags ≡ []

abbrev pub Untagged : {F : Type 0} → List (GroupKey × Group F) → Type 0
Untagged rows = All HasNoTags rows

-- The members of a group, over the rows that were selected
unfoldable pub total : {F : Type 0} → GroupKey → List (GroupKey × Group F) → ℕ
total k [] = 0
total k ((j, g) ∷ rows) = let rest = total k rows in if key_eq j k then g.members + rest else rest

abbrev pub members_in : {F : Type 0} → Option (Group F) → ℕ
members_in none = 0
members_in (some g) = g.members

key_eq-eq : (j : GroupKey) (b : ℕ) (n : Bytes) → key_eq j (untagged b n) ≡ true → j ≡ untagged b n
key_eq-eq j b n same = ground (arith, text_eq_iff j.name n, text_eq_iff j.tags [])

same_branch {ℓ} : {A : Type ℓ} (b : Bool) (x : A) → (if b then x else x) ≡ x
same_branch true x = refl
same_branch false x = refl

first_two : (a b c : Bool) → (a && (b && c)) ≡ true → (a && b) ≡ true
first_two a b c h = ground arith

first_two_false : (a b c : Bool) → (a && (b && c)) ≡ false → c ≡ true → (a && b) ≡ false
first_two_false a b c h h' = ground arith

module _ {F : Type 0} (floats : Arithmetic F) where
  -- A row that is put over another one.
  abbrev pub replaced :
      GroupKey → Option (Group F) → Option (AggregateRow F) → Option (AggregateRow F)
  replaced k none old = old
  replaced k (some g) old = some (result_row floats k g)

  pub members_in-summarize :
      (k : GroupKey) (rows : List (GroupKey × Group F)) (seen : Option (Group F))
      → members_in (summarize floats k rows seen) ≡ members_in seen + total k rows
  unfolding summarize join_groups total
  members_in-summarize k [] seen = omega arith
  members_in-summarize k ((j, g) ∷ rows) seen =
      by_key (key_eq j k) (members_in-summarize k rows seen)
        (members_in-summarize k rows (some (join_groups floats seen g)))
    where
      joined :
          (o : Option (Group F))
          → members_in (some (join_groups floats o g)) ≡ members_in o + g.members
      joined none = omega arith
      joined (some old) = refl

      by_key :
          (same : Bool)
          → members_in (summarize floats k rows seen) ≡ members_in seen + total k rows
          → members_in (summarize floats k rows (some (join_groups floats seen g)))
            ≡ members_in (some (join_groups floats seen g)) + total k rows
          → members_in
              (summarize floats k rows (if same then some (join_groups floats seen g) else seen))
            ≡ members_in seen + (if same then g.members + total k rows else total k rows)
      by_key true without with_it = omega (arith, with_it, joined seen)
      by_key false without with_it = without

  lookup-replace_group :
      (j : GroupKey) (b : ℕ) (n : Bytes) (o : Option (Group F)) (t : Dict (AggregateRow F))
      → j.tags ≡ []
      → lookup (b ∷ n) (replace_group floats j o t) ≡ (
          if key_eq j (untagged b n)
          then replaced (untagged b n) o (lookup (b ∷ n) t)
          else lookup (b ∷ n) t)
  unfolding text_eq
  lookup-replace_group j b n none t bare = sym (same_branch (key_eq j (untagged b n)) _)
  lookup-replace_group j b n (some g) t bare =
      lookup-insert (j.bucket ∷ j.name) (b ∷ n) (result_row floats j g) t
      ∙ by_key (Bool-cases (key_eq j (untagged b n)))
    where
      by_key :
          (key_eq j (untagged b n) ≡ true) ⊎ (key_eq j (untagged b n) ≡ false)
          → (if (j.bucket == b) && text_eq j.name n
              then some (result_row floats j g)
              else lookup (b ∷ n) t)
            ≡ (if key_eq j (untagged b n)
                then some (result_row floats (untagged b n) g)
                else lookup (b ∷ n) t)
      by_key (inl same) =
          if-true ((j.bucket == b) && text_eq j.name n) _ _
            (first_two (j.bucket == b) (text_eq j.name n) (text_eq j.tags []) same)
          ∙ ap (λ i. some (result_row floats i g)) (key_eq-eq j b n same)
          ∙ sym (if-true (key_eq j (untagged b n)) _ _ same)
      by_key (inr other) =
          if-false ((j.bucket == b) && text_eq j.name n) _ _ (
            first_two_false (j.bucket == b) (text_eq j.name n) (text_eq j.tags []) other
              ((text_eq_iff j.tags []).1 bare))
          ∙ sym (if-false (key_eq j (untagged b n)) _ _ other)

  -- The row of a group after the groups `ks` have been put in.
  pub lookup-replace_groups :
      (ks : List GroupKey) (rows : List (GroupKey × Group F)) (b : ℕ) (n : Bytes)
      (t : Dict (AggregateRow F))
      → All (λ k. k.tags ≡ []) ks
      → lookup (b ∷ n) (replace_groups floats ks rows t) ≡ (
          if is_member (untagged b n) ks
          then replaced
              (untagged b n)
              (summarize floats (untagged b n) rows none)
              (lookup (b ∷ n) t)
          else lookup (b ∷ n) t)
  lookup-replace_groups [] rows b n t bare = refl
  lookup-replace_groups (k ∷ ks) rows b n t (bare, rest) =
      let summary = summarize floats (untagged b n) rows none in
      let t' = replace_group floats k (summarize floats k rows none) t in
      lookup-replace_groups ks rows b n t' rest
      ∙ ap (λ old. if is_member (untagged b n) ks then replaced (untagged b n) summary old else old)
          (lookup-replace_group k b n (summarize floats k rows none) t bare)
      ∙ replaced_again k (summarize floats k rows none) summary (lookup (b ∷ n) t)
          (key_eq k (untagged b n)) (is_member (untagged b n) ks)
          λ same. ap (λ j. summarize floats j rows none) (key_eq-eq k b n same)
    where
      replaced_again :
          (j : GroupKey) (mine summary : Option (Group F)) (old : Option (AggregateRow F))
          (same later : Bool)
          → (same ≡ true → mine ≡ summary)
          → (if later
              then replaced
                  (untagged b n)
                  summary
                  (if same then replaced (untagged b n) mine old else old)
              else (if same then replaced (untagged b n) mine old else old))
            ≡ (if same || later then replaced (untagged b n) summary old else old)
      replaced_again j mine none old true true h = ap (λ o. replaced (untagged b n) o old) (h refl)
      replaced_again j mine (some g) old true true h = refl
      replaced_again j mine summary old true false h =
          ap (λ o. replaced (untagged b n) o old) (h refl)
      replaced_again j mine summary old false true h = refl
      replaced_again j mine summary old false false h = refl
