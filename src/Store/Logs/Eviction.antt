-- ===== src/Store/Logs/Eviction.antt =====
-- What enforceStorageLimit removes: the oldest fifth of the rows, no more and no less.
use mathlib.Core.Path.{subst}
use the_family_vpn.Base.{
  ltb, ◌==◌, if◌then◌else◌, le→ltb, Bool-cases, if-false, length, take, drop, All, ℕ, zero, suc,
  ◌+◌, ◌/◌, ◌≤◌, ◌<◌, ◌≡◌, refl, sym, ap, ◌∙◌, ◌⊎◌, inl, inr, Bool, true, false, not, ◌&&◌, ◌||◌,
  some, List, [], ◌∷◌, arith,
}
use the_family_vpn.Store.Rows.{
  filter, count, put_in_order, order_by, length-filter, count-order_by, length-order_by,
  All-implied, All-put_in_order, All-filter, filter-holds,
}
use the_family_vpn.Store.Logs.{
  LogEntry, Logs, max_storage_bytes, older, has_id, evicted, enforce_storage_limit,
}
use the_family_vpn.Store.Logs.Table.{is_numbered, IsNumbered}

either_none :
    (i : ℕ) (q : LogEntry → Bool) (xs : List LogEntry)
    → count (is_numbered i) xs ≡ 0
    → count (λ e. (i == e.id) || q e) xs ≡ count q xs
unfolding count
either_none i q [] absent = refl
either_none i q (x ∷ xs) absent = ground (arith, either_none i q xs)

count-false : (xs : List LogEntry) → count (λ e. false) xs ≡ 0
unfolding count
count-false [] = refl
count-false (x ∷ xs) = count-false xs

count_tail :
    (p : LogEntry → Bool) (x : LogEntry) (xs : List LogEntry)
    → count p (x ∷ xs) ≤ 1
    → count p xs ≤ 1
unfolding count
count_tail p x xs h = ground arith

-- With unique numbers, the numbers of the first `k` rows are those of `k` rows.
count-has_id :
    (k : ℕ) (xs : List LogEntry)
    → ((i : ℕ) → count (is_numbered i) xs ≤ 1)
    → k ≤ length xs
    → count (λ e. has_id e.id (take k xs)) xs ≡ k
unfolding count
count-has_id zero xs unique bound = count-false xs
count-has_id (suc k) [] unique bound = ground arith
count-has_id (suc k) (x ∷ xs) unique bound =
    let absent : count (is_numbered x.id) xs ≡ 0 = ground (arith, unique x.id) in
    let rest = λ (i : ℕ). count_tail (is_numbered i) x xs (unique i) in
    ground (
      arith,
      either_none x.id (λ e. has_id e.id (take k xs)) xs absent,
      count-has_id k xs rest (omega arith),
    )

count-not :
    (p : LogEntry → Bool) (xs : List LogEntry) → count (λ e. not (p e)) xs + count p xs ≡ length xs
unfolding count
count-not p [] = omega arith
count-not p (x ∷ xs) = ground (arith, count-not p xs)

abbrev AtLeast : ℕ → LogEntry → Type 0
AtLeast bound e = bound ≤ e.timestamp

abbrev IsSorted : List LogEntry → Type 0
IsSorted [] = Unit
IsSorted (x ∷ xs) = All (AtLeast x.timestamp) xs × IsSorted xs

put_in_order-IsSorted :
    (x : LogEntry) (ys : List LogEntry) → IsSorted ys → IsSorted (put_in_order older x ys)
unfolding put_in_order
put_in_order-IsSorted x [] sorted = (tt, tt)
put_in_order-IsSorted x (y ∷ ys) (least, sorted) =
    by_test (Bool-cases (older y x)) (put_in_order-IsSorted x ys sorted)
  where
    by_test :
        (older y x ≡ true) ⊎ (older y x ≡ false)
        → IsSorted (put_in_order older x ys)
        → IsSorted (if older y x then y ∷ put_in_order older x ys else x ∷ y ∷ ys)
    by_test (inl less) ih =
        rw less (All-put_in_order (AtLeast y.timestamp) older x ys (ground (arith, less)) least, ih)
    by_test (inr more) ih = rw more (
      (ground (arith, more), All-implied ys (λ e above. ground (arith, more, above)) least),
      (least, sorted),
    )

order_by-IsSorted : (xs : List LogEntry) → IsSorted (order_by older xs)
unfolding order_by
order_by-IsSorted [] = tt
order_by-IsSorted (x ∷ xs) = put_in_order-IsSorted x (order_by older xs) (order_by-IsSorted xs)

-- At the limit, enforceStorageLimit removes a fifth of the rows, rounded down.
pub enforce_storage_limit-length :
    (size : ℕ) (t : Logs)
    → IsNumbered t
    → max_storage_bytes ≤ size
    → length (enforce_storage_limit (some size) t).rows + length t.rows / 5 ≡ length t.rows
unfolding enforce_storage_limit
enforce_storage_limit-length size t valid large =
    let sorted = order_by older t.rows in
    let gone = λ (e : LogEntry). has_id e.id (evicted t.rows) in
    let fifth : count gone t.rows ≡ length t.rows / 5 =
      sym (count-order_by older gone t.rows)
      ∙ count-has_id (length t.rows / 5) sorted
          (λ i. omega (arith, count-order_by older (is_numbered i) t.rows, valid.unique i))
          (omega (arith, length-order_by older t.rows)) in
    ap (λ u. length u.rows + length t.rows / 5)
      (if-false (ltb size max_storage_bytes) t
        (record t { rows = filter (λ e. not (gone e)) t.rows })
        (le→ltb size max_storage_bytes large))
    ∙ omega (arith, length-filter (λ e. not (gone e)) t.rows, count-not gone t.rows, fifth)

abbrev pub OldEnough : List LogEntry → LogEntry → Type 0
OldEnough gone e = All (λ f. f.timestamp ≤ e.timestamp) gone

All-drop : (P : LogEntry → Type 0) (k : ℕ) (xs : List LogEntry) → All P xs → All P (drop k xs)
All-drop P zero xs holds = holds
All-drop P (suc k) [] holds = tt
All-drop P (suc k) (x ∷ xs) (here, rest) = All-drop P k xs rest

All-both :
    (P Q : LogEntry → Type 0) (xs : List LogEntry) → All P xs → All Q xs → All (λ e. P e × Q e) xs
All-both P Q [] ps qs = tt
All-both P Q (x ∷ xs) (p, ps) (q, qs) = ((p, q), All-both P Q xs ps qs)

All-everything : (P : LogEntry → Type 0) → ((e : LogEntry) → P e) → (xs : List LogEntry) → All P xs
All-everything P holds [] = tt
All-everything P holds (x ∷ xs) = (holds x, All-everything P holds xs)

take-drop_sorted :
    (k : ℕ) (xs : List LogEntry) → IsSorted xs → All (OldEnough (take k xs)) (drop k xs)
take-drop_sorted zero xs sorted = All-everything (OldEnough []) (λ e. tt) xs
take-drop_sorted (suc k) [] sorted = tt
take-drop_sorted (suc k) (x ∷ xs) (least, sorted) =
    All-both (AtLeast x.timestamp) (OldEnough (take k xs)) (drop k xs)
      (All-drop (AtLeast x.timestamp) k xs least) (take-drop_sorted k xs sorted)

abbrev is_same : LogEntry → LogEntry → Bool
is_same e f = (f.id == e.id) && (f.timestamp == e.timestamp)

count-take-drop :
    (p : LogEntry → Bool) (k : ℕ) (xs : List LogEntry)
    → count p (take k xs) + count p (drop k xs) ≡ count p xs
unfolding count
count-take-drop p zero xs = omega arith
count-take-drop p (suc k) [] = omega arith
count-take-drop p (suc k) (x ∷ xs) = ground (arith, count-take-drop p k xs)

count-has_id-false :
    (e : LogEntry) (xs : List LogEntry) → has_id e.id xs ≡ false → count (is_same e) xs ≡ 0
unfolding count
count-has_id-false e [] absent = refl
count-has_id-false e (x ∷ xs) absent = ground (arith, count-has_id-false e xs)

All-found :
    (Q : LogEntry → Type 0) (e : LogEntry) (R : Type 0) (ys : List LogEntry)
    → All Q ys
    → 0 < count (is_same e) ys
    → ((y : LogEntry) → Q y → y.timestamp ≡ e.timestamp → R)
    → R
unfolding count
All-found Q e R [] qs some_rows follows = ground arith
All-found Q e R (y ∷ ys) (q, qs) some_rows follows = elim (Bool-cases (is_same e y)) [
  | inl same ↦ follows y q (ground (arith, same))
  | inr other ↦ All-found Q e R ys qs (ground (arith, other, some_rows)) follows
]

All-present : (xs : List LogEntry) → All (λ e. 0 < count (is_same e) xs) xs
unfolding count
All-present [] = tt
All-present (x ∷ xs) =
    (ground arith, All-implied xs (λ e here. ground (arith, here)) (All-present xs))

old_enough :
    (t : Logs) (e : LogEntry)
    → not (has_id e.id (evicted t.rows)) ≡ true
    → 0 < count (is_same e) t.rows
    → OldEnough (evicted t.rows) e
old_enough t e kept present =
    let sorted = order_by older t.rows in
    let fifth = length t.rows / 5 in
    let absent = count-has_id-false e (evicted t.rows) (ground (arith, kept)) in
    All-found (OldEnough (evicted t.rows)) e (OldEnough (evicted t.rows) e) (drop fifth sorted)
      (take-drop_sorted fifth sorted (order_by-IsSorted t.rows))
      (omega (
        arith,
        count-take-drop (is_same e) fifth sorted,
        count-order_by older (is_same e) t.rows,
        absent,
        present,
      ))
      λ y older_than same. subst (λ b. All (λ f. f.timestamp ≤ b) (evicted t.rows)) same older_than

-- At the limit, no row that stays is older than one that enforceStorageLimit removes.
pub enforce_storage_limit-OldEnough :
    (size : ℕ) (t : Logs)
    → max_storage_bytes ≤ size
    → All (OldEnough (evicted t.rows)) (enforce_storage_limit (some size) t).rows
unfolding enforce_storage_limit
enforce_storage_limit-OldEnough size t large =
    let stays = λ (e : LogEntry). not (has_id e.id (evicted t.rows)) in
    let kept =
      All-both (λ e. stays e ≡ true) (λ e. 0 < count (is_same e) t.rows) (filter stays t.rows)
        (filter-holds stays t.rows)
        (All-filter (λ e. 0 < count (is_same e) t.rows) stays t.rows (All-present t.rows)) in
    subst (λ u. All (OldEnough (evicted t.rows)) u.rows)
      (sym (
        if-false (ltb size max_storage_bytes) t (record t { rows = filter stays t.rows })
          (le→ltb size max_storage_bytes large)))
      (All-implied (filter stays t.rows) (λ e both. old_enough t e both.0 both.1) kept)
