-- ===== src/Netviz/Ports/Top.antt =====
-- src/netviz/port_histogram.cpp: what the buckets are, and what the counts add up to.
use tcpflow.Base.{
  ℕ, zero, suc, ◌≤◌, ◌≡◌, refl, ap, inl, inr, Bool, false, List, [], ◌∷◌, arith, length, take, drop,
  Bool-cases, if_either, All,
}
use tcpflow.Base.Maps.{find, insert}
use tcpflow.Base.Word.{add64}
use tcpflow.Base.Sort.{
  sort, Before, IsSorted, sort-IsSorted, IsSorted-take, count_if, count_if-sort,
}
use tcpflow.Netviz.Ports.{
  total, PortCount, PortHistogram, bucket_count, descending_counts, add_count, increment,
  as_buckets, refresh_buckets,
}

descending_counts-Before : Before descending_counts
unfolding descending_counts
descending_counts-Before = record {
  asym = λ a b h. ground arith;
  trans = λ a b c h k. ground arith;
}

-- Buckets that are not dirty are the first ten of the sorted counts.
pub record IsFresh (h : PortHistogram) : Type 0 where
  pub current :
      h.buckets_dirty ≡ false
      → h.buckets ≡ take bucket_count (sort descending_counts (as_buckets h.port_counts))

take_short {ℓ} : {A : Type ℓ} (n : ℕ) (l : List A) → length l ≤ n → take n l ≡ l
take_short zero [] h = refl
take_short zero (x ∷ l) h = absurd (omega (arith, h))
take_short (suc n) [] h = refl
take_short (suc n) (x ∷ l) h = ap (◌∷◌ x) (take_short n l (omega (arith, h)))

-- What the views show: the buckets after a refresh are the ten entries with the highest counts, in
-- descending order, and none that is left out comes before one that is shown. The buckets that are
-- not dirty were current before.
pub buckets-refresh_buckets :
    (h : PortHistogram)
    → IsFresh h
    → let sorted = sort descending_counts (as_buckets h.port_counts) in
      let shown = (refresh_buckets h).buckets in
      (shown ≡ take bucket_count sorted)
      × IsSorted descending_counts shown
      × All (λ x. All (λ y. descending_counts y x ≡ false) (drop bucket_count sorted)) shown
      × ((p : PortCount → Bool) → count_if p sorted ≡ count_if p (as_buckets h.port_counts))
unfolding refresh_buckets
buckets-refresh_buckets h fresh =
    let sorted = sort descending_counts (as_buckets h.port_counts) in
    let e : (refresh_buckets h).buckets ≡ take bucket_count sorted =
      elim (Bool-cases h.buckets_dirty) [
        | inl dirty ↦ ground (arith, dirty, take_short bucket_count sorted)
        | inr clean ↦ rw clean (fresh.current clean)
      ] in
    let (kept, cut) =
      IsSorted-take descending_counts bucket_count sorted
        (sort-IsSorted descending_counts descending_counts-Before (as_buckets h.port_counts)) in
    (e, rw e kept, rw e cut, λ p. count_if-sort descending_counts p (as_buckets h.port_counts))

pub increment-IsFresh : (port delta : ℕ) (h : PortHistogram) → IsFresh (increment port delta h)
unfolding increment
increment-IsFresh port delta h = record { current = λ e. cc }

pub refresh_buckets-IsFresh : (h : PortHistogram) → IsFresh h → IsFresh (refresh_buckets h)
unfolding refresh_buckets
refresh_buckets-IsFresh h fresh =
    let sorted = sort descending_counts (as_buckets h.port_counts) in
    if_either IsFresh h.buckets_dirty _ _
      (λ dirty. record { current = λ e. ground (arith, take_short bucket_count sorted) })
      (λ clean. fresh)

pub total-add_count :
    (key delta : ℕ) (m : List (ℕ × ℕ)) → total (add_count key delta m) ≡ add64 (total m) delta
unfolding add_count find insert
total-add_count key delta [] = omega arith
total-add_count key delta ((k, n) ∷ m) = ground (arith, total-add_count key delta m)
