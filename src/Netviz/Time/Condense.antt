-- ===== src/Netviz/Time/Condense.antt =====
-- src/netviz/time_histogram.cpp: coarser buckets, and the queries of the histogram that fits best.
use tcpflow.Base.{
  ℕ, ◌+◌, ◌-◌, ◌*◌, ◌/◌, ◌%◌, min, max, true, false, Option, none, some, List, [], ◌∷◌, length,
  get_elem?, set, ltb, ◌==◌,
}
use tcpflow.Base.Maps.{find}
use tcpflow.Base.Word.{u32, u64}
use tcpflow.Base.Sort.{sort}
use tcpflow.Flow.{TimeVal}
use tcpflow.Netviz.Time.{
  greatest_bucket_sum, Bucket, empty_bucket, HistogramMap, new_histogram_map, insert_map,
  TimeHistogram,
}

-- A bucket counted into another histogram, port by port.
unfoldable pub pour_counts : (pad : ℕ → ℕ) → TimeVal → List (ℕ × ℕ) → HistogramMap → HistogramMap
unfolding insert_map
pour_counts pad ts [] h = h
pour_counts pad ts ((port, n) ∷ m) h = pour_counts pad ts m (insert_map pad ts port n false h).0

-- The start of a bucket, in seconds and microseconds.
unfoldable pub bucket_start : HistogramMap → ℕ → TimeVal
bucket_start h index =
    let usec = (index * h.bucket_width + h.base_time) % u64 in
    record { sec = usec / 1000000; usec = usec % 1000000 }

unfoldable pub pour_buckets :
    (pad : ℕ → ℕ) → HistogramMap → List (ℕ × Bucket) → HistogramMap → HistogramMap
unfolding pour_counts bucket_start
pour_buckets pad original [] h = h
pour_buckets pad original ((index, b) ∷ m) h =
    let ts = bucket_start original index in
    pour_buckets pad original m
      (insert_map pad ts 0 b.portless_count true (pour_counts pad ts b.counts h)).0

-- `condense` by a whole factor; the buckets are walked in the order of their keys.
unfoldable pub condense_map : (pad : ℕ → ℕ) → (factor : ℕ) → HistogramMap → HistogramMap
unfolding pour_buckets new_histogram_map
condense_map pad factor h =
    pour_buckets pad h (sort (λ a b. ltb a.0 b.0) h.buckets) (
      new_histogram_map
        (record { usec = h.span.usec; bucket_count = h.span.bucket_count / factor }))

unfoldable pub condense : (pad : ℕ → ℕ) → (factor : ℕ) → TimeHistogram → TimeHistogram
unfolding condense_map
condense pad factor t = elim (get_elem? t.histograms t.best_fit_index) [
  | none ↦ t
  | some h ↦ record t { histograms = set t.histograms t.best_fit_index (condense_map pad factor h) }
]

-- The queries of the histogram that fits best; `none` is the exception of `at`.
unfoldable pub best_fit : TimeHistogram → Option HistogramMap
best_fit t = get_elem? t.histograms t.best_fit_index

unfoldable pub bucket_at : ℕ → HistogramMap → Bucket
bucket_at index h = elim (find ◌==◌ index h.buckets) [ none ↦ empty_bucket | some b ↦ b ]

abbrev pub least_key : ℕ → List (ℕ × Bucket) → ℕ
least_key k [] = k
least_key k ((i, b) ∷ m) = min i (least_key k m)

abbrev pub greatest_key : ℕ → List (ℕ × Bucket) → ℕ
greatest_key k [] = k
greatest_key k ((i, b) ∷ m) = max i (greatest_key k m)

-- `non_sparse_size`: a difference of uint32_t.
unfoldable pub non_sparse_size : List (ℕ × Bucket) → ℕ
non_sparse_size [] = 0
non_sparse_size ((i, b) ∷ m) = (greatest_key i m + u32 - least_key i m + 1) % u32

-- A number of the histogram that fits best.
abbrev pub of_best_fit : (HistogramMap → ℕ) → TimeHistogram → Option ℕ
of_best_fit f t = elim (get_elem? t.histograms t.best_fit_index) [
  | none ↦ none
  | some h ↦ some (f h)
]

unfoldable pub usec_per_bucket : TimeHistogram → Option ℕ
usec_per_bucket = of_best_fit (λ h. h.bucket_width)

unfoldable pub fit_packet_count : TimeHistogram → Option ℕ
fit_packet_count = of_best_fit (λ h. h.insert_count)

unfoldable pub tallest_bar : TimeHistogram → Option ℕ
unfolding greatest_bucket_sum
tallest_bar = of_best_fit (λ h. greatest_bucket_sum h.buckets)

unfoldable pub bar_count : TimeHistogram → Option ℕ
bar_count = of_best_fit (λ h. length h.buckets)

unfoldable pub start_date : TimeHistogram → ℕ
start_date t = t.earliest_ts.sec

unfoldable pub end_date : TimeHistogram → ℕ
end_date t = t.latest_ts.sec
