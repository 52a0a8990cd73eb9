-- ===== src/Netviz/Time/Counted.antt =====
-- src/netviz/time_histogram.h: what the buckets count.
use tcpflow.Base.{
  ℕ, zero, suc, ◌+◌, ◌-◌, ◌*◌, ◌/◌, ◌%◌, ◌≤◌, ◌<◌, ◌≡◌, refl, sym, ap, ◌∙◌, Bool, true, false, ◌&&◌,
  List, [], ◌∷◌, arith, length, ltb, leb, if◌then◌else◌, if_either,
}
use native.Mathlib.Nat.{div-add-mod', mod-eq_of_lt, mod-lt}
use tcpflow.Base.Maps.{find, insert}
use tcpflow.Base.Word.{add64, u32}
use tcpflow.Flow.{TimeVal}
use tcpflow.Netviz.Ports.Top.{total-add_count}
use tcpflow.Netviz.Time.{
  raw_time, Bucket, empty_bucket, bucket_sum, increment_bucket, HistogramMap, change_bucket,
  set_base, scale_timeval, insert_map, insert_maps, insert_time, TimeHistogram,
}

abbrev pub buckets_total : List (ℕ × Bucket) → ℕ
buckets_total [] = 0
buckets_total ((k, b) ∷ m) = add64 (bucket_sum b) (buckets_total m)

-- Each bucket lies within the span.
abbrev pub Within : ℕ → List (ℕ × Bucket) → Type 0
Within n [] = Unit {0}
Within n ((k, b) ∷ m) = (k < n) × Within n m

-- The buckets add up to the bytes that were inserted, and lie within the span.
pub record IsCounted (h : HistogramMap) : Type 0 where
  pub counted : buckets_total h.buckets ≡ h.insert_count
  pub within : Within h.span.bucket_count h.buckets

bucket_sum-increment_bucket :
    (port delta : ℕ) (non_tcp : Bool) (b : Bucket)
    → bucket_sum (increment_bucket port delta non_tcp b) ≡ add64 (bucket_sum b) delta
unfolding increment_bucket
bucket_sum-increment_bucket port delta true b = omega arith
bucket_sum-increment_bucket port delta false b = omega (arith, total-add_count port delta b.counts)

buckets_total-change_bucket :
    (index delta : ℕ) (f : Bucket → Bucket) (m : List (ℕ × Bucket))
    → ((b : Bucket) → bucket_sum (f b) ≡ add64 (bucket_sum b) delta)
    → buckets_total (change_bucket index f m) ≡ add64 (buckets_total m) delta
unfolding change_bucket find insert
buckets_total-change_bucket index delta f [] h = omega (arith, h empty_bucket)
buckets_total-change_bucket index delta f ((k, b) ∷ m) h =
    ground (arith, h b, buckets_total-change_bucket index delta f m h)

Within-change_bucket :
    (n index : ℕ) (f : Bucket → Bucket) (m : List (ℕ × Bucket))
    → index < n
    → Within n m
    → Within n (change_bucket index f m)
unfolding change_bucket find insert
Within-change_bucket n index f [] h w = (h, tt)
Within-change_bucket n index f ((k, b) ∷ m) h w = ground (arith, Within-change_bucket n index f m h)

set_base_same :
    (pad : ℕ → ℕ) (ts : TimeVal) (h : HistogramMap)
    → ((set_base pad ts h).buckets ≡ h.buckets)
      × ((set_base pad ts h).span ≡ h.span)
      × ((set_base pad ts h).insert_count ≡ h.insert_count)
unfolding set_base
set_base_same pad ts h = ground arith

set_base-IsCounted :
    (pad : ℕ → ℕ) (ts : TimeVal) (h : HistogramMap) → IsCounted h → IsCounted (set_base pad ts h)
set_base-IsCounted pad ts h v =
    let (b, s, n) = set_base_same pad ts h in
    record { counted = ap buckets_total b ∙ v.counted ∙ sym n; within = rw (b, s) v.within }

-- Whatever the time of a packet, inserting it keeps the sum of the buckets equal to the count of
-- the histogram and every bucket within the span; an overflow or underflow counts nothing.
pub insert_map-IsCounted :
    (pad : ℕ → ℕ) (ts : TimeVal) (port count : ℕ) (non_tcp : Bool) (h : HistogramMap)
    → IsCounted h
    → let (h', overflowed) = insert_map pad ts port count non_tcp h in
      IsCounted h'
      × (buckets_total h'.buckets
          ≡ (if overflowed then buckets_total h.buckets else add64 (buckets_total h.buckets) count))
unfolding insert_map
insert_map-IsCounted pad ts port count non_tcp h v =
    let h1 = set_base pad ts h in
    let v1 = set_base-IsCounted pad ts h v in
    let same = ap buckets_total (set_base_same pad ts h).0 in
    let index = scale_timeval ts h1 in
    let f = increment_bucket port count non_tcp in
    let grown =
      buckets_total-change_bucket index count f h1.buckets
        (bucket_sum-increment_bucket port count non_tcp) in
    let kept : HistogramMap × Bool → Type 0 = λ q.
      IsCounted q.0
      × (buckets_total q.0.buckets
          ≡ (if q.1 then buckets_total h.buckets else add64 (buckets_total h.buckets) count)) in
    if_either kept (leb h1.span.bucket_count index) _ _ (λ out. (v1, same))
      (λ fits. (
        record {
          counted = omega (arith, grown, v1.counted);
          within =
              Within-change_bucket h1.span.bucket_count index f h1.buckets (ground arith) v1.within;
        },
        grown ∙ ap (λ n. add64 n count) same,
      ))

not_before : (t base : ℕ) → base ≤ t → ltb t base ≡ false
not_before t base b = ground arith

quotient_bounds :
    (t base width : ℕ)
    → base ≤ t
    → 0 < width
    → let q = (t - base) / width in (base + q * width ≤ t) × (t < base + (q + 1) * width)
quotient_bounds t base width b w =
    let split = div-add-mod' (t - base) width in
    let rest = mod-lt (t - base) w in (omega (arith, split, b), omega (arith, split, rest, b))

-- A time that is not before the base falls into the bucket whose stretch of time holds it, where
-- the number of that bucket fits the word.
pub scale_timeval_bounds :
    (ts : TimeVal) (h : HistogramMap)
    → h.base_time ≤ raw_time ts
    → 0 < h.bucket_width
    → (raw_time ts - h.base_time) / h.bucket_width < u32
    → let index = scale_timeval ts h in
      (h.base_time + index * h.bucket_width ≤ raw_time ts)
      × (raw_time ts < h.base_time + (index + 1) * h.bucket_width)
unfolding scale_timeval
scale_timeval_bounds ts h b w n =
    let same : scale_timeval ts h ≡ (raw_time ts - h.base_time) / h.bucket_width =
      ap (λ c. if c then u32 - 1 else (raw_time ts - h.base_time) / h.bucket_width % u32)
        (not_before (raw_time ts) h.base_time b)
      ∙ mod-eq_of_lt n in
    rw same (quotient_bounds (raw_time ts) h.base_time h.bucket_width b w)

-- Every histogram is counted.
abbrev pub AllCounted : List HistogramMap → Type 0
AllCounted [] = Unit {0}
AllCounted (h ∷ hs) = IsCounted h × AllCounted hs

next_bounds :
    (best last : ℕ) (overflowed : Bool)
    → best ≤ last
    → let next = if overflowed && ltb best last then best + 1 else best in
      (best ≤ next) × (next ≤ last)
next_bounds best last true b = ground arith
next_bounds best last false b = (omega arith, b)

insert_maps-AllCounted :
    (pad : ℕ → ℕ) (ts : TimeVal) (port count : ℕ) (non_tcp : Bool) (skip last best : ℕ)
    (hs : List HistogramMap)
    → AllCounted hs
    → best ≤ last
    → let (hs', best') = insert_maps pad ts port count non_tcp skip last best hs in
      AllCounted hs' × (best ≤ best') × (best' ≤ last) × (length hs' ≡ length hs)
unfolding insert_maps
insert_maps-AllCounted pad ts port count non_tcp skip last best [] v b = (tt, omega arith, b, refl)
insert_maps-AllCounted pad ts port count non_tcp (suc skip) last best (h ∷ hs) v b =
    let r = insert_maps-AllCounted pad ts port count non_tcp skip last best hs v.1 b in
    ((v.0, r.0), r.1, r.2, ap suc r.3)
insert_maps-AllCounted pad ts port count non_tcp zero last best (h ∷ hs) v b =
    let out = insert_map pad ts port count non_tcp h in
    let next = if out.1 && ltb best last then best + 1 else best in
    let (up, bound) = next_bounds best last out.1 b in
    let r = insert_maps-AllCounted pad ts port count non_tcp zero last next hs v.1 bound in
    (
      ((insert_map-IsCounted pad ts port count non_tcp h v.0).0, r.0),
      omega (arith, r.1, up),
      r.2,
      ap suc r.3,
    )

-- Whatever the packet, the buckets of every granularity still add up to what it accepted and lie
-- within its span, and the best fit is still the index of a histogram and does not go back to a
-- finer one, where all that held before.
pub insert_time-AllCounted :
    (pad : ℕ → ℕ) (ts : TimeVal) (port count : ℕ) (non_tcp : Bool) (t : TimeHistogram)
    → AllCounted t.histograms
    → t.best_fit_index < length t.histograms
    → let t' = insert_time pad ts port count non_tcp t in
      AllCounted t'.histograms
      × (t.best_fit_index ≤ t'.best_fit_index)
      × (t'.best_fit_index < length t'.histograms)
unfolding insert_time
insert_time-AllCounted pad ts port count non_tcp t v b =
    let r =
      insert_maps-AllCounted pad ts port count non_tcp t.best_fit_index (length t.histograms - 1)
        t.best_fit_index t.histograms v (omega arith) in
    (r.0, r.1, omega (arith, r.2, r.3, b))
