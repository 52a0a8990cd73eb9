-- ===== src/Netviz/Time.antt =====
-- src/netviz/time_histogram.h and .cpp: bytes by time and port, in eight granularities at once.
pub mod Counted
pub mod Condense
use tcpflow.Base.{
  ℕ, zero, suc, ◌+◌, ◌-◌, ◌*◌, ◌/◌, ◌%◌, ◌^◌, ◌≤◌, ◌<◌, min, max, ◌≡◌, refl, sym, ap, ap₂, subst,
  ◌∙◌, fun_ext, ◌≢◌, ◌↔◌, ◌⊎◌, inl, inr, Bool, true, false, not, ◌&&◌, ◌||◌, Option, none, some,
  List, [], ◌∷◌, ◌++◌, map, append_assoc, append-nil, arith, dec_lt, dec_le, ℕ_discrete, length,
  get_elem?, set, length-append, length-set, get_elem?-set_self, get_elem?-set_ne, get_or, take,
  drop, replicate, take-append-drop, length-take, length-drop, length-replicate, length-map, ltb,
  leb, ◌==◌, if◌then◌else◌, ltb→lt, lt→ltb, leb→le, ==_iff, tests, Bool-cases, Option-cases,
  if_either, All, All-map, All-append,
}
use tcpflow.Base.Maps.{find, insert}
use tcpflow.Base.Word.{add64, u32, u64}
use tcpflow.Flow.{TimeVal}
use tcpflow.Netviz.Ports.{add_count, total}
use tcpflow.Base.Sort.{sort}

-- `bucket`: counts by port, and one for what has no port.
pub record Bucket : Type 0 where
  pub counts : List (ℕ × ℕ)
  pub portless_count : ℕ

abbrev pub empty_bucket : Bucket
empty_bucket = record { counts = []; portless_count = 0 }

-- `bucket::sum`.
abbrev pub bucket_sum : Bucket → ℕ
bucket_sum b = add64 (total b.counts) b.portless_count

unfoldable pub increment_bucket : (port delta : ℕ) → (non_tcp : Bool) → Bucket → Bucket
unfolding add_count
increment_bucket port delta non_tcp b =
    if non_tcp
    then record b { portless_count = add64 b.portless_count delta }
    else record b { counts = add_count port delta b.counts }

-- `span_params`.
pub record Span : Type 0 where
  pub usec : ℕ
  pub bucket_count : ℕ

pub record HistogramMap : Type 0 where
  pub buckets : List (ℕ × Bucket)
  pub span : Span
  pub bucket_width : ℕ
  pub base_time : ℕ
  pub insert_count : ℕ

unfoldable pub new_histogram_map : Span → HistogramMap
new_histogram_map span = record {
  buckets = [];
  span = span;
  bucket_width = span.usec / span.bucket_count;
  base_time = 0;
  insert_count = 0;
}

-- Microseconds since 1970.
abbrev pub raw_time : TimeVal → ℕ
raw_time ts = (ts.sec * 1000000 + ts.usec) % u64

-- The base time that the first packet fixes, a tenth of the buckets before it: `pad` is the product
-- of the number of buckets and the float 0.1, cut to an integer.
unfoldable pub first_base : (pad : ℕ → ℕ) → HistogramMap → (raw : ℕ) → ℕ
first_base pad h raw =
    let start = (raw + u64 - (h.bucket_width * pad h.span.bucket_count) % u64) % u64 in
    let unit = h.span.usec / h.span.bucket_count in start / unit * unit

unfoldable pub set_base : (pad : ℕ → ℕ) → TimeVal → HistogramMap → HistogramMap
unfolding first_base
set_base pad ts h =
    if h.base_time == 0 then record h { base_time = first_base pad h (raw_time ts) } else h

-- `scale_timeval` once the base time is set: -1, as a uint32_t, is an underflow.
unfoldable pub scale_timeval : TimeVal → HistogramMap → ℕ
scale_timeval ts h =
    if ltb (raw_time ts) h.base_time
    then u32 - 1
    else (raw_time ts - h.base_time) / h.bucket_width % u32

-- `buckets[index]`, made where it is missing, with a change.
unfoldable pub change_bucket : ℕ → (Bucket → Bucket) → List (ℕ × Bucket) → List (ℕ × Bucket)
change_bucket index f m =
    insert ◌==◌ index (f (elim (find ◌==◌ index m) [ none ↦ empty_bucket | some b ↦ b ])) m

-- `histogram_map::insert`; true is an overflow or an underflow.
unfoldable pub insert_map :
    (pad : ℕ → ℕ)
    → TimeVal
    → (port count : ℕ) → (non_tcp : Bool) → HistogramMap
    → HistogramMap × Bool
unfolding set_base scale_timeval change_bucket increment_bucket
insert_map pad ts port count non_tcp h =
    let h' = set_base pad ts h in
    let index = scale_timeval ts h' in
    if leb h'.span.bucket_count index then (h', true) else (
      record h' {
        buckets = change_bucket index (increment_bucket port count non_tcp) h'.buckets;
        insert_count = add64 h'.insert_count count;
      },
      false,
    )

-- `greatest_bucket_sum`.
unfoldable pub greatest_bucket_sum : List (ℕ × Bucket) → ℕ
greatest_bucket_sum [] = 0
greatest_bucket_sum ((k, b) ∷ m) = max (bucket_sum b) (greatest_bucket_sum m)

-- `build_spans`: a minute, an hour, a day, a week, a month, a year, about a decade, half a century.
unfoldable pub build_spans : List Span
build_spans =
    record { usec = 1000000 * 60; bucket_count = 600 }
    ∷ record { usec = 1000000 * 60 * 60; bucket_count = 3600 }
    ∷ record { usec = 1000000 * 60 * 60 * 24; bucket_count = 1440 }
    ∷ record { usec = 1000000 * 60 * 60 * 24 * 7; bucket_count = 1008 }
    ∷ record { usec = 1000000 * 60 * 60 * 24 * 30; bucket_count = 720 }
    ∷ record { usec = 1000000 * 60 * 60 * 24 * 30 * 12; bucket_count = 360 }
    ∷ record { usec = 1000000 * 60 * 60 * 24 * 3598; bucket_count = 514 }
    ∷ record { usec = 1000000 * 60 * 60 * 24 * 30 * 12 * 50; bucket_count = 200 }
    ∷ []

pub record TimeHistogram : Type 0 where
  pub histograms : List HistogramMap
  pub best_fit_index : ℕ
  pub earliest_ts : TimeVal
  pub latest_ts : TimeVal
  pub insert_count : ℕ

abbrev pub epoch : TimeVal
epoch = record { sec = 0; usec = 0 }

unfoldable pub new_time_histogram : TimeHistogram
unfolding build_spans new_histogram_map
new_time_histogram = record {
  histograms = map new_histogram_map build_spans;
  best_fit_index = 0;
  earliest_ts = epoch;
  latest_ts = epoch;
  insert_count = 0;
}

-- Whether one time stamp is before another.
abbrev pub is_before : TimeVal → TimeVal → Bool
is_before a b = ltb a.sec b.sec || (a.sec == b.sec && ltb a.usec b.usec)

abbrev pub earliest : TimeVal → TimeVal → TimeVal
earliest ts old = if old.sec == 0 || is_before ts old then ts else old

abbrev pub latest : TimeVal → TimeVal → TimeVal
latest ts old = if is_before old ts then ts else old

-- The loop over the histograms: the first `skip` are left alone, and each overflow of another
-- moves the best fit one on, up to the last.
unfoldable pub insert_maps :
    (pad : ℕ → ℕ)
    → TimeVal
    → (port count : ℕ) → (non_tcp : Bool) → (skip last best : ℕ) → List HistogramMap
    → List HistogramMap × ℕ
unfolding insert_map
insert_maps pad ts port count non_tcp skip last best [] = ([], best)
insert_maps pad ts port count non_tcp (suc skip) last best (h ∷ hs) =
    let (hs', best') = insert_maps pad ts port count non_tcp skip last best hs in (h ∷ hs', best')
insert_maps pad ts port count non_tcp zero last best (h ∷ hs) =
    let (h', overflowed) = insert_map pad ts port count non_tcp h in
    let next = if overflowed && ltb best last then best + 1 else best in
    let (hs', best') = insert_maps pad ts port count non_tcp zero last next hs in (h' ∷ hs', best')

-- `time_histogram::insert`.
unfoldable pub insert_time :
    (pad : ℕ → ℕ) → TimeVal → (port count : ℕ) → (non_tcp : Bool) → TimeHistogram → TimeHistogram
unfolding insert_maps
insert_time pad ts port count non_tcp t =
    let (hs, best) =
      insert_maps pad ts port count non_tcp t.best_fit_index (length t.histograms - 1)
        t.best_fit_index t.histograms in
    record t {
      insert_count = add64 t.insert_count count;
      earliest_ts = earliest ts t.earliest_ts;
      latest_ts = latest ts t.latest_ts;
      histograms = hs;
      best_fit_index = best;
    }
