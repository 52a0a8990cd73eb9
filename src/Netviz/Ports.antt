-- ===== src/Netviz/Ports.antt =====
-- src/netviz/port_histogram.cpp: bytes by TCP port, and the ten ports with the most.
pub mod Top
use tcpflow.Base.{
  ℕ, zero, suc, ◌+◌, ◌-◌, ◌*◌, ◌/◌, ◌%◌, ◌^◌, ◌≤◌, ◌<◌, min, max, ◌≡◌, refl, sym, ap, ap₂, subst,
  ◌∙◌, fun_ext, ◌≢◌, ◌↔◌, ◌⊎◌, inl, inr, Bool, true, false, not, ◌&&◌, ◌||◌, Option, none, some,
  List, [], ◌∷◌, ◌++◌, map, append_assoc, append-nil, arith, dec_lt, dec_le, ℕ_discrete, length,
  get_elem?, set, length-append, length-set, get_elem?-set_self, get_elem?-set_ne, get_or, take,
  drop, replicate, take-append-drop, length-take, length-drop, length-replicate, length-map, ltb,
  leb, ◌==◌, if◌then◌else◌, ltb→lt, lt→ltb, leb→le, ==_iff, tests, Bool-cases, Option-cases,
  if_either, All, All-map, All-append,
}
use tcpflow.Base.Maps.{find, insert}
use tcpflow.Base.Word.{add64}
use tcpflow.Base.Sort.{sort}

pub record PortCount : Type 0 where
  pub port : ℕ
  pub count : ℕ

-- `buckets_dirty` says that `buckets` is older than `port_counts`.
pub record PortHistogram : Type 0 where
  pub port_counts : List (ℕ × ℕ)
  pub data_bytes_ingested : ℕ
  pub buckets : List PortCount
  pub buckets_dirty : Bool

unfoldable pub new_port_histogram : PortHistogram
new_port_histogram = record {
  port_counts = [];
  data_bytes_ingested = 0;
  buckets = [];
  buckets_dirty = true;
}

abbrev pub bucket_count : ℕ
bucket_count = 10

-- `descending_counts`.
unfoldable pub descending_counts : PortCount → PortCount → Bool
descending_counts a b =
    if ltb b.count a.count then true else if ltb a.count b.count then false else ltb a.port b.port

-- The sum of counts.
abbrev pub total : List (ℕ × ℕ) → ℕ
total [] = 0
total ((k, n) ∷ m) = add64 n (total m)

-- `m[key] += delta`, which starts at 0 for a key that is not there.
unfoldable pub add_count : ℕ → ℕ → List (ℕ × ℕ) → List (ℕ × ℕ)
add_count key delta m =
    insert ◌==◌ key (add64 (elim (find ◌==◌ key m) [ none ↦ 0 | some n ↦ n ]) delta) m

unfoldable pub increment : (port delta : ℕ) → PortHistogram → PortHistogram
unfolding add_count
increment port delta h = record h {
  port_counts = add_count port delta h.port_counts;
  data_bytes_ingested = add64 h.data_bytes_ingested delta;
  buckets_dirty = true;
}

abbrev pub as_buckets : List (ℕ × ℕ) → List PortCount
as_buckets = map (λ e. record { port = e.0; count = e.1 })

-- `refresh_buckets`; a sort of the first ten alone keeps the same ten as a sort of all.
unfoldable pub refresh_buckets : PortHistogram → PortHistogram
refresh_buckets h =
    let sorted = sort descending_counts (as_buckets h.port_counts) in
    let shown = if leb (length sorted) bucket_count then sorted else take bucket_count sorted in
    if h.buckets_dirty then record h { buckets = shown; buckets_dirty = false } else h

-- `at`, `size` and the iterators refresh the buckets first.
unfoldable pub at : ℕ → PortHistogram → Option PortCount × PortHistogram
unfolding refresh_buckets
at index h = let h' = refresh_buckets h in (get_elem? h'.buckets index, h')

unfoldable pub size : PortHistogram → ℕ × PortHistogram
unfolding refresh_buckets
size h = let h' = refresh_buckets h in (length h'.buckets, h')

unfoldable pub ingest_count : PortHistogram → ℕ
ingest_count h = h.data_bytes_ingested
