-- ===== src/Tests/Netviz.antt =====
-- Two packets: one of 60 bytes to port 80 in 2014, one of 40 bytes a day later.
use tcpflow.Netviz.Report.{PacketView, new_report, histogram_port, ingest_packet}
use tcpflow.Netviz.Report.Balance.{IsBalanced, ingest_packet-IsBalanced}
use tcpflow.Netviz.Time.Counted.{scale_timeval_bounds, insert_time-AllCounted, AllCounted}
use tcpflow.Base.{
  ℕ, ◌+◌, ◌*◌, ◌/◌, ◌≤◌, ◌<◌, ◌≡◌, refl, false, some, List, [], ◌∷◌, map, arith, length, ◌==◌,
}
use tcpflow.Flow.{TimeVal}
use tcpflow.Netviz.Ports.{PortHistogram, new_port_histogram, increment, add_count, refresh_buckets}
use tcpflow.Netviz.Time.{
  Span, new_histogram_map, build_spans, increment_bucket, change_bucket, HistogramMap,
  scale_timeval, first_base, set_base, insert_map, insert_maps, insert_time, new_time_histogram,
  TimeHistogram,
}

abbrev pad_tenth : ℕ → ℕ
pad_tenth n = n / 10

all_open : Unit {0}
unfolding new_port_histogram increment add_count refresh_buckets insert_time new_time_histogram
    insert_maps insert_map set_base first_base scale_timeval change_bucket increment_bucket
    build_spans new_histogram_map
all_open = tt

abbrev two_ports : PortHistogram
two_ports = increment 443 100 (increment 80 60 new_port_histogram)

abbrev at_second : ℕ → TimeVal
at_second n = record { sec = n; usec = 0 }

abbrev first_packet : TimeHistogram
first_packet = insert_time pad_tenth (at_second 1400000000) 80 60 false new_time_histogram

abbrev next_day : TimeHistogram
next_day = insert_time pad_tenth (at_second 1400086400) 22 40 false first_packet

next_day_fit : (first_packet.best_fit_index ≡ 0) × (next_day.best_fit_index ≡ 3)
unfolding all_open
next_day_fit = (refl, refl)

-- The histogram of a minute, with its base at second 1399999994.
abbrev minute : HistogramMap
minute = record {
  buckets = [];
  span = record { usec = 60000000; bucket_count = 600 };
  bucket_width = 100000;
  base_time = 1399999994000000;
  insert_count = 0;
}

scale_timeval_bounds_example :
    (minute.base_time + scale_timeval (at_second 1400000001) minute * minute.bucket_width
      ≤ 1400000001000000)
    × (1400000001000000
        < minute.base_time
          + (scale_timeval (at_second 1400000001) minute + 1) * minute.bucket_width)
scale_timeval_bounds_example =
    scale_timeval_bounds (at_second 1400000001) minute (omega arith) (omega arith) (omega arith)

new_maps-AllCounted : (spans : List Span) → AllCounted (map new_histogram_map spans)
unfolding all_open
new_maps-AllCounted [] = tt
new_maps-AllCounted (s ∷ l) = (record { counted = refl; within = tt }, new_maps-AllCounted l)

new-AllCounted : AllCounted new_time_histogram.histograms
unfolding new_time_histogram
new-AllCounted = new_maps-AllCounted build_spans

new_fits : 0 < length new_time_histogram.histograms
unfolding all_open
new_fits = omega arith

insert_time-AllCounted_example :
    AllCounted first_packet.histograms
    × (0 ≤ first_packet.best_fit_index)
    × (first_packet.best_fit_index < length first_packet.histograms)
unfolding new_time_histogram
insert_time-AllCounted_example =
    insert_time-AllCounted pad_tenth (at_second 1400000000) 80 60 false new_time_histogram
      new-AllCounted new_fits

-- A segment of 60 bytes from port 50000 to the colored port 80.
abbrev web_packet : PacketView
web_packet = record {
  ts = at_second 1400000000;
  len = 60;
  ether_type = 2048;
  ip = some (record {
    src_addr = 10 ∷ 0 ∷ 0 ∷ 1 ∷ [];
    dst_addr = 10 ∷ 0 ∷ 0 ∷ 2 ∷ [];
    tcp = some (record { src = 50000; dst = 80 });
  });
}

web_port : histogram_port (λ p. p == 80) 1 (record { src = 50000; dst = 80 }) ≡ 80
unfolding histogram_port
web_port = refl

new_report-IsBalanced : IsBalanced (new_report 100)
unfolding new_report new_time_histogram new_port_histogram
new_report-IsBalanced = record {
  transports = refl;
  timeline = refl;
  two_ends = refl;
  by_src = refl;
  by_dst = refl;
}

ingest_packet-IsBalanced_example :
    IsBalanced (ingest_packet pad_tenth (λ p. p == 80) web_packet (new_report 100))
ingest_packet-IsBalanced_example =
    ingest_packet-IsBalanced pad_tenth (λ p. p == 80) web_packet (new_report 100)
      new_report-IsBalanced
