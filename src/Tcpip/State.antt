-- ===== src/Tcpip/State.antt =====
-- src/tcpip.h and src/tcpdemux.h: the state of one flow, the options that the flows read, and the
-- interface of `recon_set`, which is Boost's interval set and not part of the repository.
use tcpflow.Base.{ℕ, ◌+◌, ◌-◌, ◌%◌, Bool, true, false, Option, none, some, List, [], length}
use tcpflow.Base.Int.{ℤ, pos, negsuc}
use tcpflow.Base.Word.{u32, u64}
use tcpflow.Flow.{Flow, TimeVal}

-- `tcpdemux::options`, without the switches that choose a console format.
pub record Options : Type 0 where
  pub console_output : Bool
  pub store_output : Bool
  pub post_processing : Bool
  pub gzip_decompress : Bool
  pub max_bytes_per_flow : ℤ
  pub output_packet_index : Bool
  pub max_seek : ℤ

-- The default constructor of the options.
unfoldable pub default_options : Options
default_options = record {
  console_output = false;
  store_output = true;
  post_processing = false;
  gzip_decompress = true;
  max_bytes_per_flow = negsuc 0;
  output_packet_index = false;
  max_seek = pos 16777216;
}

-- `boost::icl::interval_set<uint64_t>`: the calls that tcpflow makes.
pub record ReconSet (S : Type 0) : Type 0 where
  pub empty : S
  pub add_closed : ℕ → ℕ → S → S
  pub size : S → ℕ

-- `tcpip::dir_t`.
pub data Dir : Type 0 where
  unknown dir_sc dir_cs : Dir

-- A line of the packet index file: offset, time stamp, bytes written.
pub record IndexLine : Type 0 where
  pub at : ℕ
  pub ts : TimeVal
  pub written : ℕ

-- `class tcpip`. `fd` is `none` for -1; `index` is what the index file holds.
pub record Tcpip (S : Type 0) : Type 0 where
  pub myflow : Flow
  pub dir : Dir
  pub isn : ℕ
  pub nsn : ℕ
  pub syn_count : ℕ
  pub fin_count : ℕ
  pub fin_size : ℕ
  pub pos : ℕ
  pub flow_pathname : List ℕ
  pub fd : Option ℕ
  pub file_created : Bool
  pub idx_open : Bool
  pub index : List IndexLine
  pub seen : Option S
  pub last_byte : ℕ
  pub last_packet_number : ℕ
  pub out_of_order_count : ℕ
  pub violations : ℕ

module _ {S : Type 0} (R : ReconSet S) where
  -- The constructor.
  unfoldable pub new_tcpip : Flow → ℕ → Tcpip S
  new_tcpip f isn = record {
    myflow = f;
    dir = unknown;
    isn = isn;
    nsn = 0;
    syn_count = 0;
    fin_count = 0;
    fin_size = 0;
    pos = 0;
    flow_pathname = [];
    fd = none;
    file_created = false;
    idx_open = false;
    index = [];
    seen = some R.empty;
    last_byte = 0;
    last_packet_number = 0;
    out_of_order_count = 0;
    violations = 0;
  }

  -- `seen_bytes`, a uint32_t.
  unfoldable pub seen_bytes : Tcpip S → ℕ
  seen_bytes t = elim t.seen [ none ↦ 0 | some s ↦ R.size s % u32 ]

  -- `update_seen`, for a flow whose set is not deleted.
  unfoldable pub update_seen : ℕ → ℕ → Option S → Option S
  update_seen at length none = none
  update_seen at length (some s) = some (R.add_closed at ((at + length + (u64 - 1)) % u64) s)
