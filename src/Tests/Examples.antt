-- ===== src/Tests/Examples.antt =====
-- A set of bytes, a flow, a file and a demultiplexer to run the definitions on.
use tcpflow.Base.{
  ℕ, zero, suc, ◌+◌, ◌-◌, Bool, true, false, ◌||◌, none, some, List, [], ◌∷◌, length, ◌==◌,
  if◌then◌else◌,
}
use tcpflow.Base.Int.{pos, negsuc}
use tcpflow.Flow.{Flow, FlowAddr, TimeVal, PacketInfo}
use tcpflow.Tcpip.File.{OpenFile}
use tcpflow.Tcpip.State.{Options, ReconSet, Tcpip, new_tcpip, default_options}
use tcpflow.Filename.{Naming, default_template}
use tcpflow.Demux.Os.{Os}
use tcpflow.Demux.State.{Demux, Settings}

abbrev mem : ℕ → List ℕ → Bool
mem a [] = false
mem a (b ∷ s) = a == b || mem a s

-- The elements of [lo, lo + n].
abbrev add_range : ℕ → ℕ → List ℕ → List ℕ
add_range lo zero s = if mem lo s then s else lo ∷ s
add_range lo (suc n) s = add_range lo n (if mem (lo + suc n) s then s else (lo + suc n) ∷ s)

abbrev pub recon_list : ReconSet (List ℕ)
recon_list = record { empty = []; add_closed = λ lo hi s. add_range lo (hi - lo) s; size = length }

abbrev pub noon : TimeVal
noon = record { sec = 43200; usec = 0 }

abbrev pub packet : PacketInfo
packet = record {
  ts = noon;
  caplen = 60;
  len = 60;
  vlan = negsuc 0;
  ether_dhost = 0 ∷ 0 ∷ 0 ∷ 0 ∷ 0 ∷ 1 ∷ [];
  ether_shost = 0 ∷ 0 ∷ 0 ∷ 0 ∷ 0 ∷ 2 ∷ [];
  payload = [];
}

abbrev pub client : FlowAddr
client = record {
  src = 10 ∷ 0 ∷ 0 ∷ 1 ∷ 0 ∷ 0 ∷ 0 ∷ 0 ∷ 0 ∷ 0 ∷ 0 ∷ 0 ∷ 0 ∷ 0 ∷ 0 ∷ 0 ∷ [];
  dst = 10 ∷ 0 ∷ 0 ∷ 2 ∷ 0 ∷ 0 ∷ 0 ∷ 0 ∷ 0 ∷ 0 ∷ 0 ∷ 0 ∷ 0 ∷ 0 ∷ 0 ∷ 0 ∷ [];
  sport = 4000;
  dport = 80;
  family = 2;
}

abbrev pub options : Options
options = record {
  console_output = false;
  store_output = true;
  post_processing = false;
  gzip_decompress = true;
  max_bytes_per_flow = negsuc 0;
  output_packet_index = false;
  max_seek = pos 16777216;
}

-- A flow whose SYN had the sequence number 2^32 - 3, so that the numbers wrap.
abbrev pub client_flow : Flow
client_flow = record {
  addr = client;
  id = 0;
  vlan = negsuc 0;
  mac_daddr = [];
  mac_saddr = [];
  tstart = noon;
  tlast = noon;
  len = 0;
  caplen = 0;
  packet_count = 0;
  session_id = 0;
}

abbrev pub fresh_flow : Tcpip (List ℕ)
fresh_flow = record {
  myflow = client_flow;
  dir = tcpflow.Tcpip.State.Dir.dir_cs;
  isn = 4294967293;
  nsn = 4294967294;
  syn_count = 1;
  fin_count = 0;
  fin_size = 0;
  pos = 0;
  flow_pathname = [];
  fd = none;
  file_created = false;
  idx_open = false;
  index = [];
  seen = some [];
  last_byte = 0;
  last_packet_number = 0;
  out_of_order_count = 0;
  violations = 0;
}

abbrev pub empty_file : OpenFile
empty_file = record { bytes = []; offset = 0 }

abbrev pub transcript : List ℕ
transcript = 116 ∷ []

abbrev pub naming : Naming
naming = record {
  template = default_template;
  outdir = 46 ∷ [];
  af_inet = 2;
  af_inet6 = 10;
  inet_ntop = λ a. [];
  iso8601 = λ t. [];
}

abbrev pub settings : Settings
settings = record {
  naming = naming;
  opt = options;
  has_xreport = false;
  has_alert_fd = false;
  has_command = false;
  has_pwriter = true;
  tcp_timeout = 0;
  max_saved_flows = 100;
  max_fds = 10;
  start_new_connections = true;
  debug = 1;
}

abbrev pub system : Os
system = record {
  files = [];
  descs = λ fd. none;
  used = 3;
  limit = 20;
  next_fd = 3;
  refused = λ p. false;
}

abbrev pub idle : Demux (List ℕ)
idle = record {
  flow_counter = 0;
  packet_counter = 0;
  unique_id = 0;
  max_open_flows = 0;
  flow_map = [];
  heap = λ p. none;
  next_object = 1;
  open_flows = record { li = []; len = 0; it = λ p. none; next_cell = 0 };
  saved_flow_map = [];
  saved_flows = [];
  os = system;
  events = [];
}

-- Flow 1 with its transcript open at descriptor 3.
abbrev pub open_flow : Tcpip (List ℕ)
open_flow = record fresh_flow { flow_pathname = 116 ∷ []; fd = some 3 }

abbrev pub busy : Demux (List ℕ)
busy = record idle {
  flow_map = (client, 1) ∷ [];
  heap = λ p. if p == 1 then some open_flow else none;
  open_flows = record {
    li = (0, 1) ∷ [];
    len = 1;
    it = λ p. if p == 1 then some 0 else none;
    next_cell = 1;
  };
  os = record system {
    files = (116 ∷ [], []) ∷ [];
    descs = λ fd. if fd == 3 then some (record { name = 116 ∷ []; offset = 0 }) else none;
    used = 4;
    next_fd = 4;
  };
}
