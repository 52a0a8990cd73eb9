-- ===== src/Demux/State.antt =====
-- src/tcpdemux.h: the state of the demultiplexer, and the monad of its methods.
use tcpflow.Base.{
  ℕ, Bool, true, false, Option, none, some, List, [], ◌∷◌, ◌++◌, ◌==◌, if◌then◌else◌,
}
use tcpflow.Flow.{Flow, FlowAddr}
use tcpflow.Tcpip.State.{Options, Tcpip}
use tcpflow.OpenFlows
use tcpflow.OpenFlows.{OpenFlows}
use tcpflow.Filename.{Naming}
use tcpflow.Demux.Os.{Os}

-- `class saved_flow`.
pub record SavedFlow : Type 0 where
  pub addr : FlowAddr
  pub saved_filename : List ℕ
  pub isn : ℕ

-- What leaves the demultiplexer besides the files: the report, the two alert messages, the command
-- for each flow, the buffers handed to the scanners, the console and the notice of a repeated SYN.
pub data Event : Type 0 where
  report : (name : List ℕ) → (last_byte : ℕ) → Flow → Event
  alert_open alert_close command : List ℕ → Event
  scanned : List ℕ → Event
  printed : List ℕ → Event
  syn_ignored : FlowAddr → Event

-- Settings that no method changes; `naming` is what flow.cpp reads, and `debug` the level up to which
-- messages are written.
pub record Settings : Type 0 where
  pub naming : Naming
  pub opt : Options
  pub has_xreport : Bool
  pub has_alert_fd : Bool
  pub has_command : Bool
  pub has_pwriter : Bool
  pub tcp_timeout : ℕ
  pub max_saved_flows : ℕ
  pub max_fds : ℕ
  pub start_new_connections : Bool
  pub debug : ℕ

-- `heap` holds the tcpip objects by address; a deleted object is `none`. A saved flow is held by
-- value in both containers, since nothing changes it.
pub record Demux (S : Type 0) : Type 0 where
  pub flow_counter : ℕ
  pub packet_counter : ℕ
  pub unique_id : ℕ
  pub max_open_flows : ℕ
  pub flow_map : List (FlowAddr × ℕ)
  pub heap : ℕ → Option (Tcpip S)
  pub next_object : ℕ
  pub open_flows : OpenFlows
  pub saved_flow_map : List (FlowAddr × SavedFlow)
  pub saved_flows : List SavedFlow
  pub os : Os
  pub events : List Event

-- The members that `tcpdemux::tcpdemux` sets, over the files that are there.
unfoldable pub new_demux : {S : Type 0} → Os → Demux S
new_demux os = record {
  flow_counter = 0;
  packet_counter = 0;
  unique_id = 0;
  max_open_flows = 0;
  flow_map = [];
  heap = λ p. none;
  next_object = 0;
  open_flows = OpenFlows.empty;
  saved_flow_map = [];
  saved_flows = [];
  os = os;
  events = [];
}

-- How a method can end without a result: `die` and `exit`, a failed assertion, a step that C++
-- leaves undefined, of which the access to a deleted object is one of its own, and the end of a
-- loop's fuel.
pub data Stop : Type 0 where
  died aborted undefined dangling out_of_fuel : Stop

pub data Outcome {ℓ} (A : Type ℓ) : Type ℓ where
  done : A → Outcome A
  stopped : Stop → Outcome A

abbrev pub is_none : {A : Type 0} → Option A → Bool
is_none none = true
is_none (some a) = false

abbrev pub M : Type 0 → Type 0 → Type 0
M S A = Demux S → Outcome (A × Demux S)

module _ {S : Type 0} where
  infixl 5 ◌>>=◌ ◌>>◌
  unfoldable pub ◌>>=◌ : {A B : Type 0} → M S A → (A → M S B) → M S B
  ◌>>=◌ m f d = elim (m d) [ stopped s ↦ stopped s | done (a, d') ↦ f a d' ]

  unfoldable pub ◌>>◌ : {B : Type 0} → M S (Unit {0}) → M S B → M S B
  ◌>>◌ m k d = elim (m d) [ stopped s ↦ stopped s | done (a, d') ↦ k d' ]

  unfoldable pub return : {A : Type 0} → A → M S A
  return a d = done (a, d)

  unfoldable pub stop : {A : Type 0} → Stop → M S A
  stop s d = stopped s

  unfoldable pub get_state : M S (Demux S)
  get_state d = done (d, d)

  unfoldable pub modify : (Demux S → Demux S) → M S (Unit {0})
  modify f d = done (tt, f d)

  unfoldable pub when : Bool → M S (Unit {0}) → M S (Unit {0})
  when b m d = elim b [ false ↦ done (tt, d) | true ↦ m d ]

  unfoldable pub emit : Event → M S (Unit {0})
  emit e d = done (tt, record d { events = d.events ++ e ∷ [] })

  -- A read through a pointer to an object that is not there is undefined.
  unfoldable pub load : ℕ → M S (Tcpip S)
  load p d = elim (d.heap p) [ none ↦ stopped dangling | some t ↦ done (t, d) ]

  abbrev pub set_object : ℕ → Option (Tcpip S) → (ℕ → Option (Tcpip S)) → ℕ → Option (Tcpip S)
  set_object p o h q = if q == p then o else h q

  unfoldable pub store : ℕ → Tcpip S → M S (Unit {0})
  store p t d = done (tt, record d { heap = set_object p (some t) d.heap })

-- Opens the monad.
unfoldable pub monad : Unit {0}
unfolding ◌>>=◌ ◌>>◌ return stop get_state modify when emit load store
monad = tt
