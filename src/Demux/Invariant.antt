-- ===== src/Demux/Invariant.antt =====
-- src/tcpdemux.h: what holds of the demultiplexer between two packets.
pub mod Opening
pub mod Linked
pub mod Open
pub mod Saving
pub mod Flows
pub mod Birth
pub mod Data
pub mod Known
pub mod Tcp
pub mod Expired
pub mod Packet
pub mod Ending
use tcpflow.Base.{
  ℕ, zero, suc, ◌+◌, ◌-◌, ◌*◌, ◌/◌, ◌%◌, ◌^◌, ◌≤◌, ◌<◌, min, max, ◌≡◌, refl, sym, ap, ap₂, subst,
  ◌∙◌, fun_ext, ◌≢◌, ◌↔◌, ◌⊎◌, inl, inr, Bool, true, false, not, ◌&&◌, ◌||◌, Option, none, some,
  List, [], ◌∷◌, ◌++◌, map, append_assoc, append-nil, arith, dec_lt, dec_le, ℕ_discrete, length,
  get_elem?, set, length-append, length-set, get_elem?-set_self, get_elem?-set_ne, get_or, take,
  drop, replicate, take-append-drop, length-take, length-drop, length-replicate, length-map, ltb,
  leb, ◌==◌, if◌then◌else◌, ltb→lt, lt→ltb, leb→le, ==_iff, tests, Bool-cases, Option-cases,
  if_either, All, All-map, All-append,
}
use tcpflow.Base.Maps.{erase, erase_absent, IsDistinct, find}
use tcpflow.Flow.Addr.{same_addr_iff}
use tcpflow.Flow.{FlowAddr, same_addr}
use tcpflow.Tcpip.State.{Tcpip}
use tcpflow.Demux.Rules.{Runs, Runs-emit}
use tcpflow.Demux.State.{Event, emit, Demux, Settings, set_object}
use tcpflow.Demux.Files.Closing.{OpenIsValid, SameOpen, SameOpen-OpenIsValid, fd_of}
use tcpflow.Demux.Flows.Saved.{SavedIsValid}

-- The address of the flow of an object.
abbrev pub addr_of : {S : Type 0} → Option (Tcpip S) → Option FlowAddr
addr_of none = none
addr_of (some t) = some t.myflow.addr

-- A map of flows leads from each address to the live object with that address, and to no other;
-- addresses from `next_object` on are not in use.
pub record MapIsValid {S : Type 0} (flows : List (FlowAddr × ℕ)) (d : Demux S) : Type 0 where
  pub objects :
      (a : FlowAddr) (p : ℕ) → (find same_addr a flows ≡ some p) ↔ (addr_of (d.heap p) ≡ some a)
  pub distinct : IsDistinct same_addr flows
  pub unborn : (p : ℕ) → d.next_object ≤ p → d.heap p ≡ none

-- The invariant of the demultiplexer, with `flows` for the map of its flows. Between two packets
-- that is `whole`, what the member holds; while all flows end, it is the rest of it.
pub record IsSound {S : Type 0} (limit : ℕ) (whole flows : List (FlowAddr × ℕ)) (d : Demux S)
    : Type 0 where
  pub map_valid : MapIsValid flows d
  pub open_valid : OpenIsValid d
  pub saved_valid : SavedIsValid limit d
  pub at : d.flow_map ≡ whole

-- `d'` has the flows and the saved flows of `d`, and objects of the same addresses.
pub record SameFlows {S : Type 0} (d d' : Demux S) : Type 0 where
  pub flow_map : d'.flow_map ≡ d.flow_map
  pub next_object : d'.next_object ≡ d.next_object
  pub saved_flow_map : d'.saved_flow_map ≡ d.saved_flow_map
  pub saved_flows : d'.saved_flows ≡ d.saved_flows
  pub addrs : (q : ℕ) → addr_of (d'.heap q) ≡ addr_of (d.heap q)

pub addr_alive : {S : Type 0} (a : FlowAddr) (o : Option (Tcpip S)) → addr_of o ≡ some a → o ≢ none
addr_alive a none e = absurd cc
addr_alive a (some t) e = λ h. cc

pub fd_alive : {S : Type 0} (fd : ℕ) (o : Option (Tcpip S)) → fd_of o ≡ some fd → o ≢ none
fd_alive fd none e = absurd cc
fd_alive fd (some t) e = λ h. cc

pub addr_of-none : {S : Type 0} (o : Option (Tcpip S)) → addr_of o ≡ none → o ≡ none
addr_of-none none e = refl
addr_of-none (some t) e = cc

module _ {S : Type 0} (limit : ℕ) (whole flows : List (FlowAddr × ℕ)) where
  pub SameFlows-IsSound :
      (d d' : Demux S)
      → IsSound limit whole flows d
      → SameFlows d d'
      → OpenIsValid d'
      → IsSound limit whole flows d'
  SameFlows-IsSound d d' v s o = record {
    map_valid = record {
      objects = λ a p. rw (s.addrs p) (v.map_valid.objects a p);
      distinct = v.map_valid.distinct;
      unborn = λ p h.
          addr_of-none (d'.heap p)
            (s.addrs p ∙ ap addr_of (v.map_valid.unborn p (omega (arith, h, s.next_object))));
    };
    open_valid = o;
    saved_valid = record {
      alive = λ a f. rw (s.saved_flow_map, s.saved_flows) (v.saved_valid.alive a f);
      bounded = rw s.saved_flows v.saved_valid.bounded;
    };
    at = s.flow_map ∙ v.at;
  }

  -- Nothing of the invariant changes: the flows, the objects, the files.
  pub IsSound-same :
      (d d' : Demux S)
      → IsSound limit whole flows d
      → SameFlows d d'
      → SameOpen d d'
      → IsSound limit whole flows d'
  IsSound-same d d' v s o = SameFlows-IsSound d d' v s (SameOpen-OpenIsValid d d' v.open_valid o)

  -- An object is replaced by one with its address and its descriptor.
  pub IsSound-store :
      (p : ℕ) (t t' : Tcpip S) (d : Demux S)
      → d.heap p ≡ some t
      → t'.myflow.addr ≡ t.myflow.addr
      → t'.fd ≡ t.fd
      → IsSound limit whole flows d
      → IsSound limit whole flows (record d { heap = set_object p (some t') d.heap })
  IsSound-store p t t' d e a f v =
      IsSound-same d (record d { heap = set_object p (some t') d.heap }) v
        (record {
          flow_map = refl;
          next_object = refl;
          saved_flow_map = refl;
          saved_flows = refl;
          addrs = λ q. ground (arith, e, a, ap d.heap {x = q} {y = p});
        })
        (record {
          os = refl;
          open_flows = refl;
          fds = λ q. ground (arith, e, f, ap d.heap {x = q} {y = p});
        })

  -- An object that the map leads to is there.
  pub IsSound-alive :
      (a : FlowAddr) (p : ℕ)
      → find same_addr a flows ≡ some p
      → (d : Demux S) → IsSound limit whole flows d
      → d.heap p ≢ none
  IsSound-alive a p found d v = addr_alive a (d.heap p) ((v.map_valid.objects a p).0 found)

  -- The counters and what was put out are no part of the invariant.
  pub IsSound-counters :
      (i j k : ℕ) (es : List Event) (d : Demux S)
      → IsSound limit whole flows d
      → IsSound limit whole flows
          (record d { flow_counter = i; packet_counter = j; unique_id = k; events = es })
  IsSound-counters i j k es d v =
      IsSound-same d _ v
        (record {
          flow_map = refl;
          next_object = refl;
          saved_flow_map = refl;
          saved_flows = refl;
          addrs = λ q. refl;
        })
        (record { os = refl; open_flows = refl; fds = λ q. refl })

  pub Runs-emit-IsSound :
      (e : Event)
      → Runs {S = S} (IsSound limit whole flows) (emit e) (λ _. IsSound limit whole flows)
  Runs-emit-IsSound e =
      Runs-emit e (λ d v.
        IsSound-counters d.flow_counter d.packet_counter d.unique_id (d.events ++ e ∷ []) d v)

  -- The invariant holds, and the file of `p` is closed.
  pub record IsReady (p : ℕ) (d : Demux S) : Type 0 where
    pub sound : IsSound limit whole flows d
    pub closed : fd_of (d.heap p) ≡ none

  pub Runs-emit-IsReady : (p : ℕ) (e : Event) → Runs {S = S} (IsReady p) (emit e) (λ _. IsReady p)
  Runs-emit-IsReady p e = Runs-emit e (λ d v. record {
    sound =
        IsSound-counters d.flow_counter d.packet_counter d.unique_id (d.events ++ e ∷ []) d v.sound;
    closed = v.closed;
  })

-- A descriptor is open and no flow has it.
pub record IsSpare {S : Type 0} (fd : ℕ) (d : Demux S) : Type 0 where
  pub held : d.os.descs fd ≢ none
  pub spare : (q : ℕ) → fd_of (d.heap q) ≢ some fd

pub SameFlows-refl : {S : Type 0} (d : Demux S) → SameFlows d d
SameFlows-refl d = record {
  flow_map = refl;
  next_object = refl;
  saved_flow_map = refl;
  saved_flows = refl;
  addrs = λ q. refl;
}

pub SameFlows-store :
    {S : Type 0} (p : ℕ) (t t' : Tcpip S) (c d : Demux S)
    → d.heap p ≡ some t
    → t'.myflow.addr ≡ t.myflow.addr
    → SameFlows c d
    → SameFlows c (record d { heap = set_object p (some t') d.heap })
SameFlows-store p t t' c d e a v = record {
  flow_map = v.flow_map;
  next_object = v.next_object;
  saved_flow_map = v.saved_flow_map;
  saved_flows = v.saved_flows;
  addrs = λ q. ground (arith, e, a, ap d.heap {x = q} {y = p}, v.addrs q);
}

pub SameFlows-alive :
    {S : Type 0} (p : ℕ) (c d : Demux S) → c.heap p ≢ none → SameFlows c d → d.heap p ≢ none
SameFlows-alive p c d n s e = n (addr_of-none (c.heap p) (sym (s.addrs p) ∙ ap addr_of e))

pub erase_head :
    (a : FlowAddr) (p : ℕ) (m : List (FlowAddr × ℕ))
    → find same_addr a m ≡ none
    → erase same_addr a ((a, p) ∷ m) ≡ m
unfolding erase
erase_head a p m h = ground (arith, erase_absent same_addr a m h, same_addr_iff a a)

pub find_head :
    (a : FlowAddr) (p : ℕ) (m : List (FlowAddr × ℕ)) → find same_addr a ((a, p) ∷ m) ≡ some p
unfolding find
find_head a p m = ground (arith, same_addr_iff a a)
