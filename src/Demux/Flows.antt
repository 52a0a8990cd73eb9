-- ===== src/Demux/Flows.antt =====
-- src/tcpdemux.cpp: the map of flows, the flows that are saved, and the end of a flow.
pub mod Saved
use tcpflow.Base.{
  ℕ, zero, suc, ◌+◌, ◌-◌, ◌*◌, ◌/◌, ◌%◌, ◌^◌, ◌≤◌, ◌<◌, min, max, ◌≡◌, refl, sym, ap, ap₂, subst,
  ◌∙◌, fun_ext, ◌≢◌, ◌↔◌, ◌⊎◌, inl, inr, Bool, true, false, not, ◌&&◌, ◌||◌, Option, none, some,
  List, [], ◌∷◌, ◌++◌, map, append_assoc, append-nil, arith, dec_lt, dec_le, ℕ_discrete, length,
  get_elem?, set, length-append, length-set, get_elem?-set_self, get_elem?-set_ne, get_or, take,
  drop, replicate, take-append-drop, length-take, length-drop, length-replicate, length-map, ltb,
  leb, ◌==◌, if◌then◌else◌, ltb→lt, lt→ltb, leb→le, ==_iff, tests, Bool-cases, Option-cases,
  if_either, All, All-map, All-append,
}
use tcpflow.Base.Maps.{find, insert, erase}
use tcpflow.Base.Word.{u32, u64, add32, add64}
use tcpflow.Flow.{Flow, FlowAddr, same_addr, PacketInfo, new_flow}
use tcpflow.Tcpip.State.{Options, ReconSet, Tcpip, new_tcpip}
use tcpflow.OpenFlows
use tcpflow.Demux.Os.{Os, file_bytes}
use tcpflow.Demux.State.{
  aborted, Demux, Settings, SavedFlow, Event, report, alert_close, command, scanned, M, Stop,
  undefined, Outcome, done, stopped, ◌>>=◌, ◌>>◌, return, stop, get_state, modify, when, emit, load,
  store, set_object,
}
use tcpflow.Demux.Files.{close_file, open_file}

-- `find_tcpip`; a null pointer is `none`.
unfoldable pub find_tcpip : {S : Type 0} → FlowAddr → Demux S → Option ℕ
find_tcpip a d = find same_addr a d.flow_map

-- `save_flow`: the oldest saved flow goes when there are more than `max_saved_flows`.
unfoldable pub drop_oldest : {S : Type 0} → ℕ → Demux S → Demux S
drop_oldest limit d = elim d.saved_flows [
  | [] ↦ d
  | f ∷ rest ↦
      if ltb limit (length d.saved_flows)
      then record d { saved_flow_map = erase same_addr f.addr d.saved_flow_map; saved_flows = rest }
      else d
]

unfoldable pub save_flow : {S : Type 0} → ℕ → Tcpip S → Demux S → Demux S
save_flow limit t d =
    let sf : SavedFlow = record {
      addr = t.myflow.addr;
      saved_filename = t.flow_pathname;
      isn = t.isn;
    } in
    let e = drop_oldest limit d in
    record e {
      saved_flow_map = insert same_addr sf.addr sf e.saved_flow_map;
      saved_flows = e.saved_flows ++ sf ∷ [];
    }

module _ {S : Type 0} (R : ReconSet S) (cfg : Settings) where
  -- `create_tcpip`: the object is reset in the list of open flows, and is not linked.
  unfoldable pub create_tcpip : FlowAddr → ℕ → PacketInfo → M S ℕ
  create_tcpip a isn pi d =
      let p = d.next_object in
      let t = record (new_tcpip R (new_flow a d.flow_counter pi) isn) { nsn = add32 isn 1 } in
      done (
        p,
        record d {
          flow_counter = add64 d.flow_counter 1;
          next_object = p + 1;
          heap = set_object p (some t) d.heap;
          flow_map = insert same_addr a p d.flow_map;
          open_flows = OpenFlows.reset p d.open_flows;
        },
      )

module _ {S : Type 0} (cfg : Settings) where
  -- The scanners read the whole transcript, if it was created and holds more than a byte.
  unfoldable pub scan_transcript : ℕ → M S (Unit {0})
  scan_transcript p = do
    t ← load p
    when (cfg.opt.post_processing && (t.file_created && ltb 0 t.last_byte)) (do
      ok ← open_file cfg p
      u ← load p
      d ← get_state
      elim u.fd [
        | none ↦ return tt
        | some fd ↦ elim (file_bytes u.flow_pathname d.os) [
          | none ↦ return tt
          | some b ↦ emit (scanned b)
        ]
      ])

  -- `post_process`. The destructor asserts that the file is closed. The limit on subprocesses that
  -- run the command is not modelled.
  unfoldable pub post_process : ℕ → M S (Unit {0})
  post_process p = do
    scan_transcript p
    close_file cfg p
    t ← load p
    when cfg.has_xreport (emit (report t.flow_pathname t.last_byte t.myflow))
    modify (save_flow cfg.max_saved_flows t)
    when (cfg.opt.store_output && cfg.has_alert_fd) (emit (alert_close t.flow_pathname))
    when (cfg.has_command && ltb 0 (length t.flow_pathname)) (emit (command t.flow_pathname))
    elim t.fd [
      | some fd ↦ stop aborted
      | none ↦ modify (λ d. record d { heap = set_object p none d.heap })
    ]

  unfoldable pub remove_flow : FlowAddr → M S (Unit {0})
  remove_flow a = do
    d ← get_state
    elim (find_tcpip a d) [
      | none ↦ return tt
      | some p ↦ do
        post_process p
        modify (λ d. record d { flow_map = erase same_addr a d.flow_map })
    ]

  unfoldable pub post_process_all : List (FlowAddr × ℕ) → M S (Unit {0})
  post_process_all [] = return tt
  post_process_all ((a, p) ∷ m) = do post_process p; post_process_all m

  -- The cache of `dissect_tcp` is not part of this state.
  unfoldable pub remove_all_flows : M S (Unit {0})
  remove_all_flows = do
    d ← get_state
    post_process_all d.flow_map
    modify (λ d. record d { flow_map = [] })
