-- ===== src/Demux/Files.antt =====
-- src/tcpdemux.cpp and src/tcpip.cpp: opening and closing the transcript files within the limit of
-- descriptors.
pub mod Closing
pub mod Tried
pub mod Freeing
pub mod Opening
pub mod NewName
use tcpflow.Base.{
  ℕ, zero, suc, ◌+◌, ◌-◌, ◌*◌, ◌/◌, ◌%◌, ◌^◌, ◌≤◌, ◌<◌, min, max, ◌≡◌, refl, sym, ap, ap₂, subst,
  ◌∙◌, fun_ext, ◌≢◌, ◌↔◌, ◌⊎◌, inl, inr, Bool, true, false, not, ◌&&◌, ◌||◌, Option, none, some,
  List, [], ◌∷◌, ◌++◌, map, append_assoc, append-nil, arith, dec_lt, dec_le, ℕ_discrete, length,
  get_elem?, set, length-append, length-set, get_elem?-set_self, get_elem?-set_ne, get_or, take,
  drop, replicate, take-append-drop, length-take, length-drop, length-replicate, length-map, ltb,
  leb, ◌==◌, if◌then◌else◌, ltb→lt, lt→ltb, leb→le, ==_iff, tests, Bool-cases, Option-cases,
  if_either, All, All-map, All-append,
}
use tcpflow.Base.Word.{add32}
use tcpflow.Flow.{Flow}
use tcpflow.Tcpip.State.{Options, Tcpip}
use tcpflow.OpenFlows
use tcpflow.OpenFlows.{OpenFlows}
use tcpflow.Filename.{filename}
use tcpflow.Demux.Os.{
  Os, Errno, Opened, eexist, emfile, eother, opened, failed, FilePath, open_create, close, get_open,
  put_open,
}
use tcpflow.Demux.State.{
  Demux, Settings, M, Stop, died, undefined, out_of_fuel, Outcome, done, stopped, ◌>>=◌, ◌>>◌,
  return, stop, get_state, modify, when, emit, load, store,
}

-- The number of open flows at which one is closed: index files take descriptors too.
abbrev pub fd_limit : Settings → ℕ
fd_limit cfg = if cfg.opt.output_packet_index then cfg.max_fds / 2 else cfg.max_fds

module _ {S : Type 0} where
  unfoldable pub try_open : FilePath → Bool → M S Opened
  try_open path excl d =
      let (r, os') = open_create path excl d.os in done (r, record d { os = os' })

  -- A descriptor is freed in every round after the first, so the rounds end with the open flows.
  unfoldable pub open_rounds : Demux S → ℕ
  open_rounds d = OpenFlows.size d.open_flows + 2

  -- Each taken name is that of a file, so one more try than there are files is enough where the
  -- names differ.
  abbrev pub name_tries : Demux S → ℕ
  name_tries d = suc (length d.os.files)

module _ {S : Type 0} (cfg : Settings) where
  -- `tcpip::close_file`; the time stamps of the file are not modelled.
  unfoldable pub close_file : ℕ → M S (Unit {0})
  close_file p = do
    t ← load p
    elim t.fd [
      | none ↦ return tt
      | some fd ↦ do
        store p (record t { fd = none })
        modify (λ d. record d { os = close fd d.os; open_flows = OpenFlows.erase p d.open_flows })
    ]
    u ← load p
    when (cfg.opt.output_packet_index && u.idx_open) (store p (record u { idx_open = false }))

  -- `close_oldest_fd` reads the front of the list without a test.
  unfoldable pub close_oldest_fd : M S (Unit {0})
  close_oldest_fd = do
    d ← get_state
    elim (OpenFlows.front d.open_flows) [ none ↦ stop undefined | some p ↦ close_file p ]

  -- `retrying_open`: a round for each time that the system is out of descriptors.
  unfoldable pub retrying_open : ℕ → FilePath → Bool → M S Opened
  retrying_open zero path excl = stop out_of_fuel
  retrying_open (suc fuel) path excl = do
    d ← get_state
    when (leb (fd_limit cfg) (OpenFlows.size d.open_flows)) close_oldest_fd
    r ← try_open path excl
    elim r [
      | opened fd ↦ return (opened fd)
      | failed e ↦ elim e [
        | emfile ↦ do close_oldest_fd; retrying_open fuel path excl
        | eexist ↦ return (failed eexist)
        | eother ↦ return (failed eother)
      ]
    ]

  -- `flow::new_filename`: the connection count rises until a name is free. Any failure but EEXIST
  -- ends the program, as does a bad template.
  unfoldable pub new_filename : ℕ → ℕ → Flow → M S (FilePath × ℕ)
  new_filename zero count f = stop out_of_fuel
  new_filename (suc fuel) count f = elim (filename cfg.naming f count false) [
    | none ↦ stop died
    | some name ↦ do
      d ← get_state
      r ← retrying_open (open_rounds d) name true
      elim r [
        | opened fd ↦ return (name, fd)
        | failed e ↦ elim e [
          | eexist ↦ new_filename fuel (add32 count 1) f
          | emfile ↦ stop died
          | eother ↦ stop died
        ]
      ]
  ]

  -- The branches of `tcpip::open_file` for a closed flow: a first file, or the same one again.
  unfoldable pub open_transcript : ℕ → Tcpip S → M S Opened
  open_transcript p t = do
    d ← get_state
    if length t.flow_pathname == 0
        then (do
          (name, fd) ← new_filename (name_tries d) 0 t.myflow
          u ← load p
          store p (record u { flow_pathname = name; file_created = true; index = []; fd = some fd })
          return (opened fd))
        else (do
          r ← retrying_open (open_rounds d) t.flow_pathname false
          elim r [
            | failed e ↦ return (failed e)
            | opened fd ↦ do
              u ← load p
              modify (λ d. elim (get_open fd d.os) [
                | none ↦ d
                | some o ↦ record d { os = put_open fd (record o { offset = t.pos }) d.os }
              ])
              store p (record u { fd = some fd })
              return (opened fd)
          ])

  -- `tcpip::open_file`: whether the transcript is open. A failed open of the index file leaves
  -- `bad()` false, so it is not seen.
  unfoldable pub open_file : ℕ → M S Bool
  open_file p = do
    t ← load p
    ok ← elim t.fd [
      | some fd ↦ return true
      | none ↦ do
        r ← open_transcript p t
        elim r [
          | failed e ↦ return false
          | opened fd ↦ do
            modify (λ d.
                let l = OpenFlows.push_back p d.open_flows in
                record d {
                  open_flows = l;
                  max_open_flows =
                      if ltb d.max_open_flows (OpenFlows.size l)
                      then OpenFlows.size l
                      else d.max_open_flows;
                })
            return true
        ]
    ]
    u ← load p
    when (ok && cfg.opt.output_packet_index) (store p (record u { idx_open = true }))
    return ok
