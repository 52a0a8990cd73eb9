-- ===== src/Http/Complete.antt =====
-- src/scan_http.cpp: `on_message_complete`, which closes the file of a body and starts afresh.
use tcpflow.Base.{
  ℕ, zero, suc, ◌+◌, ◌≤◌, ◌<◌, ◌≡◌, ◌≢◌, false, ◌&&◌, none, some, [], ◌∷◌, ◌++◌, arith, length, ltb,
  leb, if◌then◌else◌,
}
use tcpflow.Base.Maps.{erase}
use tcpflow.Flow.Addr.{same_bytes, same_bytes_iff}
use tcpflow.Base.Maps
use tcpflow.Demux.Os.{path_eq, file_bytes, Os, FilePath, close}
use tcpflow.Http.{HttpSettings, nothing, alert_close, command, filesize, Cbo}

-- `unlink`.
unfoldable pub unlink : FilePath → Os → Os
unlink path os = record os { files = erase same_bytes path os.files }

-- The loop that waits for children until there are fewer than the limit.
unfoldable pub wait_below : (limit subprocs : ℕ) → ℕ
wait_below limit zero = zero
wait_below limit (suc n) =
    let rest = wait_below limit n in if leb limit (suc n) then rest else suc n

wait_below-lt : (limit subprocs : ℕ) → 0 < limit → wait_below limit subprocs < limit
unfolding wait_below
wait_below-lt limit zero h = h
wait_below-lt limit (suc n) h = ground (arith, wait_below-lt limit n h)

module _ {Z : Type 0} where
  unfoldable pub close_body : Cbo Z → Os → Os
  unfolding close
  close_body c os = elim c.fd [ none ↦ os | some fd ↦ close fd os ]

  -- The report, the alert and the command for an object that is not empty.
  unfoldable pub announce : HttpSettings → Cbo Z → Cbo Z
  unfolding wait_below
  announce http c =
      let c1 =
        if http.has_xmlstream
        then record c { xml = c.xml ++ c.xml_fo ++ filesize c.bytes_written ∷ [] }
        else c in
      let c2 =
        if http.has_alert_fd
        then record c1 { events = c1.events ++ alert_close c.output_path ∷ [] }
        else c1 in
      if http.has_command && ltb 0 (length c.output_path)
      then record c2 {
        subprocs = wait_below http.subproc_max c2.subprocs + 1;
        events = c2.events ++ command c.output_path ∷ [];
      }
      else c2

  -- The state for the next message.
  unfoldable pub start_afresh : Cbo Z → Cbo Z
  start_afresh c = record c {
    headers = [];
    header_field = [];
    header_value = [];
    last_on_header = nothing;
    fd = none;
    xml_fo = [];
    output_path = [];
    bytes_written = 0;
    unzip = false;
    zs = none;
    zfail = false;
  }

  unfoldable pub on_message_complete : HttpSettings → Cbo Z → Os → Cbo Z × Os
  unfolding close_body announce start_afresh unlink
  on_message_complete http c os =
      let os' = close_body c os in
      if ltb 0 c.bytes_written
      then (start_afresh (announce http c), os')
      else if ltb 0 (length c.output_path)
      then (start_afresh c, unlink c.output_path os')
      else (start_afresh c, os')

  -- The end of a message leaves nothing for a second one to do: the destructor, which calls
  -- `on_message_complete` once more, changes neither the object nor the files.
  pub on_message_complete_again :
      (http : HttpSettings) (c : Cbo Z) (os : Os)
      → let (c', os') = on_message_complete http c os in on_message_complete http c' os' ≡ (c', os')
  unfolding on_message_complete
  on_message_complete_again http c os = ground arith

  -- However many messages end, no more commands than the limit run at once, if it is not zero.
  pub announce-subprocs-le :
      (http : HttpSettings) (c : Cbo Z)
      → 0 < http.subproc_max
      → c.subprocs ≤ http.subproc_max
      → (announce http c).subprocs ≤ http.subproc_max
  unfolding announce
  announce-subprocs-le http c h k = ground (arith, wait_below-lt http.subproc_max c.subprocs h)

  -- The end of a message without a body leaves no file of its name; with one, it leaves all files
  -- as they are.
  pub on_message_complete_files :
      (http : HttpSettings) (c : Cbo Z) (os : Os)
      → length c.output_path ≢ 0
      → let os' = (on_message_complete http c os).1 in
        (c.bytes_written ≡ 0 → file_bytes c.output_path os' ≡ none)
        × (0 < c.bytes_written → os'.files ≡ os.files)
  unfolding on_message_complete file_bytes
  on_message_complete_files http c os h =
      let os' = close_body c os in
      (
        λ e. ground (
          arith,
          Maps.find-erase path_eq c.output_path c.output_path os'.files,
          same_bytes_iff c.output_path c.output_path,
        ),
        λ e. ground arith,
      )
