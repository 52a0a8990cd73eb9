-- ===== src/Demux/Os.antt =====
-- The system calls on files as POSIX documents them: files by name, open descriptions by descriptor.
-- A call that reaches the limit of descriptors fails with EMFILE; `refused` are the names that
-- cannot be opened for another reason. Writes to a regular file are complete.
use tcpflow.Base.{ℕ, ◌+◌, ◌-◌, Bool, Option, none, some, List, [], leb, ◌==◌, if◌then◌else◌}
use tcpflow.Base.Maps.{Eq, find, insert}
use tcpflow.Flow.Addr.{same_bytes, same_bytes_iff}
use tcpflow.Tcpip.File.{OpenFile}

abbrev pub FilePath : Type 0
FilePath = List ℕ

pub record Desc : Type 0 where
  pub name : FilePath
  pub offset : ℕ

pub record Os : Type 0 where
  pub files : List (FilePath × List ℕ)
  pub descs : ℕ → Option Desc
  pub used : ℕ
  pub limit : ℕ
  pub next_fd : ℕ
  pub refused : FilePath → Bool

pub data Errno : Type 0 where
  eexist emfile eother : Errno

pub data Opened : Type 0 where
  opened : ℕ → Opened
  failed : Errno → Opened

abbrev pub path_eq : Eq FilePath
path_eq = record { beq = same_bytes; beq_iff = same_bytes_iff }

unfoldable pub file_bytes : FilePath → Os → Option (List ℕ)
file_bytes p os = find same_bytes p os.files

abbrev pub set_desc : ℕ → Option Desc → (ℕ → Option Desc) → ℕ → Option Desc
set_desc fd d f k = if k == fd then d else f k

-- `open` with O_CREAT, and with O_EXCL if `excl`.
unfoldable pub open_create : FilePath → (excl : Bool) → Os → Opened × Os
unfolding file_bytes
open_create p excl os =
    let fresh = record os {
      descs = set_desc os.next_fd (some (record { name = p; offset = 0 })) os.descs;
      used = os.used + 1;
      next_fd = os.next_fd + 1;
    } in
    if leb os.limit os.used
    then (failed emfile, os)
    else if os.refused p
    then (failed eother, os)
    else elim (file_bytes p os) [
      | none ↦ (opened os.next_fd, record fresh { files = insert same_bytes p [] os.files })
      | some b ↦ if excl then (failed eexist, os) else (opened os.next_fd, fresh)
    ]

unfoldable pub close : ℕ → Os → Os
close fd os = elim (os.descs fd) [
  | none ↦ os
  | some d ↦ record os { descs = set_desc fd none os.descs; used = os.used - 1 }
]

-- The open description behind a descriptor, and its return after reads, seeks and writes.
unfoldable pub get_open : ℕ → Os → Option OpenFile
unfolding file_bytes
get_open fd os = elim (os.descs fd) [
  | none ↦ none
  | some d ↦ elim (file_bytes d.name os) [
    | none ↦ none
    | some b ↦ some (record { bytes = b; offset = d.offset })
  ]
]

unfoldable pub put_open : ℕ → OpenFile → Os → Os
put_open fd o os = elim (os.descs fd) [
  | none ↦ os
  | some d ↦ record os {
    files = insert same_bytes d.name o.bytes os.files;
    descs = set_desc fd (some (record d { offset = o.offset })) os.descs;
  }
]
