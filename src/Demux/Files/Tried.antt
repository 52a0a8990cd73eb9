-- ===== src/Demux/Files/Tried.antt =====
-- src/tcpdemux.cpp: what a call of `open` in `retrying_open` says of the files.
use tcpflow.Base.{ℕ, ◌+◌, ◌<◌, ◌≡◌, sym, ap, subst, ◌∙◌, ◌≢◌, Bool, true, none, arith}
use tcpflow.Base.Maps.{find}
use tcpflow.Flow.Addr.{same_bytes}
use tcpflow.OpenFlows
use tcpflow.Demux.Os.{
  FilePath, Os, Errno, Opened, opened, failed, eexist, eother, close, open_create, file_bytes,
}
use tcpflow.Demux.State.{Demux}

-- Descriptors that no flow holds stay below the limit.
abbrev pub HasRoom : {S : Type 0} → Demux S → Type 0
HasRoom d = (0 < d.os.limit) × (d.os.used < d.os.limit + OpenFlows.size d.open_flows)

-- The same files are there, and the same are refused.
pub record SameFiles {S : Type 0} (d d' : Demux S) : Type 0 where
  pub files : d'.os.files ≡ d.os.files
  pub refused : d'.os.refused ≡ d.os.refused

pub SameFiles-trans : {S : Type 0} (c d e : Demux S) → SameFiles c d → SameFiles d e → SameFiles c e
SameFiles-trans c d e f g = record { files = g.files ∙ f.files; refused = g.refused ∙ f.refused }

pub files-close :
    (fd : ℕ) (os : Os) → ((close fd os).files ≡ os.files) × ((close fd os).refused ≡ os.refused)
unfolding close
files-close fd os = ground arith

-- What a result of `open` says of the files before it, and what a failure leaves.
abbrev pub Tried : {S : Type 0} → FilePath → Bool → Demux S → Opened → Demux S → Type 0
Tried path excl c (opened fd) d = excl ≡ true → file_bytes path c.os ≡ none
Tried path excl c (failed e) d =
    SameFiles c d
    × HasRoom d
    × (e ≡ eexist → file_bytes path c.os ≢ none)
    × (e ≡ eother → c.os.refused path ≡ true)

open_create_opened :
    (path : FilePath) (excl : Bool) (fd : ℕ) (os : Os)
    → (open_create path excl os).0 ≡ opened fd
    → excl ≡ true
    → file_bytes path os ≡ none
unfolding open_create
open_create_opened path excl fd os e x = ground (arith, e, x)

open_create_failed :
    (path : FilePath) (excl : Bool) (e : Errno) (os : Os)
    → (open_create path excl os).0 ≡ failed e
    → ((open_create path excl os).1 ≡ os)
      × (e ≡ eexist → file_bytes path os ≢ none)
      × (e ≡ eother → os.refused path ≡ true)
unfolding open_create
open_create_failed path excl e os h = (ground (arith, h), ground (arith, h), ground (arith, h))

pub try_open-Tried :
    {S : Type 0} (path : FilePath) (excl : Bool) (r : Opened) (c d : Demux S)
    → SameFiles c d
    → HasRoom d
    → (open_create path excl d.os).0 ≡ r
    → Tried path excl c r (record d { os = (open_create path excl d.os).1 })
unfolding file_bytes
try_open-Tried path excl (opened fd) c d s room h =
    λ x. ap (find same_bytes path) (sym s.files) ∙ open_create_opened path excl fd d.os h x
try_open-Tried path excl (failed e) c d s room h =
    let (same, taken, refused) = open_create_failed path excl e d.os h in
    (
      record {
        files = ap (λ (os : Os). os.files) same ∙ s.files;
        refused = ap (λ (os : Os). os.refused) same ∙ s.refused;
      },
      subst (λ os. HasRoom (record d { os = os })) (sym same) room,
      λ q n. taken q (ap (find same_bytes path) s.files ∙ n),
      λ q. ap (λ f. f path) (sym s.refused) ∙ refused q,
    )
