-- ===== src/Demux/Files/Opening.antt =====
-- src/tcpdemux.cpp: the rounds of `retrying_open`.
use tcpflow.Base.{
  ℕ, zero, suc, ◌≤◌, ◌<◌, ◌≡◌, refl, sym, subst, ◌≢◌, inl, inr, Bool, arith, leb, Bool-cases,
}
use tcpflow.OpenFlows
use tcpflow.OpenFlows.{OpenFlows, nodes, is_linked}
use tcpflow.Demux.Os.{FilePath, Opened, opened, failed, emfile, eexist, eother, open_create}
use tcpflow.Demux.State.{when, M, Outcome, ◌>>◌, monad, Demux, Settings, done}
use tcpflow.Demux.Files.{fd_limit, try_open, close_oldest_fd, retrying_open, open_rounds}
use tcpflow.Demux.Files.Tried.{HasRoom, SameFiles, SameFiles-trans, Tried, try_open-Tried}
use tcpflow.Demux.Files.Closing.{OpenIsValid}
use tcpflow.Demux.Files.Freeing.{close_oldest_fd-Freed}

-- A result that is no failure for want of descriptors, with valid open flows.
abbrev Returned : {S : Type 0} → FilePath → Bool → Demux S → Outcome (Opened × Demux S) → Type 0
Returned {S = S} path excl c o =
    (r : Opened) × (d' : Demux S) × (o ≡ done (r, d'))
    × OpenIsValid d'
    × (r ≢ failed emfile)
    × Tried path excl c r d'

seq_done :
    {S B : Type 0} (m : M S (Unit {0})) (k : M S B) (d d' : Demux S)
    → m d ≡ done (tt, d')
    → (m >> k) d ≡ k d'
unfolding monad
seq_done m k d d' e = ground (arith, e)

module _ {S : Type 0} (cfg : Settings) where
  -- A call of `open` leaves the open flows valid, and lacks descriptors only at the limit.
  pub try_open-OpenIsValid :
      (path : FilePath) (excl : Bool) (d : Demux S)
      → OpenIsValid d
      → let (r, os') = open_create path excl d.os in
        (try_open path excl d ≡ done (r, record d { os = os' }))
        × OpenIsValid (record d { os = os' })
        × (r ≡ failed emfile → (os' ≡ d.os) × (d.os.limit ≤ d.os.used))
  unfolding try_open open_create
  try_open-OpenIsValid path excl d v = (
    refl,
    record {
      valid = v.valid;
      linked = v.linked;
      held = λ p fd e. ground (arith, v.held p fd e);
      apart = v.apart;
      fresh = λ k. ground (arith, v.fresh k);
    },
    ground arith,
  )

  -- What a round goes on with after its call of `open`.
  abbrev after_try : ℕ → FilePath → Bool → Opened → Demux S → Outcome (Opened × Demux S)
  after_try fuel path excl (opened fd) d = done (opened fd, d)
  after_try fuel path excl (failed eexist) d = done (failed eexist, d)
  after_try fuel path excl (failed eother) d = done (failed eother, d)
  after_try fuel path excl (failed emfile) d =
      (close_oldest_fd cfg >> retrying_open cfg fuel path excl) d

  retrying_open_round :
      (fuel : ℕ) (path : FilePath) (excl : Bool) (r : Opened) (d d' e : Demux S)
      → when (leb (fd_limit cfg) (OpenFlows.size d.open_flows)) (close_oldest_fd cfg) d
        ≡ done (tt, d')
      → try_open path excl d' ≡ done (r, e)
      → retrying_open cfg (suc fuel) path excl d ≡ after_try fuel path excl r e
  unfolding monad retrying_open
  retrying_open_round fuel path excl r d d' e h k = ground arith

  -- The first step of a round.
  make_room :
      (d : Demux S)
      → OpenIsValid d
      → HasRoom d
      → 0 < fd_limit cfg
      → (d' : Demux S) × (when
            (leb (fd_limit cfg) (OpenFlows.size d.open_flows))
            (close_oldest_fd cfg)
            d
          ≡ done (tt, d'))
        × OpenIsValid d'
        × HasRoom d'
        × SameFiles d d'
        × (OpenFlows.size d'.open_flows ≤ OpenFlows.size d.open_flows)
  unfolding when
  make_room d v room n = elim (Bool-cases (leb (fd_limit cfg) (OpenFlows.size d.open_flows))) [
    | inl full ↦
        let (d', r, f) = close_oldest_fd-Freed cfg d v (ground (arith, n)) in
        (
          d',
          rw full r,
          f.valid,
          (
            omega (arith, room.0, f.limit),
            ground (arith, room.0, room.1, f.limit, f.used, f.fewer),
          ),
          f.same,
          omega (arith, f.fewer),
        )
    | inr few ↦ (d, rw few refl, v, room, record { files = refl; refused = refl }, omega arith)
  ]

  after_try_returns :
      (fuel : ℕ) (path : FilePath) (excl : Bool) (r : Opened) (c d : Demux S)
      → OpenIsValid d
      → Tried path excl c r d
      → (r ≡ failed emfile → d.os.limit ≤ d.os.used)
      → ((d' : Demux S)
          → OpenIsValid d'
          → HasRoom d'
          → SameFiles c d'
          → OpenFlows.size d'.open_flows < OpenFlows.size d.open_flows
          → Returned path excl c (retrying_open cfg fuel path excl d'))
      → Returned path excl c (after_try fuel path excl r d)
  after_try_returns fuel path excl (opened fd) c d v t full next =
      (opened fd, d, refl, v, λ h. cc, t)
  after_try_returns fuel path excl (failed eexist) c d v t full next =
      (failed eexist, d, refl, v, λ h. cc, t)
  after_try_returns fuel path excl (failed eother) c d v t full next =
      (failed eother, d, refl, v, λ h. cc, t)
  after_try_returns fuel path excl (failed emfile) c d v (same, room, taken, refused) full next =
      let (d', e, f) = close_oldest_fd-Freed cfg d v (omega (arith, room.1, full refl)) in
      subst (Returned path excl c)
        (sym (seq_done (close_oldest_fd cfg) (retrying_open cfg fuel path excl) d d' e))
        (next d' f.valid
          (omega (arith, room.0, f.limit), ground (arith, room.0, room.1, f.limit, f.used, f.fewer))
          (SameFiles-trans c d d' same f.same) (omega (arith, f.fewer)))

  -- One round less than the fuel closes every open flow, so some round finds room.
  retrying_open_ends :
      (fuel : ℕ) (path : FilePath) (excl : Bool) (c d : Demux S)
      → OpenIsValid d
      → HasRoom d
      → SameFiles c d
      → 0 < fd_limit cfg
      → OpenFlows.size d.open_flows < fuel
      → Returned path excl c (retrying_open cfg fuel path excl d)
  retrying_open_ends zero path excl c d v room s n h = absurd (omega (arith, h))
  retrying_open_ends (suc fuel) path excl c d v room s n h =
      let (d', e, v', room', s', le) = make_room d v room n in
      let (r, os') = open_create path excl d'.os in
      let (run, w, limits) = try_open-OpenIsValid path excl d' v' in
      let tried = try_open-Tried path excl r c d' (SameFiles-trans c d d' s s') room' refl in
      subst (Returned path excl c)
        (sym (retrying_open_round fuel path excl r d d' (record d' { os = os' }) e run))
        (after_try_returns fuel path excl r c (record d' { os = os' }) w tried
          (λ q. ground (arith, limits q))
          (λ d'' v'' room'' s'' less.
            retrying_open_ends fuel path excl c d'' v'' room'' s'' n (omega (arith, less, le, h))))

  -- The same with what the result says of the files.
  pub retrying_open_tries :
      (path : FilePath) (excl : Bool) (d : Demux S)
      → OpenIsValid d
      → HasRoom d
      → 0 < fd_limit cfg
      → (r : Opened) × (d' : Demux S) × (retrying_open cfg (open_rounds d) path excl d
          ≡ done (r, d'))
        × OpenIsValid d'
        × (r ≢ failed emfile)
        × Tried path excl d r d'
  unfolding open_rounds
  retrying_open_tries path excl d v room n =
      retrying_open_ends (open_rounds d) path excl d d v room
        (record { files = refl; refused = refl }) n (omega arith)

  -- Opening a file always returns, and does not fail for want of descriptors: `retrying_open` closes
  -- open flows until there is room. Before, the open flows are valid, the descriptors that no flow
  -- holds are below the system's limit, and the limit of open flows is not zero.
  pub retrying_open_returns :
      (path : FilePath) (excl : Bool) (d : Demux S)
      → OpenIsValid d
      → HasRoom d
      → 0 < fd_limit cfg
      → (r : Opened) × (d' : Demux S) × (retrying_open cfg (open_rounds d) path excl d
          ≡ done (r, d'))
        × OpenIsValid d'
        × (r ≢ failed emfile)
  retrying_open_returns path excl d v room n =
      let (r, d', e, w, some_room, tried) = retrying_open_tries path excl d v room n in
      (r, d', e, w, some_room)
