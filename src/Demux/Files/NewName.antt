-- ===== src/Demux/Files/NewName.antt =====
-- src/flow.cpp: flow::new_filename finds a name.
use tcpflow.Base.{
  ℕ, zero, suc, ◌+◌, ◌<◌, ◌≡◌, refl, sym, ap, subst, ◌∙◌, ◌≢◌, true, false, none, some, arith,
  ℕ_discrete, length,
}
use tcpflow.Base.Maps.{find, find_count}
use tcpflow.Base.Word.{add32, u32}
use tcpflow.Flow.{Flow}
use tcpflow.Flow.Addr.{same_bytes}
use tcpflow.Filename.{filename, default_template}
use tcpflow.Filename.Counts.{default_name, filename-default_name, default_name_apart}
use tcpflow.Demux.Os.{FilePath, Opened, opened, failed, emfile, eexist, eother, file_bytes, path_eq}
use tcpflow.Demux.State.{Demux, Settings, Outcome, done, stopped, died, monad}
use tcpflow.Demux.Files.{retrying_open, new_filename, fd_limit, open_rounds, name_tries}
use tcpflow.Demux.Files.Closing.{OpenIsValid}
use tcpflow.Demux.Files.Tried.{HasRoom, SameFiles, SameFiles-trans, Tried}
use tcpflow.Demux.Files.Opening.{retrying_open_tries}

add32_one : (n : ℕ) → n + 1 < u32 → add32 n 1 ≡ n + 1
add32_one n h = omega (arith, h)

module _ {S : Type 0} (cfg : Settings) (f : Flow) (names : ℕ → FilePath) where
  -- The first of the names that no file of `c` has was opened.
  abbrev Named : Demux S → Outcome ((FilePath × ℕ) × Demux S) → Type 0
  Named c o =
      (n fd : ℕ) × (d' : Demux S) × (o ≡ done ((names n, fd), d'))
      × OpenIsValid d'
      × (file_bytes (names n) c.os ≡ none)
      × ((i : ℕ) → i < n → file_bytes (names i) c.os ≢ none)

  abbrev after_name : ℕ → ℕ → FilePath → Opened → Demux S → Outcome ((FilePath × ℕ) × Demux S)
  after_name fuel count name (opened fd) d = done ((name, fd), d)
  after_name fuel count name (failed eexist) d = new_filename cfg fuel (add32 count 1) f d
  after_name fuel count name (failed emfile) d = stopped died
  after_name fuel count name (failed eother) d = stopped died

  new_filename_round :
      (fuel count : ℕ) (name : FilePath) (r : Opened) (d d' : Demux S)
      → filename cfg.naming f count false ≡ some name
      → retrying_open cfg (open_rounds d) name true d ≡ done (r, d')
      → new_filename cfg (suc fuel) count f d ≡ after_name fuel count name r d'
  unfolding new_filename monad
  new_filename_round fuel count name r d d' h k = ground (arith, h, k)

  same_bytes_of :
      (path : FilePath) (c d : Demux S)
      → SameFiles c d
      → file_bytes path d.os ≡ file_bytes path c.os
  unfolding file_bytes
  same_bytes_of path c d s = ap (find same_bytes path) s.files

  after_name_ends :
      (fuel count : ℕ) (r : Opened) (c d d' : Demux S)
      → SameFiles c d
      → OpenIsValid d'
      → r ≢ failed emfile
      → Tried (names count) true d r d'
      → ((p : FilePath) → c.os.refused p ≡ false)
      → ((i : ℕ) → i < count → file_bytes (names i) c.os ≢ none)
      → (HasRoom d'
          → SameFiles c d'
          → ((i : ℕ) → i < count + 1 → file_bytes (names i) c.os ≢ none)
          → Named c (new_filename cfg fuel (add32 count 1) f d'))
      → Named c (after_name fuel count (names count) r d')
  after_name_ends fuel count (opened fd) c d d' s v n t refused taken next =
      (count, fd, d', refl, v, sym (same_bytes_of (names count) c d s) ∙ t refl, taken)
  after_name_ends fuel count (failed emfile) c d d' s v n t refused taken next = absurd (n refl)
  after_name_ends fuel count (failed eother) c d d' s v n t refused taken next =
      let x = t.3 refl in
      absurd (cc (sym x ∙ ap (λ g. g (names count)) s.refused ∙ refused (names count)))
  after_name_ends fuel count (failed eexist) c d d' s v n t refused taken next =
      next t.1 (SameFiles-trans c d d' s t.0) (λ i h e. elim (ℕ_discrete i count) [
        | yes same ↦
            t.2 refl (
              same_bytes_of (names count) c d s
              ∙ ap (λ k. file_bytes (names k) c.os) (sym same)
              ∙ e)
        | no other ↦ taken i (omega (arith, h, other)) e
      ])

  new_filename_ends :
      (fuel count : ℕ) (c d : Demux S)
      → OpenIsValid d
      → HasRoom d
      → SameFiles c d
      → 0 < fd_limit cfg
      → ((i : ℕ) → filename cfg.naming f i false ≡ some (names i))
      → ((i j : ℕ) → names i ≡ names j → i ≡ j)
      → ((p : FilePath) → c.os.refused p ≡ false)
      → ((i : ℕ) → i < count → file_bytes (names i) c.os ≢ none)
      → count + fuel ≡ suc (length c.os.files)
      → suc (length c.os.files) < u32
      → Named c (new_filename cfg fuel count f d)
  unfolding file_bytes
  new_filename_ends zero count c d v room s n named apart refused taken h few =
      absurd (omega (arith, h, find_count path_eq count names c.os.files apart taken))
  new_filename_ends (suc fuel) count c d v room s n named apart refused taken h few =
      let (r, d', e, w, no_emfile, tried) = retrying_open_tries cfg (names count) true d v room n in
      subst (Named c) (sym (new_filename_round fuel count (names count) r d d' (named count) e)) (
        after_name_ends fuel count r c d d' s w no_emfile tried refused taken (λ room' s' taken'.
          subst (λ k. Named c (new_filename cfg fuel k f d'))
            (sym (add32_one count (omega (arith, h, few))))
            (new_filename_ends fuel (count + 1) c d' w room' s' n named apart refused taken'
              (omega (arith, h)) few)))

-- With the default template, new_filename always returns, and with the first of the flow's names
-- that no file has: never that of a file that is there. Before, the open flows are valid, the
-- descriptors that no flow holds are below the system's limit, the limit of open flows is not zero,
-- the system refuses no path, and there are fewer files than connection counts.
pub new_filename_returns :
    {S : Type 0} (cfg : Settings) (f : Flow) (d : Demux S)
    → cfg.naming.template ≡ default_template
    → OpenIsValid d
    → HasRoom d
    → 0 < fd_limit cfg
    → ((p : FilePath) → d.os.refused p ≡ false)
    → suc (length d.os.files) < u32
    → (n fd : ℕ) × (d' : Demux S) × (new_filename cfg (name_tries d) 0 f d
        ≡ done ((default_name cfg.naming f n, fd), d'))
      × OpenIsValid d'
      × (file_bytes (default_name cfg.naming f n) d.os ≡ none)
      × ((i : ℕ) → i < n → file_bytes (default_name cfg.naming f i) d.os ≢ none)
new_filename_returns cfg f d template v room n refused few =
    new_filename_ends cfg f (default_name cfg.naming f) (name_tries d) 0 d d v room
      (record { files = refl; refused = refl }) n
      (λ i. filename-default_name cfg.naming f i template) (default_name_apart cfg.naming f) refused
      (λ i h. absurd (omega (arith, h))) (omega arith) few
