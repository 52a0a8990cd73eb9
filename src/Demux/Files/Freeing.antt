-- ===== src/Demux/Files/Freeing.antt =====
-- src/tcpdemux.cpp: tcpdemux::close_oldest_fd frees a descriptor.
use tcpflow.Base.{
  ℕ, ◌+◌, ◌-◌, ◌<◌, ◌≡◌, refl, sym, ap, ◌∙◌, ◌≢◌, inl, inr, true, not, Option, none, some, List, [],
  ◌∷◌, arith, length, Option-cases,
}
use tcpflow.OpenFlows
use tcpflow.OpenFlows.{OpenFlows, nodes, is_linked}
use tcpflow.OpenFlows.Laws.{IsValid, Cells, nodes-erase, length-remove, erase-IsValid}
use tcpflow.Tcpip.State.{Tcpip}
use tcpflow.Demux.Os.{Os, close}
use tcpflow.Demux.State.{M, undefined, stop, is_none, monad, Demux, Settings, done}
use tcpflow.Demux.Files.{close_file, close_oldest_fd}
use tcpflow.Demux.Files.Tried.{SameFiles, files-close}
use tcpflow.Demux.Files.Closing.{OpenIsValid, fd_of, close_file-Closed, Closed-OpenIsValid}

Cells-front :
    (it : ℕ → Option ℕ) (li : List (ℕ × ℕ))
    → Cells it li
    → 0 < length (nodes li)
    → (p : ℕ) × (elim li [ [] ↦ none | (c, n) ∷ rest ↦ some n ] ≡ some p) × (it p ≢ none)
Cells-front it [] v h = absurd (omega (arith, h))
Cells-front it ((c, n) ∷ li) v h = (n, refl, ground (arith, v.0))

-- A list that is not empty has a linked flow at its front.
front-linked :
    (l : OpenFlows)
    → IsValid l
    → 0 < OpenFlows.size l
    → (p : ℕ) × (OpenFlows.front l ≡ some p) × (is_linked p l ≡ true)
unfolding OpenFlows.front OpenFlows.size is_linked
front-linked l v h =
    let (p, e, n) = Cells-front l.it l.li v.cells (omega (arith, v.counted, h)) in
    (p, e, ground arith)

size-erase :
    (p : ℕ) (l : OpenFlows)
    → IsValid l
    → is_linked p l ≡ true
    → OpenFlows.size (OpenFlows.erase p l) + 1 ≡ OpenFlows.size l
unfolding OpenFlows.size is_linked
size-erase p l v h = ground (
  arith,
  v.counted,
  (erase-IsValid p l v).counted,
  ap length (nodes-erase p l v),
  length-remove p (nodes l.li),
  v.once p,
)

-- `d'` is `d` after one open flow was closed.
pub record Freed {S : Type 0} (d d' : Demux S) : Type 0 where
  pub valid : OpenIsValid d'
  pub fewer : OpenFlows.size d'.open_flows + 1 ≡ OpenFlows.size d.open_flows
  pub used : d'.os.used ≡ d.os.used - 1
  pub limit : d'.os.limit ≡ d.os.limit
  pub same : SameFiles d d'

fd_object :
    {S : Type 0} (o : Option (Tcpip S))
    → not (is_none (fd_of o)) ≡ true
    → (t : Tcpip S) × (fd : ℕ) × (o ≡ some t) × (t.fd ≡ some fd)
fd_object none h = absurd cc
fd_object (some t) h = elim (Option-cases t.fd) [
  | inl e ↦ absurd (ground arith)
  | inr (fd, e) ↦ (t, fd, refl, e)
]

used-close :
    (fd : ℕ) (os : Os)
    → os.descs fd ≢ none
    → ((close fd os).used ≡ os.used - 1) × ((close fd os).limit ≡ os.limit)
unfolding close
used-close fd os h = ground arith

module _ {S : Type 0} (cfg : Settings) where
  abbrev front_file : Option ℕ → M S (Unit {0})
  front_file o = elim o [ none ↦ stop undefined | some p ↦ close_file cfg p ]

  close_oldest_fd-front :
      (d : Demux S) (p : ℕ)
      → OpenFlows.front d.open_flows ≡ some p
      → close_oldest_fd cfg d ≡ close_file cfg p d
  unfolding close_oldest_fd monad
  close_oldest_fd-front d p e = ap (λ o. front_file o d) e

  pub close_oldest_fd-Freed :
      (d : Demux S)
      → OpenIsValid d
      → 0 < OpenFlows.size d.open_flows
      → (d' : Demux S) × (close_oldest_fd cfg d ≡ done (tt, d')) × Freed d d'
  close_oldest_fd-Freed d v h =
      let (p, front, l) = front-linked d.open_flows v.valid h in
      let (t, fd, e, o) = fd_object (d.heap p) (sym (v.linked p) ∙ l) in
      let (d', r, c) = close_file-Closed cfg p fd d t e o in
      let own = ap fd_of e ∙ o in
      let u = used-close fd d.os (v.held p fd own) in
      (
        d',
        close_oldest_fd-front d p front ∙ r,
        record {
          valid = Closed-OpenIsValid p fd d d' c v own;
          fewer = rw c.open_flows (size-erase p d.open_flows v.valid l);
          used = rw c.os u.0;
          limit = rw c.os u.1;
          same = record {
            files = rw c.os (files-close fd d.os).0;
            refused = rw c.os (files-close fd d.os).1;
          };
        },
      )
