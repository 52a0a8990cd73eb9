-- ===== src/Demux/Rules.antt =====
-- Rules for the methods of src/tcpdemux.cpp: what holds after a method that returns.
use tcpflow.Base.{
  ℕ, ◌≡◌, refl, ◌≢◌, Bool, true, false, Option, none, some, [], ◌∷◌, ◌++◌, if◌then◌else◌,
}
use tcpflow.Tcpip.State.{Tcpip}
use tcpflow.Demux.Os.{Errno, Opened, eexist, emfile, eother, opened, failed}
use tcpflow.Demux.State.{
  died, aborted, undefined, dangling, out_of_fuel, Demux, Event, M, Stop, Outcome, done, stopped,
  ◌>>=◌, ◌>>◌, return, stop, get_state, modify, when, emit, load, store, set_object, monad,
}

-- A stop that is neither a failed assertion nor an access to a deleted object.
abbrev pub IsSafe : Stop → Type 0
IsSafe died = Unit {0}
IsSafe undefined = Unit {0}
IsSafe out_of_fuel = Unit {0}
IsSafe aborted = ⊥
IsSafe dangling = ⊥

-- A result with `Q`, or a safe stop.
abbrev pub Ensures : {S A : Type 0} → Outcome (A × Demux S) → (A → Demux S → Type 0) → Type 0
Ensures (stopped s) Q = IsSafe s
Ensures (done (a, d)) Q = Q a d

-- From a state with `P`, a run of `m` returns with `Q` or stops safely.
pub record Runs {S A : Type 0} (P : Demux S → Type 0) (m : M S A) (Q : A → Demux S → Type 0)
    : Type 0 where
  pub at : (d : Demux S) → P d → Ensures (m d) Q

Ensures-ensure :
    {S A : Type 0} (Q Q' : A → Demux S → Type 0) (o : Outcome (A × Demux S))
    → ((a : A) (d : Demux S) → Q a d → Q' a d)
    → Ensures o Q
    → Ensures o Q'
Ensures-ensure Q Q' (stopped s) h k = k
Ensures-ensure Q Q' (done (a, d)) h k = h a d k

Ensures-then :
    {S A B : Type 0} (R : A → Demux S → Type 0) (Q : B → Demux S → Type 0)
    (o : Outcome (A × Demux S)) (f : A → M S B)
    → Ensures o R
    → ((a : A) → Runs (R a) (f a) Q)
    → Ensures (elim o [ stopped s ↦ stopped s | done (a, d) ↦ f a d ]) Q
Ensures-then R Q (stopped s) f h k = h
Ensures-then R Q (done (a, d)) f h k = (k a).at d h

Ensures-load :
    {S A : Type 0} (Q : A → Demux S → Type 0) (d : Demux S) (o : Option (Tcpip S))
    (f : Tcpip S → M S A)
    → o ≢ none
    → ((t : Tcpip S) → o ≡ some t → Ensures (f t d) Q)
    → Ensures
        (elim (elim o as (λ _. Outcome (Tcpip S × Demux S)) [
          | none ↦ stopped dangling
          | some t ↦ done (t, d)
        ]) [ stopped s ↦ stopped s | done (t, d') ↦ f t d' ])
        Q
Ensures-load Q d none f n h = absurd (n refl)
Ensures-load Q d (some t) f n h = h t refl

module _ {S A : Type 0} {P : Demux S → Type 0} {Q : A → Demux S → Type 0} where
  pub Runs-return : (a : A) → ((d : Demux S) → P d → Q a d) → Runs P (return a) Q
  unfolding monad
  Runs-return a h = record { at = h }

  pub Runs-stop : (s : Stop) → IsSafe s → Runs P (stop s) Q
  unfolding monad
  Runs-stop s h = record { at = λ d p. h }

  pub Runs-weaken :
      (P' : Demux S → Type 0) (m : M S A) → ((d : Demux S) → P d → P' d) → Runs P' m Q → Runs P m Q
  Runs-weaken P' m h r = record { at = λ d p. r.at d (h d p) }

  pub Runs-ensure :
      (Q' : A → Demux S → Type 0) (m : M S A)
      → ((a : A) (d : Demux S) → Q' a d → Q a d)
      → Runs P m Q'
      → Runs P m Q
  Runs-ensure Q' m h r = record { at = λ d p. Ensures-ensure Q' Q (m d) h (r.at d p) }

  -- What the first state shows is known.
  pub Runs-fact :
      (X : Type 0) (m : M S A) → ((d : Demux S) → P d → X) → (X → Runs P m Q) → Runs P m Q
  Runs-fact X m h r = record { at = λ d p. (r (h d p)).at d p }

  pub Runs-opened :
      (r : Opened) (f : ℕ → M S A) (g : Errno → M S A)
      → ((fd : ℕ) → r ≡ opened fd → Runs P (f fd) Q)
      → ((e : Errno) → r ≡ failed e → Runs P (g e) Q)
      → Runs P (elim r [ opened fd ↦ f fd | failed e ↦ g e ]) Q
  Runs-opened (opened fd) f g h k = h fd refl
  Runs-opened (failed e) f g h k = k e refl

  pub Runs-errno :
      (e : Errno) (k l m : M S A)
      → Runs P k Q
      → Runs P l Q
      → Runs P m Q
      → Runs P (elim e [ eexist ↦ k | emfile ↦ l | eother ↦ m ]) Q
  Runs-errno eexist k l m x y z = x
  Runs-errno emfile k l m x y z = y
  Runs-errno eother k l m x y z = z

  pub Runs-if : (b : Bool) (m n : M S A) → Runs P m Q → Runs P n Q → Runs P (if b then m else n) Q
  Runs-if true m n h k = h
  Runs-if false m n h k = k

  pub Runs-option :
      {B : Type 0} (o : Option B) (m : M S A) (f : B → M S A)
      → (o ≡ none → Runs P m Q)
      → ((b : B) → o ≡ some b → Runs P (f b) Q)
      → Runs P (elim o [ none ↦ m | some b ↦ f b ]) Q
  Runs-option none m f h k = h refl
  Runs-option (some b) m f h k = k b refl

  pub Runs-outcome :
      {B : Type 0} (o : Outcome B) (m : Stop → M S A) (f : B → M S A)
      → ((s : Stop) → o ≡ stopped s → Runs P (m s) Q)
      → ((b : B) → Runs P (f b) Q)
      → Runs P (elim o [ stopped s ↦ m s | done b ↦ f b ]) Q
  Runs-outcome (stopped s) m f h k = h s refl
  Runs-outcome (done b) m f h k = k b

  pub Runs-bind :
      {B : Type 0} (R : B → Demux S → Type 0) (m : M S B) (f : B → M S A)
      → Runs P m R
      → ((b : B) → Runs (R b) (f b) Q)
      → Runs P (m >>= f) Q
  unfolding monad
  Runs-bind R m f h k = record { at = λ d p. Ensures-then R Q (m d) f (h.at d p) k }

  pub Runs-then :
      (R : Demux S → Type 0) (m : M S (Unit {0})) (k : M S A)
      → Runs P m (λ _. R)
      → Runs R k Q
      → Runs P (m >> k) Q
  unfolding monad
  Runs-then R m k h r = record {
    at = λ d p. Ensures-then (λ _. R) Q (m d) (λ _. k) (h.at d p) (λ _. r);
  }

  -- The state is read, and known from there on.
  pub Runs-get :
      (f : Demux S → M S A)
      → ((s : Demux S) → P s → Runs (λ d. d ≡ s) (f s) Q)
      → Runs P (get_state >>= f) Q
  unfolding monad
  Runs-get f h = record { at = λ d p. (h d p).at d refl }

  -- An object is read that is there.
  pub Runs-load :
      (p : ℕ) (f : Tcpip S → M S A)
      → ((d : Demux S) → P d → d.heap p ≢ none)
      → ((t : Tcpip S) → Runs (λ d. (d.heap p ≡ some t) × P d) (f t) Q)
      → Runs P (load p >>= f) Q
  unfolding monad
  Runs-load p f n h = record {
    at = λ d v. Ensures-load Q d (d.heap p) f (n d v) (λ t e. (h t).at d (e, v));
  }

module _ {S : Type 0} {P Q : Demux S → Type 0} where
  pub Runs-modify :
      (f : Demux S → Demux S) → ((d : Demux S) → P d → Q (f d)) → Runs P (modify f) (λ _. Q)
  unfolding monad
  Runs-modify f h = record { at = h }

  pub Runs-emit :
      (e : Event)
      → ((d : Demux S) → P d → Q (record d { events = d.events ++ e ∷ [] }))
      → Runs P (emit e) (λ _. Q)
  unfolding monad
  Runs-emit e h = record { at = h }

  pub Runs-store :
      (p : ℕ) (t : Tcpip S)
      → ((d : Demux S) → P d → Q (record d { heap = set_object p (some t) d.heap }))
      → Runs P (store p t) (λ _. Q)
  unfolding monad
  Runs-store p t h = record { at = h }

  pub Runs-when :
      (b : Bool) (m : M S (Unit {0}))
      → (b ≡ true → Runs P m (λ _. Q))
      → ((d : Demux S) → P d → Q d)
      → Runs P (when b m) (λ _. Q)
  unfolding monad
  Runs-when true m h k = h refl
  Runs-when false m h k = record { at = k }
