-- ===== src/Tests/Files.antt =====
-- Opening and closing files at concrete states.
use tcpflow.Base.{ℕ, ◌<◌, ◌≡◌, refl, ◌≢◌, true, false, none, List, [], ◌∷◌, arith}
use tcpflow.OpenFlows
use tcpflow.OpenFlows.{OpenFlows}
use tcpflow.Flow.Addr.{same_bytes}
use tcpflow.Filename.{Naming, filename, default_template}
use tcpflow.Filename.Options.{format_template, argument_template, format_template-filename}
use tcpflow.Filename.Counts.{default_name}
use tcpflow.Demux.Files.NewName.{new_filename_returns}
use tcpflow.Demux.Os.{file_bytes, Opened, failed, emfile}
use tcpflow.Demux.State.{Demux, done}
use tcpflow.Demux.Files.{name_tries, new_filename, close_file, retrying_open, open_rounds}
use tcpflow.Demux.Files.Closing.{OpenIsValid, close_file-OpenIsValid}
use tcpflow.Demux.Files.Opening.{retrying_open_returns}
use tcpflow.Tests.Examples.{client_flow, settings, open_flow, busy}

busy-OpenIsValid : OpenIsValid busy
unfolding OpenFlows.is_linked
busy-OpenIsValid = record {
  valid = record {
    cells = ground arith;
    apart = λ m n c e f. ground arith;
    fresh = λ n c e. ground arith;
    once = λ n. ground arith;
    counted = refl;
  };
  linked = λ p. ground arith;
  held = λ p fd e. ground arith;
  apart = λ p q fd e f. ground arith;
  fresh = λ fd h. ground arith;
}

close_file-OpenIsValid_example :
    (d' : Demux (List ℕ)) × (close_file settings 1 busy ≡ done (tt, d'))
    × OpenIsValid d'
    × (OpenFlows.is_linked 1 d'.open_flows ≡ false)
close_file-OpenIsValid_example =
    close_file-OpenIsValid settings 1 busy open_flow busy-OpenIsValid refl

-- `busy` with no descriptor left: flow 1 has to be closed.
abbrev crowded : Demux (List ℕ)
crowded = record busy { os = record busy.os { limit = 4 } }

crowded-OpenIsValid : OpenIsValid crowded
crowded-OpenIsValid = record {
  valid = busy-OpenIsValid.valid;
  linked = busy-OpenIsValid.linked;
  held = busy-OpenIsValid.held;
  apart = busy-OpenIsValid.apart;
  fresh = busy-OpenIsValid.fresh;
}

retrying_open_returns_example :
    (r : Opened) × (d' : Demux (List ℕ)) × (retrying_open settings
        (open_rounds crowded)
        (117 ∷ [])
        true
        crowded
      ≡ done (r, d'))
    × OpenIsValid d'
    × (r ≢ failed emfile)
unfolding OpenFlows.size
retrying_open_returns_example =
    retrying_open_returns settings (117 ∷ []) true crowded crowded-OpenIsValid
      (omega arith, omega arith) (omega arith)

-- The same, where the flow's first name is that of a file.
abbrev taken : Demux (List ℕ)
taken = record crowded {
  os = record crowded.os {
    files = (default_name settings.naming client_flow 0, []) ∷ crowded.os.files;
  };
}

taken-OpenIsValid : OpenIsValid taken
taken-OpenIsValid = record {
  valid = busy-OpenIsValid.valid;
  linked = busy-OpenIsValid.linked;
  held = busy-OpenIsValid.held;
  apart = busy-OpenIsValid.apart;
  fresh = busy-OpenIsValid.fresh;
}

new_filename_returns_example :
    (n fd : ℕ) × (d' : Demux (List ℕ)) × (new_filename settings
        (name_tries taken)
        0
        client_flow
        taken
      ≡ done ((default_name settings.naming client_flow n, fd), d'))
    × OpenIsValid d'
    × (file_bytes (default_name settings.naming client_flow n) taken.os ≡ none)
    × ((i : ℕ) → i < n → file_bytes (default_name settings.naming client_flow i) taken.os ≢ none)
unfolding OpenFlows.size
new_filename_returns_example =
    new_filename_returns settings client_flow taken refl taken-OpenIsValid
      (omega arith, omega arith) (omega arith) (λ p. refl) (omega arith)

-- The template of -Fc has the letter of the mark alone.
format_template_run : format_template b'c' (b'x' ∷ b'%' ∷ b'c' ∷ []) ≡ b'x' ∷ b'%' ∷ b'C' ∷ []
unfolding format_template same_bytes
format_template_run = refl

argument_template_run : argument_template (b'%' ∷ b'c' ∷ []) ≡ b'%' ∷ b'c' ∷ []
unfolding argument_template same_bytes
argument_template_run = refl

abbrev counted_naming : Naming
counted_naming = record settings.naming { template = format_template b'c' default_template }

format_template-filename_example :
    filename counted_naming client_flow 1 false ≡ filename counted_naming client_flow 2 false
format_template-filename_example =
    format_template-filename counted_naming client_flow 1 2 refl (omega arith) (omega arith)
