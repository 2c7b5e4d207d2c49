-- ===== src/Suite/Nested/Ends.antt =====
-- A suite whose files refer to less deep files only ends.
use apitest.Base.{ℕ, ◌<◌, ◌≡◌, Bool, String, Option, ok}
use apitest.Json.{Value, str}
use apitest.PathSpec.{PathSpec}
use apitest.Suite.Nested.{Calls, load_manifest_data}
use apitest.Suite.Nested.Results.{Keeps}
use apitest.Suite.Nested.Steps.{Kept, Fills, file_of}

module _ {S T : Type 0} (h : Calls S T) where
  -- What `v` is loaded as, from the file that it stands in, is of a depth below `n`: the depth is
  -- that of a file with its text.
  abbrev pub Reaches : (String → String → ℕ) → ℕ → String → Value → Type 0
  Reaches depth n file v =
      (raw : String) (spec : Option PathSpec)
      → load_manifest_data h v (h.dir file) ≡ ok (spec, raw)
      → depth (file_of h file spec) raw < n

  -- Whatever a file's text is rendered to, in whatever state, refers to less deep files only.
  abbrev pub Descends : (String → String → ℕ) → Type 0
  Descends depth =
      (file raw : String)
      → Fills h (λ t. Reaches depth (depth file raw) file (str t)) (h.dir file) raw

  abbrev kept_by_all : Keeps h (λ s. Unit {0})
  kept_by_all = record {
    render = λ loader raw d s i. tt;
    set_name = λ file s i. tt;
    new_child = λ k s i. tt;
    leave = λ b s i. tt;
    passes = λ file loader index t s i e. tt;
  }

  -- There is a result; nothing is said of it.
  abbrev Ended : S → Bool → S → Type 0
  Ended = Kept h ⊥ ⊥ (λ s. Unit {0}) kept_by_all
