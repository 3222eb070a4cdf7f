-- ===== src/Gui/KeyPanel/Jobs.antt =====
-- cmd/sercon-gui/keys_windows.go: the jobs of the key panel in runs in which reading the file works.
use sercon.Prelude.{◌≡◌, true, false, Option, some, List, [], ◌∷◌, Bytes}
use sercon.Auth.Keys.{Codec}
use sercon.Gui.KeyPanel.{
  Work, reload, add, remove_key, generation_of, Found, key_error, found, KeyCompletion, KeyPanel,
  World, contents, Event, worker_ends, happen,
}

-- A worker that edits has the panel's text.
abbrev pub HasText : Bytes → Work → Type 0
HasText raw (reload g may) = Unit
HasText raw (add g r candidates) = r ≡ raw
HasText raw (remove_key g r victim) = r ≡ raw

-- A result shows the file: its text, or an error and the text that the panel has.
abbrev pub ShowsFile : Bytes → Option Bytes → Found → Type 0
ShowsFile raw file key_error = file ≡ some raw
ShowsFile raw file (found r keys added) = file ≡ some r

-- Where a job stands: none; a worker that runs; or its result, which waits.
pub data Stage (w : World) : Type 0 where
  idle :
      w.panel.job.busy ≡ false
      → w.running ≡ []
      → w.panel.completions ≡ []
      → w.file ≡ some w.panel.raw
      → Stage w
  working :
      (k : Work)
      → w.panel.job.busy ≡ true
      → generation_of k ≡ w.panel.job.generation
      → w.running ≡ k ∷ []
      → w.panel.completions ≡ []
      → w.file ≡ some w.panel.raw
      → HasText w.panel.raw k
      → Stage w
  waiting :
      (c : KeyCompletion)
      → w.panel.job.busy ≡ true
      → c.generation ≡ w.panel.job.generation
      → w.running ≡ []
      → w.panel.completions ≡ c ∷ []
      → ShowsFile w.panel.raw w.file c.result
      → Stage w

module _ (cd : Codec) where
  abbrev Now : World → Type 0
  Now w = Stage w

  -- A read of the file gives its content, and what follows a write works.
  abbrev pub Reads : World → Event → Type 0
  Reads w (worker_ends o) =
      ((b : Bytes) → w.file ≡ some b → o.read ≡ contents b) × (o.settles ≡ true)
  Reads w _ = Unit

  abbrev pub happen_all : List Event → World → World
  happen_all [] w = w
  happen_all (e ∷ es) w = happen_all es (happen cd e w)

  abbrev pub AllRead : World → List Event → Type 0
  AllRead w [] = Unit
  AllRead w (e ∷ es) = Reads w e × AllRead (happen cd e w) es
