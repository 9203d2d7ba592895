-- ===== src/Plugins/Shutdown.antt =====
-- Plugins that are loaded and unloaded: their libraries are open while their functions are called,
-- and closed in the end.
use minesweeper.Prelude.{
  ℕ, ◌≡◌, refl, ap, ◌∙◌, Option, some, List, [], ◌∷◌, ◌++◌, append_assoc, All,
}
use minesweeper.Plugins.{
  Loader, Event, close, call, Named, Process, DirectoryEntry, load_plugins, unload_each, clear,
  unload_plugins,
}
use minesweeper.Plugins.Events.{
  FindsOwn, run, held, handles, IsOpen, IsBound, IsSound, run-append, held-IsOpen, IsOpen-held,
  call-run, close-run, run-end,
}
use minesweeper.Plugins.Loading.{load_plugins-IsSound}

module _ (library_of : ℕ → ℕ) where
  abbrev AreOpen : List Named → List ℕ → Type 0
  AreOpen [] hs = Unit
  AreOpen (n ∷ ns) hs = IsOpen (n.plugin).handle hs × AreOpen ns hs

  AreOpen-held :
      (ns : List Named) (p : Option ℕ) (hs : List ℕ) → AreOpen ns hs → AreOpen ns (held p hs)
  AreOpen-held [] p hs ready = tt
  AreOpen-held (n ∷ ns) p hs ready =
      (IsOpen-held (n.plugin).handle p hs (ready.0), AreOpen-held ns p hs (ready.1))

  handles-AreOpen : (ns : List Named) → AreOpen ns (handles ns)
  handles-AreOpen [] = tt
  handles-AreOpen (n ∷ ns) = (
    held-IsOpen (n.plugin).handle (handles ns),
    AreOpen-held ns (n.plugin).handle (handles ns) (handles-AreOpen ns),
  )

  unload_each-run :
      (ns : List Named) (rest : List Event) (hs : List ℕ)
      → All (λ n. IsBound library_of n.plugin) ns
      → AreOpen ns hs
      → run library_of (unload_each ns ++ rest) hs ≡ run library_of rest hs
  unfolding unload_each
  unload_each-run [] rest hs bound ready = refl
  unload_each-run (n ∷ ns) rest hs bound ready =
      ap (λ es. run library_of es hs)
        (append_assoc (call (n.plugin).unload_func) (unload_each ns) rest)
      ∙ call-run library_of (n.plugin).handle (n.plugin).unload_func (unload_each ns ++ rest) hs
          ((bound.0).1) (ready.0)
      ∙ unload_each-run ns rest hs (bound.1) (ready.1)

  clear-run :
      (ns : List Named) (rest : List Event)
      → run library_of (clear ns ++ rest) (handles ns) ≡ run library_of rest []
  unfolding clear
  clear-run [] rest = refl
  clear-run (n ∷ ns) rest =
      ap (λ es. run library_of es (handles (n ∷ ns)))
        (append_assoc (close (n.plugin).handle) (clear ns) rest)
      ∙ close-run library_of (n.plugin).handle (clear ns ++ rest) (handles ns)
      ∙ clear-run ns rest

  unload_plugins-run :
      (s : Process) → IsSound library_of s → run library_of (unload_plugins s).log [] ≡ some []
  unfolding unload_plugins
  unload_plugins-run s sound =
      run-append library_of s.log (unload_each s.plugins ++ clear s.plugins) [] (handles s.plugins)
        (sound.0)
      ∙ unload_each-run s.plugins (clear s.plugins) (handles s.plugins) (sound.1)
          (handles-AreOpen s.plugins)
      ∙ run-end library_of (clear s.plugins) (handles s.plugins) [] (clear-run s.plugins [])

abbrev pub started : Process
started = record { plugins = []; log = [] }

-- Where what dlsym finds in a library is part of this library: whatever a directory holds, when its
-- plugins were loaded and unloaded, each library was closed as often as it was opened, and every
-- function was called, and every library closed, while the library was open.
pub unload_plugins-load_plugins :
    (library_of : ℕ → ℕ) (l : Loader) (es : List DirectoryEntry)
    → FindsOwn library_of l
    → run library_of (unload_plugins (load_plugins l es started)).log [] ≡ some []
unload_plugins-load_plugins library_of l es finds =
    unload_plugins-run library_of (load_plugins l es started)
      (load_plugins-IsSound library_of l finds es started (refl, tt))
