-- ===== src/Plugins/Loading.antt =====
-- Plugins as they are loaded from a directory.
use minesweeper.Prelude.{
  ℕ, ◌≡◌, refl, sym, ap, ◌∙◌, ◌&&◌, Bool-cases, ==_refl, Option, none, some, List, [], ◌∷◌, ◌++◌,
  inl, inr,
}
use minesweeper.Parameter.{Bytes, text, eq_bytes}
use minesweeper.Plugins.{
  Loader, Event, opened, closed, called, Plugin, no_plugin, resolve, close, bind, check_tag,
  opened_plugin, plugin_handle, call, start, Process, has_path, emplace_plugin, DirectoryEntry,
  load_entry, load_plugins,
}
use minesweeper.Plugins.Events.{
  FindsOwn, run, held, handles, InLibrary, IsBound, IsSound, run-append, held-IsOpen, call-run,
  close-run, start-run, run-end,
}

module _ (library_of : ℕ → ℕ) (l : Loader) (finds : FindsOwn library_of l) where
  resolved-InLibrary :
      (h : ℕ) (symbol : Bytes) (o : Option ℕ)
      → l.dlsym h symbol ≡ o
      → InLibrary library_of (some h) o
  resolved-InLibrary h symbol none e = tt
  resolved-InLibrary h symbol (some f) e = ap some (sym (finds h symbol f e))

  bind-IsBound : (h : ℕ) → IsBound library_of (bind l (some h))
  unfolding bind resolve
  bind-IsBound h = (
    resolved-InLibrary h (text "init_plugin") (l.dlsym h (text "init_plugin")) refl,
    resolved-InLibrary h (text "unload_plugin") (l.dlsym h (text "unload_plugin")) refl,
    resolved-InLibrary h (text "name") (l.dlsym h (text "name")) refl,
    resolved-InLibrary h (text "description") (l.dlsym h (text "description")) refl,
  )

  -- A plugin, its functions its own, and the events of making it.
  abbrev Makes : Plugin × List Event → Type 0
  Makes made =
      IsBound library_of (made.0)
      × ((rest : List Event) (hs : List ℕ)
          → run library_of (made.1 ++ rest) hs ≡ run library_of rest (held (made.0).handle hs))

  accepted-Makes :
      (h f : ℕ)
      → InLibrary library_of (some h) (some f)
      → Makes (bind l (some h), opened h ∷ called f ∷ [])
  unfolding call bind
  accepted-Makes h f own = (
    bind-IsBound h,
    λ rest hs. call-run library_of (some h) (some f) rest (h ∷ hs) own (held-IsOpen (some h) hs),
  )

  refused-Makes :
      (h f : ℕ)
      → InLibrary library_of (some h) (some f)
      → Makes (no_plugin, opened h ∷ called f ∷ closed h ∷ [])
  unfolding call close
  refused-Makes h f own = (
    (tt, tt, tt, tt),
    λ rest hs.
        call-run library_of (some h) (some f) (closed h ∷ rest) (h ∷ hs) own
          (held-IsOpen (some h) hs)
        ∙ close-run library_of (some h) rest hs,
  )

  check_tag-Makes :
      (h : ℕ) (o : Option ℕ)
      → InLibrary library_of (some h) o
      → Makes ((check_tag l h o).0, opened h ∷ (check_tag l h o).1)
  unfolding check_tag close
  check_tag-Makes h none own = ((tt, tt, tt, tt), λ rest hs. rw (==_refl h) refl)
  check_tag-Makes h (some f) own = elim (Bool-cases (eq_bytes (l.tag f) l.host_tag)) [
    | inl e ↦ rw e (accepted-Makes h f own)
    | inr e ↦ rw e (refused-Makes h f own)
  ]

  opened_plugin-Makes : (o : Option ℕ) → Makes (opened_plugin l o)
  unfolding opened_plugin resolve
  opened_plugin-Makes none = ((tt, tt, tt, tt), λ rest hs. refl)
  opened_plugin-Makes (some h) =
      check_tag-Makes h (l.dlsym h (text "abi_tag"))
        (resolved-InLibrary h (text "abi_tag") (l.dlsym h (text "abi_tag")) refl)

  emplace_plugin-IsSound :
      (path : Bytes) (made : Plugin × List Event) (s : Process)
      → Makes made
      → IsSound library_of s
      → IsSound library_of (emplace_plugin path made s)
  unfolding emplace_plugin
  emplace_plugin-IsSound path made s makes sound = elim (Bool-cases (has_path path s.plugins)) [
    | inl e ↦ rw e (
      run-append library_of s.log (made.1 ++ close (made.0).handle) [] (handles s.plugins) (sound.0)
          ∙ makes.1 (close (made.0).handle) (handles s.plugins)
          ∙ run-end library_of (close (made.0).handle) (held (made.0).handle (handles s.plugins))
              (handles s.plugins) (close-run library_of (made.0).handle [] (handles s.plugins)),
      sound.1,
    )
    | inr e ↦ rw e (
      run-append library_of s.log (made.1 ++ start (made.0)) [] (handles s.plugins) (sound.0)
          ∙ makes.1 (start (made.0)) (handles s.plugins)
          ∙ run-end library_of (start (made.0)) (held (made.0).handle (handles s.plugins))
              (held (made.0).handle (handles s.plugins))
              (start-run library_of (made.0) [] (handles s.plugins) (makes.0)),
      (makes.0, sound.1),
    )
  ]

  load_entry-IsSound :
      (e : DirectoryEntry) (s : Process)
      → IsSound library_of s
      → IsSound library_of (load_entry l e s)
  unfolding load_entry plugin_handle
  load_entry-IsSound e s sound = elim (Bool-cases (e.is_regular_file && e.is_so)) [
    | inl q ↦ rw q (
        emplace_plugin-IsSound e.file (plugin_handle l e.file) s
          (opened_plugin-Makes (l.dlopen e.file)) sound)
    | inr q ↦ rw q sound
  ]

  -- Plugins that are loaded from a directory, whatever it holds: of the libraries that were opened,
  -- those that are still open are the plugins', and no function was called of a library that was
  -- not open, if it was so before.
  pub load_plugins-IsSound :
      (es : List DirectoryEntry) (s : Process)
      → IsSound library_of s
      → IsSound library_of (load_plugins l es s)
  unfolding load_plugins
  load_plugins-IsSound [] s sound = sound
  load_plugins-IsSound (e ∷ es) s sound =
      load_plugins-IsSound es (load_entry l e s) (load_entry-IsSound e s sound)
