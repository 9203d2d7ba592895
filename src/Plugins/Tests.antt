-- ===== src/Plugins/Tests.antt =====
-- A directory of plugins.
use minesweeper.Prelude.{
  ℕ, ◌+◌, ◌*◌, ◌/◌, ◌%◌, ◌≡◌, refl, arith, true, ◌==◌, if◌then◌else◌, none, some, List, [], ◌∷◌,
  length,
}
use minesweeper.Parameter.{Bytes, text, eq_bytes}
use minesweeper.Plugins.{
  Loader, opened, closed, called, DirectoryEntry, load_plugins, unload_plugins,
}
use minesweeper.Plugins.Events.{FindsOwn, run}
use minesweeper.Plugins.Shutdown.{started, unload_plugins-load_plugins}

-- Libraries 1 and 2, the second one built for another server. A function stands in its library at
-- the length of its name; no library has a version.
abbrev two_libraries : Loader
two_libraries = record {
  dlopen = λ path.
      if eq_bytes path (text "a.so")
      then some 1
      else if eq_bytes path (text "b.so")
      then some 2
      else none;
  dlsym = λ h symbol.
      if eq_bytes symbol (text "version") then none else some (16 * h + length symbol % 16);
  tag = λ f. if f == 23 then text "gcc" else text "clang";
  host_tag = text "gcc";
}

abbrev library_of : ℕ → ℕ
library_of f = f / 16

two_libraries-FindsOwn : FindsOwn library_of two_libraries
two_libraries-FindsOwn h symbol f e = grind arith

abbrev file_of : Bytes → DirectoryEntry
file_of path = record { file = path; is_regular_file = true; is_so = true }

abbrev three_files : List DirectoryEntry
three_files = file_of (text "a.so") ∷ file_of (text "b.so") ∷ file_of (text "c.so") ∷ []

three_files_run :
    (unload_plugins (load_plugins two_libraries three_files started)).log
    ≡ opened 1
      ∷ called 23
      ∷ called 27
      ∷ called 20
      ∷ called 27
      ∷ opened 2
      ∷ called 39
      ∷ closed 2
      ∷ called 29
      ∷ closed 1
      ∷ []
unfolding unload_plugins load_plugins eq_bytes
three_files_run = refl

unload_plugins-load_plugins_example :
    run library_of (unload_plugins (load_plugins two_libraries three_files started)).log []
    ≡ some []
unload_plugins-load_plugins_example =
    unload_plugins-load_plugins library_of two_libraries three_files two_libraries-FindsOwn
