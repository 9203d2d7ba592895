-- ===== src/Plugins.antt =====
-- The shared libraries of plugins: `library_handle_t`, `plugin_handle_t`, `load_plugins` and
-- `unload_plugins` of src/server/server.cxx. The system's loader is a parameter. What happens to
-- libraries is written down as a sequence of events; a handle that was moved from is empty, so that
-- its destruction is no event. The map of plugins is a list with the newest one in front.
pub mod Events
pub mod Loading
pub mod Shutdown
pub mod Tests
use minesweeper.Prelude.{
  ℕ, Bool, true, false, not, ◌&&◌, if◌then◌else◌, Option, none, some, List, [], ◌∷◌, ◌++◌,
}
use minesweeper.Parameter.{Bytes, text, eq_bytes}

-- `dlopen` of a path, `dlsym` of a handle and a name, what the function `abi_tag` of a library
-- returns, and `addon_api_abi_tag` of the server itself.
pub record Loader : Type 0 where
  pub dlopen : Bytes → Option ℕ
  pub dlsym : ℕ → Bytes → Option ℕ
  pub tag : ℕ → Bytes
  pub host_tag : Bytes

-- A library is opened or closed, by its handle, or a function is called, by its address.
pub data Event : Type 0 where
  opened closed called : ℕ → Event

pub record Plugin : Type 0 where
  pub handle : Option ℕ
  pub init_func : Option ℕ
  pub unload_func : Option ℕ
  pub name_func : Option ℕ
  pub version_func : Option ℕ
  pub description_func : Option ℕ

abbrev pub no_plugin : Plugin
no_plugin = record {
  handle = none;
  init_func = none;
  unload_func = none;
  name_func = none;
  version_func = none;
  description_func = none;
}

unfoldable pub resolve : Loader → Option ℕ → Bytes → Option ℕ
resolve l none symbol = none
resolve l (some h) symbol = l.dlsym h symbol

-- `library_handle_t::close`, which the destructors come to.
unfoldable pub close : Option ℕ → List Event
close none = []
close (some h) = closed h ∷ []

unfoldable pub bind : Loader → Option ℕ → Plugin
unfolding resolve
bind l handle_ = record {
  handle = handle_;
  init_func = resolve l handle_ (text "init_plugin");
  unload_func = resolve l handle_ (text "unload_plugin");
  name_func = resolve l handle_ (text "name");
  version_func = resolve l handle_ (text "version");
  description_func = resolve l handle_ (text "description");
}

-- The constructor once the library is open, with what `abi_tag` resolves to.
unfoldable pub check_tag : Loader → ℕ → Option ℕ → Plugin × List Event
unfolding bind close
check_tag l h none = (no_plugin, close (some h))
check_tag l h (some abi_tag) =
    if not (eq_bytes (l.tag abi_tag) l.host_tag)
    then (no_plugin, called abi_tag ∷ close (some h))
    else (bind l (some h), called abi_tag ∷ [])

unfoldable pub opened_plugin : Loader → Option ℕ → Plugin × List Event
unfolding check_tag resolve
opened_plugin l none = (no_plugin, [])
opened_plugin l (some h) =
    let checked : Plugin × List Event = check_tag l h (resolve l (some h) (text "abi_tag")) in
    (checked.0, opened h ∷ checked.1)

-- The constructor of `plugin_handle_t`.
unfoldable pub plugin_handle : Loader → Bytes → Plugin × List Event
unfolding opened_plugin
plugin_handle l path = opened_plugin l (l.dlopen path)

unfoldable pub call : Option ℕ → List Event
call none = []
call (some f) = called f ∷ []

unfoldable pub is_some : Option ℕ → Bool
is_some none = false
is_some (some n) = true

-- The conversion of a plugin to `bool`.
unfoldable pub is_loaded : Plugin → Bool
unfolding is_some
is_loaded p = is_some p.handle && is_some p.init_func

-- Its functions are called to start it, and for the log.
unfoldable pub start : Plugin → List Event
unfolding is_loaded call
start p =
    if not (is_loaded p)
    then []
    else call p.init_func ++ (call p.name_func ++ call p.description_func)

pub record Named : Type 0 where
  pub path : Bytes
  pub plugin : Plugin

pub record Process : Type 0 where
  pub plugins : List Named
  pub log : List Event

unfoldable pub has_path : Bytes → List Named → Bool
has_path path [] = false
has_path path (n ∷ ns) = let rest = has_path path ns in if eq_bytes n.path path then true else rest

-- The loop's body from `plugins.emplace` on.
unfoldable pub emplace_plugin : Bytes → Plugin × List Event → Process → Process
unfolding has_path close start
emplace_plugin path made s =
    if has_path path s.plugins
    then record { plugins = s.plugins; log = s.log ++ (made.1 ++ close (made.0).handle) }
    else record {
      plugins = record { path = path; plugin = made.0 } ∷ s.plugins;
      log = s.log ++ (made.1 ++ start made.0);
    }

pub record DirectoryEntry : Type 0 where
  pub file : Bytes
  pub is_regular_file : Bool
  pub is_so : Bool

unfoldable pub load_entry : Loader → DirectoryEntry → Process → Process
unfolding emplace_plugin plugin_handle
load_entry l e s =
    if not (e.is_regular_file && e.is_so)
    then s
    else emplace_plugin e.file (plugin_handle l e.file) s

-- The entries of the directory, as far as it can be read.
unfoldable pub load_plugins : Loader → List DirectoryEntry → Process → Process
unfolding load_entry
load_plugins l [] s = s
load_plugins l (e ∷ es) s = load_plugins l es (load_entry l e s)

unfoldable pub unload_each : List Named → List Event
unfolding call
unload_each [] = []
unload_each (n ∷ ns) = call (n.plugin).unload_func ++ unload_each ns

-- `plugins.clear( )`.
unfoldable pub clear : List Named → List Event
unfolding close
clear [] = []
clear (n ∷ ns) = close (n.plugin).handle ++ clear ns

unfoldable pub unload_plugins : Process → Process
unfolding unload_each clear
unload_plugins s = record {
  plugins = [];
  log = s.log ++ (unload_each s.plugins ++ clear s.plugins);
}
