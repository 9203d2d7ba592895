-- ===== src/Plugins/Events.antt =====
-- The events of libraries, and the libraries that they leave open; the plugins whose functions are
-- their own libraries'.
use minesweeper.Prelude.{
  ℕ, ◌≡◌, refl, subst, Bool, true, false, Bool-cases, ◌==◌, ==_refl, if◌then◌else◌, Option, none,
  some, List, [], ◌∷◌, ◌++◌, append_assoc, append-nil, All, arith, inl, inr,
}
use minesweeper.Parameter.{Bytes}
use minesweeper.Plugins.{
  Loader, Event, opened, closed, called, Plugin, close, call, is_loaded, start, Named, Process,
}

abbrev pub is_open : ℕ → List ℕ → Bool
is_open h [] = false
is_open h (k ∷ ks) = let rest = is_open h ks in if k == h then true else rest

-- One opening of the library less.
abbrev pub forget : ℕ → List ℕ → List ℕ
forget h [] = []
forget h (k ∷ ks) = let rest = forget h ks in if k == h then ks else k ∷ rest

-- What some events make of the libraries that are open, each as often as it was opened, if they call
-- functions and close libraries only where the library is open.
abbrev pub run : (ℕ → ℕ) → List Event → List ℕ → Option (List ℕ)
run library_of [] hs = some hs
run library_of (opened h ∷ es) hs = run library_of es (h ∷ hs)
run library_of (closed h ∷ es) hs =
    let rest = run library_of es (forget h hs) in if is_open h hs then rest else none
run library_of (called f ∷ es) hs =
    let rest = run library_of es hs in if is_open (library_of f) hs then rest else none

-- What `dlsym` finds in a library is part of it.
abbrev pub FindsOwn : (ℕ → ℕ) → Loader → Type 0
FindsOwn library_of l =
    (h : ℕ) (symbol : Bytes) (f : ℕ) → l.dlsym h symbol ≡ some f → library_of f ≡ h

abbrev pub held : Option ℕ → List ℕ → List ℕ
held none hs = hs
held (some h) hs = h ∷ hs

abbrev pub handles : List Named → List ℕ
handles [] = []
handles (n ∷ ns) = held (n.plugin).handle (handles ns)

abbrev pub IsOpen : Option ℕ → List ℕ → Type 0
IsOpen none hs = Unit
IsOpen (some h) hs = is_open h hs ≡ true

pub held-IsOpen : (o : Option ℕ) (hs : List ℕ) → IsOpen o (held o hs)
held-IsOpen none hs = tt
held-IsOpen (some h) hs = rw (==_refl h) refl

pub IsOpen-held : (o p : Option ℕ) (hs : List ℕ) → IsOpen o hs → IsOpen o (held p hs)
IsOpen-held none p hs ready = tt
IsOpen-held (some h) none hs ready = ready
IsOpen-held (some h) (some k) hs ready = rw ready (ground arith)

module _ (library_of : ℕ → ℕ) where
  abbrev pub InLibrary : Option ℕ → Option ℕ → Type 0
  InLibrary handle none = Unit
  InLibrary handle (some f) = handle ≡ some (library_of f)

  abbrev pub IsBound : Plugin → Type 0
  IsBound p =
      InLibrary p.handle p.init_func
      × InLibrary p.handle p.unload_func
      × InLibrary p.handle p.name_func
      × InLibrary p.handle p.description_func

  -- The open libraries are those of the plugins, whose functions are their own libraries'.
  abbrev pub IsSound : Process → Type 0
  IsSound s =
      (run library_of s.log [] ≡ some (handles s.plugins)) × All (λ n. IsBound n.plugin) s.plugins

  guarded :
      (b : Bool) (o : Option (List ℕ)) (ks : List ℕ)
      → (if b then o else none) ≡ some ks
      → (b ≡ true) × (o ≡ some ks)
  guarded true o ks e = (refl, e)
  guarded false o ks e = ground arith

  pub run-append :
      (xs ys : List Event) (hs ks : List ℕ)
      → run library_of xs hs ≡ some ks
      → run library_of (xs ++ ys) hs ≡ run library_of ys ks
  run-append [] ys hs ks e = ground arith
  run-append (opened h ∷ es) ys hs ks e = run-append es ys (h ∷ hs) ks e
  run-append (closed h ∷ es) ys hs ks e =
      let both = guarded (is_open h hs) (run library_of es (forget h hs)) ks e in
      rw (both.0) (run-append es ys (forget h hs) ks (both.1))
  run-append (called f ∷ es) ys hs ks e =
      let both = guarded (is_open (library_of f) hs) (run library_of es hs) ks e in
      rw (both.0) (run-append es ys hs ks (both.1))

  pub call-run :
      (handle o : Option ℕ) (rest : List Event) (hs : List ℕ)
      → InLibrary handle o
      → IsOpen handle hs
      → run library_of (call o ++ rest) hs ≡ run library_of rest hs
  unfolding call
  call-run handle none rest hs own ready = refl
  call-run handle (some f) rest hs own ready = rw (subst (λ h. IsOpen h hs) own ready) refl

  pub close-run :
      (o : Option ℕ) (rest : List Event) (hs : List ℕ)
      → run library_of (close o ++ rest) (held o hs) ≡ run library_of rest hs
  unfolding close
  close-run none rest hs = refl
  close-run (some h) rest hs = rw (==_refl h) refl

  pub start-run :
      (p : Plugin) (rest : List Event) (hs : List ℕ)
      → IsBound p
      → run library_of (start p ++ rest) (held p.handle hs) ≡ run library_of rest (held p.handle hs)
  unfolding start
  start-run p rest hs bound =
      let ready = held-IsOpen p.handle hs in
      elim (Bool-cases (is_loaded p)) [
        | inr e ↦ rw e refl
        | inl e ↦
            rw
              (
                e,
                append_assoc (call p.init_func) (call p.name_func ++ call p.description_func) rest,
                append_assoc (call p.name_func) (call p.description_func) rest,
                call-run p.handle p.init_func
                    (call p.name_func ++ (call p.description_func ++ rest)) (held p.handle hs)
                    (bound.0) ready,
                call-run p.handle p.name_func (call p.description_func ++ rest) (held p.handle hs)
                    (bound.2) ready,
              )
              (call-run p.handle p.description_func rest (held p.handle hs) (bound.3) ready)
      ]

  pub run-end :
      (es : List Event) (hs ks : List ℕ)
      → run library_of (es ++ []) hs ≡ some ks
      → run library_of es hs ≡ some ks
  run-end es hs ks e = subst (λ es'. run library_of es' hs ≡ some ks) (append-nil es) e
