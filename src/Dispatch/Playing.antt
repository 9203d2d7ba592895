-- ===== src/Dispatch/Playing.antt =====
-- Requests on a board, whatever their parameters are, and what a call through bytes leaves.
use minesweeper.Prelude.{◌≡◌, refl, subst, Option, none, some}
use minesweeper.Prelude.Int.{ℤ}
use minesweeper.Outcome.{Outcome, ok, ◌>>=◌, >>=-eq-ok, or_throw, out_of_range}
use minesweeper.Parameter.{
  Bytes, text, Parameter, Entries, string, int64, uint64, boolean, vector, map, find,
}
use minesweeper.Board.{Board}
use minesweeper.Handlers.{
  HandlerResult, int_param, get_int64, board_size_handler, board_bombs_handler,
  board_fully_revealed_handler, cell_reveal_handler, cell_flag_handler, cell_check_handler,
}
use minesweeper.Handlers.Game.{IsGame, Follows}
use minesweeper.Handlers.Answers.{Serves, unchanged}
use minesweeper.Handlers.Serve.{Request, serve, serve-Serves, check-Serves}

get_int64-eq-ok : (p : Parameter) (z : ℤ) → get_int64 p ≡ ok z → p ≡ int64 z
unfolding get_int64
get_int64-eq-ok (int64 w) z e = cc
get_int64-eq-ok (string s) z e = absurd (cc)
get_int64-eq-ok (uint64 n) z e = absurd (cc)
get_int64-eq-ok (boolean b) z e = absurd (cc)
get_int64-eq-ok (vector vs) z e = absurd (cc)
get_int64-eq-ok (map es) z e = absurd (cc)

or_throw-eq-ok :
    (o : Option Parameter) (p : Parameter) → or_throw out_of_range o ≡ ok p → o ≡ some p
or_throw-eq-ok none p e = absurd (cc)
or_throw-eq-ok (some q) p e = cc

-- A parameter that was read as an integer is one.
int_param-eq-ok :
    (key : Bytes) (params : Entries) (v : ℤ)
    → int_param key params ≡ ok v
    → (z : ℤ) × (find key params ≡ some (int64 z))
unfolding int_param
int_param-eq-ok key params v e =
    let (p, found, e₁) = >>=-eq-ok (or_throw out_of_range (find key params)) _ e in
    let (z, number, e₂) = >>=-eq-ok (get_int64 p) _ e₁ in
    (z, rw (or_throw-eq-ok (find key params) p found, get_int64-eq-ok p z number) refl)

Serves-Follows :
    (b b' : Board) (r : Outcome (HandlerResult × Board)) (result : HandlerResult)
    → Serves b r
    → r ≡ ok (result, b')
    → Follows b b'
Serves-Follows b b' r result s e =
    let same : s.after ≡ b' = cc (e, s.returns) in subst (Follows b) same s.follows

-- Where two parameters are read first, both are integers.
both_given {ℓ} :
    {C : Type ℓ} (params : Entries) (f : ℤ → ℤ → Outcome C) {c : C}
    → (int_param (text "x") params >>= λ x. int_param (text "y") params >>= f x) ≡ ok c
    → (x : ℤ) × (y : ℤ) × (find (text "x") params ≡ some (int64 x))
      × (find (text "y") params ≡ some (int64 y))
both_given params f e =
    let (v, ev, e₁) = >>=-eq-ok (int_param (text "x") params) _ e in
    let (w, ew, e₂) = >>=-eq-ok (int_param (text "y") params) (f v) e₁ in
    let (x, hx) = int_param-eq-ok (text "x") params v ev in
    let (y, hy) = int_param-eq-ok (text "y") params w ew in (x, y, hx, hy)

-- Whatever its parameters are, a request that is answered leaves a game that follows.
pub serve-Follows :
    (q : Request) (b b' : Board) (params : Entries) (result : HandlerResult)
    → IsGame b
    → serve q b params ≡ ok (result, b')
    → Follows b b'
unfolding serve board_size_handler board_bombs_handler board_fully_revealed_handler
    cell_reveal_handler cell_flag_handler cell_check_handler
serve-Follows Request.size b b' params result g e = Serves-Follows b b' _ result (unchanged b _ g) e
serve-Follows Request.bombs b b' params result g e =
    Serves-Follows b b' _ result (unchanged b _ g) e
serve-Follows Request.is_fully_revealed b b' params result g e =
    Serves-Follows b b' _ result (unchanged b _ g) e
serve-Follows Request.check b b' params result g e =
    Serves-Follows b b' _ result (check-Serves b params g) e
serve-Follows Request.reveal b b' params result g e =
    let (x, y, hx, hy) = both_given params _ e in
    Serves-Follows b b' _ result (serve-Serves Request.reveal b params x y g hx hy) e
serve-Follows Request.flag b b' params result g e =
    let (x, y, hx, hy) = both_given params _ e in
    Serves-Follows b b' _ result (serve-Serves Request.flag b params x y g hx hy) e
serve-Follows Request.check_cell b b' params result g e =
    let (x, y, hx, hy) = both_given params _ e in
    Serves-Follows b b' _ result (serve-Serves Request.check_cell b params x y g hx hy) e
