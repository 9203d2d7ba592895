-- ===== src/Dispatch/Entrypoints.antt =====
-- The table of resources that `main` of src/server/server.cxx registers, and the resource of the
-- plugin src/server/plugins/cell_check.cxx.
use minesweeper.Prelude.{true, false, List, [], ◌∷◌}
use minesweeper.Parameter.{Bytes, text, string}
use minesweeper.Handlers.Serve.{
  Request, size, bombs, is_fully_revealed, reveal, flag, check, check_cell, serve,
}
use minesweeper.Dispatch.Types.{HttpMethod, ParamType}
use minesweeper.Dispatch.ResourceWire.{ParamSpec}
use minesweeper.Dispatch.Session.{Sessions, session_new_handler}
use minesweeper.Dispatch.Respond.{Resource, on_board, simple}

abbrev pub integer_param : Bytes → ParamSpec
integer_param name_ = record {
  name = name_;
  type = ParamType.integer;
  required = true;
  default_value = string [];
}

abbrev pub xy_specs : List ParamSpec
xy_specs = integer_param (text "x") ∷ integer_param (text "y") ∷ []

abbrev pub path_of : Request → Bytes
path_of size = text "board/size"
path_of bombs = text "board/bombs"
path_of is_fully_revealed = text "board/fully_revealed"
path_of check = text "board/check"
path_of reveal = text "cell/reveal"
path_of flag = text "cell/flag"
path_of check_cell = text "cell/check"

abbrev pub method_of : Request → HttpMethod
method_of size = HttpMethod.get
method_of bombs = HttpMethod.get
method_of is_fully_revealed = HttpMethod.get
method_of check = HttpMethod.post
method_of reveal = HttpMethod.post
method_of flag = HttpMethod.post
method_of check_cell = HttpMethod.post

abbrev pub params_of : Request → List ParamSpec
params_of reveal = xy_specs
params_of flag = xy_specs
params_of check_cell = xy_specs
params_of _ = []

unfoldable pub entrypoint : Request → Resource
unfolding serve
entrypoint q = record {
  path = path_of q;
  method = method_of q;
  handler = on_board (serve q);
  params = params_of q;
}

abbrev pub session_specs : List ParamSpec
session_specs =
    record {
      name = text "board_id";
      type = ParamType.string;
      required = false;
      default_value = string [];
    }
    ∷ []

unfoldable pub session_resource : Sessions → Resource
session_resource n = record {
  path = text "session/new";
  method = HttpMethod.post;
  handler = simple (session_new_handler n);
  params = session_specs;
}
