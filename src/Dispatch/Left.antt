-- ===== src/Dispatch/Left.antt =====
-- The state that a handler's call through bytes leaves.
use minesweeper.Prelude.{ℕ, ◌≡◌, ◌⊎◌, inl, inr, refl, sym, subst, ◌∙◌, ap, Option, none, some}
use minesweeper.Outcome.{
  Outcome, ok, throws, ◌>>=◌, >>=-eq-ok, out_of_range, bad_variant_access, json_error, fault, stuck,
}
use minesweeper.Parameter.{Bytes, Parameter, Entries, string, int64, uint64, boolean, vector, map}
use minesweeper.Handlers.{HandlerResult}
use minesweeper.Wire.Reader.{load}
use minesweeper.Wire.Reads.{reader}
use minesweeper.Dispatch.Host.{Host, Answer, attempt}
use minesweeper.Dispatch.Adapter.{
  HandlerOn, caught, answer_bytes, run_handler, handler_adapter, handler_output_capacity,
  unwrap_handler_output,
}
use minesweeper.Dispatch.Call.{call_handler}

-- The state that a call leaves: as it was, or as the handler left it at some parameters.
abbrev pub IsLeft : {S : Type 0} → HandlerOn S → S → S → Type 0
IsLeft handler s s' =
    (s' ≡ s)
    ⊎ ((params : Entries) × (result : HandlerResult) × (handler s params ≡ ok (result, s')))

-- A state that is handed on behind a step is the one that comes out.
after-eq :
    {A B S : Type 0} (first : Outcome A) (s s' : S) (f : A → B) (b : B)
    → (let rest : A → Outcome (B × S) = λ a. ok (f a, s) in first >>= rest) ≡ ok (b, s')
    → s' ≡ s
after-eq (throws failure) s s' f b e = absurd (cc)
after-eq (ok a) s s' f b e = cc

module _ {S : Type 0} (h : Host) (handler : HandlerOn S) where
  caught-IsLeft :
      (s s' : S) (params : Entries) (r : Outcome (HandlerResult × S)) (answer : Answer)
      → handler s params ≡ r
      → caught h s r ≡ ok (answer, s')
      → IsLeft handler s s'
  unfolding caught
  caught-IsLeft s s' params (ok (result, t)) answer same e =
      let left : t ≡ s' = cc in inr (params, result, same ∙ ap (λ k. ok (result, k)) left)
  caught-IsLeft s s' params (throws out_of_range) answer same e = inl (cc)
  caught-IsLeft s s' params (throws bad_variant_access) answer same e = inl (cc)
  caught-IsLeft s s' params (throws json_error) answer same e = inl (cc)
  caught-IsLeft s s' params (throws fault) answer same e = absurd (cc)
  caught-IsLeft s s' params (throws stuck) answer same e = absurd (cc)

  run_handler-IsLeft :
      (s s' : S) (out_cap : ℕ) (o : Option Parameter) (out : Bytes)
      → run_handler h handler s out_cap o ≡ ok (out, s')
      → IsLeft handler s s'
  unfolding run_handler
  run_handler-IsLeft s s' out_cap none out e = inl (cc)
  run_handler-IsLeft s s' out_cap (some (string t)) out e = inl (cc)
  run_handler-IsLeft s s' out_cap (some (int64 z)) out e = inl (cc)
  run_handler-IsLeft s s' out_cap (some (uint64 n)) out e = inl (cc)
  run_handler-IsLeft s s' out_cap (some (boolean b)) out e = inl (cc)
  run_handler-IsLeft s s' out_cap (some (vector vs)) out e = inl (cc)
  run_handler-IsLeft s s' out_cap (some (map params)) out e =
      let ((answer, t), called, rest) = >>=-eq-ok (caught h s (handler s params)) _ e in
      subst (IsLeft handler s)
        (sym (after-eq (answer_bytes answer out_cap) t s' (λ bs. bs) out rest))
        (caught-IsLeft s t params (handler s params) answer refl called)

  pub call_handler-IsLeft :
      (s s' : S) (bs : Bytes) (answer : Answer)
      → call_handler h handler s bs ≡ ok (answer, s')
      → IsLeft handler s s'
  unfolding call_handler handler_adapter
  call_handler-IsLeft s s' bs answer e =
      let ((written, t), adapted, rest) =
        >>=-eq-ok (handler_adapter h handler s bs handler_output_capacity) _ e in
      let (o, loaded, ran) =
        >>=-eq-ok (attempt (load (reader 0 bs))) (run_handler h handler s handler_output_capacity)
          adapted in
      subst (IsLeft handler s)
        (sym (after-eq (unwrap_handler_output h written) t s' (λ a. a) answer rest))
        (run_handler-IsLeft s t handler_output_capacity o written ran)
