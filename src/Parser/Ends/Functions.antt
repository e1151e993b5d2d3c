-- ===== src/Parser/Ends/Functions.antt =====
-- What stands in front of the body of a function in src/compiler.c, and the definition, keep within
-- their bounds: the parameters because they fill an array or come to its end, behind which C leaves
-- undefined what happens.
use opo.Base.{
  ℕ, ◌+◌, ◌-◌, ◌<◌, ◌≡◌, refl, List, [], ◌∷◌, ◌++◌, Bool, true, length, length-append, ltb, ltb→lt,
  arith,
}
use opo.Lexer.{TokenType}
use opo.Parser.Ends.Loops.{
  Turns, Ends-Turns, Turns-finish, Turns-bind, Turns-if, Turns-match_then, Fills, Ends-Fills,
  Fills-bind, Fills-if, Fills-demand, Fills-finish, Fills-again,
}
use opo.Parser.Ends.Names.{steps, Ends-resolve_local, Ends-patch_all}
use opo.Parser.Ends.Tokens.{Ends-consume}
use opo.Parser.Ends.Types.{Ends-parse_type}
use opo.Parser.Ends.{Ends, Ends-bind, Ends-then, Ends-pure, Ends-get}
use opo.Parser.Functions.{
  with_capture, capture_turn, parse_capture_list, max_params, param_turn, Header, function_name,
  explicit_return_type, function_header, function_entry, define_function,
}
use opo.Parser.Tokens.{before}
use opo.Parser.Types.{parse_type}
use opo.Parser.{Lexeme, CaptureSpec, Function}

Ends-with_capture :
    {k : ℕ} (name : Lexeme) (captures : List CaptureSpec) → Ends k (with_capture name captures)
unfolding with_capture
Ends-with_capture name captures = search (steps, Ends-resolve_local) depth 40 fits 20000

Ends-before : {k : ℕ} (t : TokenType) → Ends k (before t)
unfolding before
Ends-before t = search steps depth 20

Turns-capture_turn : {k : ℕ} (captures : List CaptureSpec) → Turns k (capture_turn captures)
unfolding capture_turn
Turns-capture_turn captures = Turns-bind _ _ (Ends-before TokenType.rbracket) (λ more.
    Turns-if more _ _
      (Turns-bind _ _ (Ends-consume _ _) (λ u. Turns-bind _ _ Ends-get (λ s.
        Turns-bind _ _ (Ends-with_capture s.parser.previous captures) (λ next.
          Turns-match_then TokenType.comma _ refl (λ j p. Ends-pure _) (Turns-finish next)))))
      (Turns-finish captures))

pub Ends-parse_capture_list : {k : ℕ} (rounds : ℕ) → k < rounds → Ends k (parse_capture_list rounds)
unfolding parse_capture_list
Ends-parse_capture_list rounds l =
    Ends-bind _ _ (Ends-Turns rounds capture_turn [] l Turns-capture_turn)
      (λ captures. Ends-then _ _ (Ends-consume _ _) (Ends-pure captures))

-- The room that is left in `params`.
abbrev pub room : List (Lexeme × ℕ) → ℕ
room params = max_params - length params

room_less :
    (params : List (Lexeme × ℕ)) (x : Lexeme × ℕ)
    → ltb (length params) max_params ≡ true
    → room (params ++ x ∷ []) < room params
room_less params x e = omega (arith, ltb→lt _ _ e, length-append params (x ∷ []))

module _ {k : ℕ} (rounds : ℕ) (l : k + 17 < rounds) where
  parses : Ends k (parse_type rounds)
  parses = Ends-parse_type rounds (omega arith)

  pub Fills-param_turn :
      (params : List (Lexeme × ℕ)) → Fills k room (room params) (param_turn rounds params)
  unfolding param_turn
  Fills-param_turn params = Fills-bind room _ _ _ (Ends-before TokenType.rangle) (λ more.
      Fills-if room _ more _ _
        (Fills-bind room _ _ _ (Ends-consume _ _) (λ u. Fills-bind room _ _ _ Ends-get (λ s.
          Fills-demand room _ _ _ (λ e. Fills-bind room _ _ _ (Ends-consume _ _) (λ u.
            Fills-bind room _ _ _ parses (λ type.
              Fills-bind room _ _ _ (search steps)
                (λ u. Fills-again room _ _ (room_less params _ e))))))))
        (Fills-finish room _ params))

  Ends-explicit_return_type : Ends k (explicit_return_type rounds)
  unfolding explicit_return_type
  Ends-explicit_return_type = search (steps, parses) depth 20

  Ends-function_name : Ends k function_name
  unfolding function_name
  Ends-function_name = search steps depth 20

  pub Ends-function_header : Ends k (function_header rounds)
  unfolding function_header
  Ends-function_header =
      Ends-bind _ _ (Ends-Fills rounds (param_turn rounds) room [] (omega arith) Fills-param_turn)
        (λ params. Ends-then _ _ (Ends-consume _ _) (
          Ends-bind _ _ Ends-explicit_return_type
            (λ explicit. Ends-bind _ _ Ends-function_name (λ name. Ends-pure _))))

Ends-function_entry : {k : ℕ} (new : Function) → Ends k (function_entry new)
unfolding function_entry
Ends-function_entry new = search steps depth 40 fits 20000

pub Ends-define_function :
    {k : ℕ} (name : List ℕ) (addr : ℕ) (is_public : Bool) (h : Header)
    → Ends k (define_function name addr is_public h)
unfolding define_function
Ends-define_function name addr is_public h =
    search (steps, Ends-function_entry, Ends-patch_all) depth 40 fits 20000
