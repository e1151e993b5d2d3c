-- ===== src/Parser/Ends/Match.antt =====
-- The `match` statement of src/compiler.c keeps within its bounds.
use opo.Base.{
  ℕ, ◌-◌, ◌<◌, ◌≡◌, List, [], ◌∷◌, ◌++◌, Option, none, some, true, length, length-append, ltb,
  ltb→lt, arith,
}
use opo.Parser.Ends.Calling.{Calling}
use opo.Parser.Ends.Loops.{
  Fills, Ends-Fills, Fills-bind, Fills-if, Fills-demand, Fills-finish, Fills-again,
}
use opo.Parser.Ends.Names.{
  steps, Ends-type_push, Ends-type_pop, Ends-emit_jump, Ends-patch_here, Ends-patch_all,
  Ends-add_local,
}
use opo.Parser.Ends.Statement.{Ends-guarded_local, Ends-set_guard}
use opo.Parser.Ends.{Ends, Ends-get}
use opo.Parser.Match.{
  Subject, any_value, option_value, result_value, enum_value, subject_of, Case, any_case, case_of,
  max_cases, cover, has_payload, check_binding, check_no_binding, binding, emit_check, bind_payload,
  Cases, case_body, case_turn, check_exhaustive, match_statement,
}
use opo.Parser.{iterate, Lexeme, EnumDef, Calls}

Ends-subject_of : {k : ℕ} (type : ℕ) → Ends k (subject_of type)
unfolding subject_of
Ends-subject_of type = search steps depth 40 fits 20000

Ends-any_case : {k : ℕ} (token : Lexeme) → Ends k (any_case token)
unfolding any_case
Ends-any_case token = search steps depth 40 fits 20000

Ends-case_of : {k : ℕ} (token : Lexeme) (subject : Subject) → Ends k (case_of token subject)
unfolding case_of
Ends-case_of token any_value = Ends-any_case token
Ends-case_of token option_value = search steps depth 40 fits 20000
Ends-case_of token result_value = search steps depth 40 fits 20000
Ends-case_of token (enum_value ed) = search steps depth 40 fits 20000

Ends-cover :
    {k : ℕ} (token : Lexeme) (v : Option ℕ) (covered : List ℕ) → Ends k (cover token v covered)
unfolding cover
Ends-cover token none covered = search steps
Ends-cover token (some v) covered = search steps depth 40 fits 20000

Ends-has_payload : {k : ℕ} (ed : EnumDef) (v : Option ℕ) → Ends k (has_payload ed v)
Ends-has_payload ed none = search steps
Ends-has_payload ed (some v) = search steps

Ends-check_binding :
    {k : ℕ} (token : Lexeme) (subject : Subject) (c : Case) → Ends k (check_binding token subject c)
unfolding check_binding
Ends-check_binding token any_value c = search steps depth 20
Ends-check_binding token option_value c = search steps depth 20
Ends-check_binding token result_value c = search steps
Ends-check_binding token (enum_value ed) c = search (steps, Ends-has_payload) depth 20

Ends-check_no_binding :
    {k : ℕ} (token : Lexeme) (subject : Subject) (c : Case)
    → Ends k (check_no_binding token subject c)
unfolding check_no_binding
Ends-check_no_binding token any_value c = search steps depth 20
Ends-check_no_binding token option_value c = search steps depth 20
Ends-check_no_binding token result_value c = search steps
Ends-check_no_binding token (enum_value ed) c = search (steps, Ends-has_payload) depth 20

Ends-binding :
    {k : ℕ} (token : Lexeme) (subject : Subject) (c : Case) → Ends k (binding token subject c)
unfolding binding
Ends-binding token subject c =
    search (steps, Ends-check_binding, Ends-check_no_binding) depth 40 fits 20000

Ends-emit_check : {k : ℕ} (subject : Subject) (c : Case) → Ends k (emit_check subject c)
unfolding emit_check
Ends-emit_check any_value c = search steps depth 20
Ends-emit_check option_value c = search steps depth 20
Ends-emit_check result_value c = search steps depth 20
Ends-emit_check (enum_value ed) c = search steps depth 20

Ends-bind_payload :
    {k : ℕ} (type : ℕ) (subject : Subject) (c : Case) (name : Option Lexeme)
    → Ends k (bind_payload type subject c name)
unfolding bind_payload
Ends-bind_payload type subject c none = search steps
Ends-bind_payload type subject c (some name) = search (steps, Ends-add_local) depth 40 fits 20000

Ends-check_exhaustive :
    {k : ℕ} (subject : Subject) (count : ℕ) → Ends k (check_exhaustive subject count)
unfolding check_exhaustive
Ends-check_exhaustive any_value count = search steps
Ends-check_exhaustive option_value count = search steps depth 20
Ends-check_exhaustive result_value count = search steps depth 20
Ends-check_exhaustive (enum_value ed) count = search steps depth 20

-- The room that is left for jumps to the end.
abbrev room : Cases → ℕ
room cases = max_cases - length cases.end_jumps

room_less :
    (jumps : List ℕ) (x : ℕ)
    → ltb (length jumps) max_cases ≡ true
    → max_cases - length (jumps ++ x ∷ []) < max_cases - length jumps
room_less jumps x e = omega (arith, ltb→lt _ _ e, length-append jumps (x ∷ []))

module _ ⦃c : Calls⦄ {k : ℕ} (h : Calling c k) where
  block_ends : Ends k c.block
  block_ends = h.block

  Ends-case_body :
      (type : ℕ) (matched : Option ℕ) (subject : Subject) (here : Case) (name : Option Lexeme)
      → Ends k (case_body type matched subject here name)
  unfolding case_body
  Ends-case_body type matched subject here name =
      search
        (
          steps, block_ends, Ends-emit_check, Ends-emit_jump, Ends-guarded_local, Ends-set_guard,
          Ends-bind_payload, Ends-type_pop, Ends-patch_here,
        )
        depth 60 fits 40000

  Fills-case_turn :
      (type : ℕ) (matched : Option ℕ) (subject : Subject) (cases : Cases)
      → Fills k room (room cases) (case_turn type matched subject cases)
  unfolding case_turn
  Fills-case_turn type matched subject cases = Fills-bind room _ _ _ (search steps) (λ more.
      Fills-if room _ more _ _
        (Fills-bind room _ _ _ Ends-get (λ s. Fills-bind room _ _ _ (search steps) (λ u.
          Fills-bind room _ _ _ (Ends-case_of _ subject) (λ here.
            Fills-bind room _ _ _ (Ends-cover _ _ _) (λ covered.
              Fills-bind room _ _ _ (Ends-binding _ subject here) (λ name.
                Fills-demand room _ _ _ (λ e.
                  Fills-bind room _ _ _ (Ends-case_body type matched subject here name)
                    (λ jump. Fills-again room _ _ (room_less _ _ e)))))))))
        (Fills-finish room _ cases))

  cases_end :
      (type : ℕ) (matched : Option ℕ) (subject : Subject) (cases : Cases)
      → Ends k (iterate c.rounds (case_turn type matched subject) cases)
  cases_end type matched subject cases =
      Ends-Fills c.rounds (case_turn type matched subject) room cases (omega (arith, h.rounds))
        (Fills-case_turn type matched subject)

  pub Ends-match_statement : Ends k match_statement
  unfolding match_statement
  Ends-match_statement =
      search
        (
          steps, h.precedence, cases_end, Ends-type_pop, Ends-type_push, Ends-subject_of,
          Ends-check_exhaustive, Ends-patch_all,
        )
        depth 60 fits 40000
