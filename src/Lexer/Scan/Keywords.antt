-- ===== src/Lexer/Scan/Keywords.antt =====
-- The keyword switch of src/lexer.c against the table of keywords in src/lexer.h.
use opo.Base.{
  ℕ, ◌≡◌, ◌≢◌, refl, ◌∙◌, false, ◌&&◌, ◌==◌, if◌then◌else◌, List, [], ◌∷◌, get_or, length, take,
  arith, codes, bytes_eq, ℕ_discrete, subst, sym,
}
use opo.Lexer.Scan.{
  check_keyword, keyword_t, keyword_s, keyword_c, keyword_e, keyword_switch, identifier_type,
}
use opo.Lexer.{
  TokenType, bool, id, struct, enum, match, some, none, ok, err, type_, as_, pub_, imp, try, catch,
  throw, go, chan, eof,
}

-- The reserved words of the language, each with its token.
abbrev pub keywords : List (List ℕ × TokenType)
keywords =
    (codes "tru", bool)
    ∷ (codes "fls", bool)
    ∷ (codes "struct", struct)
    ∷ (codes "enum", enum)
    ∷ (codes "match", match)
    ∷ (codes "some", some)
    ∷ (codes "none", none)
    ∷ (codes "ok", ok)
    ∷ (codes "err", err)
    ∷ (codes "type", type_)
    ∷ (codes "as", as_)
    ∷ (codes "pub", pub_)
    ∷ (codes "imp", imp)
    ∷ (codes "try", try)
    ∷ (codes "catch", catch)
    ∷ (codes "throw", throw)
    ∷ (codes "go", go)
    ∷ (codes "chan", chan)
    ∷ []

-- The token of a word: its entry in a table, or an identifier.
abbrev pub word_type : List (List ℕ × TokenType) → List ℕ → TokenType
word_type [] text = id
word_type ((word, t) ∷ rest) text = if bytes_eq text word then t else word_type rest text

-- Comparing a prefix of the right length is comparing the whole.
bytes_eq-take :
    (text word : List ℕ)
    → (length text == length word && bytes_eq (take (length word) text) word) ≡ bytes_eq text word
unfolding bytes_eq
bytes_eq-take [] [] = refl
bytes_eq-take [] (y ∷ word) = ground arith
bytes_eq-take (x ∷ text) [] = ground arith
bytes_eq-take (x ∷ text) (y ∷ word) = ground (arith, bytes_eq-take text word)

check_keyword_one :
    (c : ℕ) (cs word : List ℕ) (t : TokenType)
    → check_keyword (c ∷ cs) 1 (length word) word t ≡ (if bytes_eq cs word then t else id)
unfolding check_keyword
check_keyword_one c cs word t = ground (arith, bytes_eq-take cs word)

check_keyword_two :
    (c d : ℕ) (cs word : List ℕ) (t : TokenType)
    → check_keyword (c ∷ d ∷ cs) 2 (length word) word t ≡ (if bytes_eq cs word then t else id)
unfolding check_keyword
check_keyword_two c d cs word t = ground (arith, bytes_eq-take cs word)

-- A test on the only byte left.
one_byte :
    (c d : ℕ) (cs : List ℕ) (b : ℕ)
    → (length (c ∷ d ∷ cs) == 3 && get_or cs 0 0 == b) ≡ bytes_eq cs (b ∷ [])
unfolding bytes_eq
one_byte c d [] b = ground arith
one_byte c d (e ∷ []) b = ground arith
one_byte c d (e ∷ f ∷ cs) b = ground arith

module _ (c d : ℕ) (cs : List ℕ) where
  keyword_t_lem : keyword_t (c ∷ d ∷ cs) ≡ (
      if d == b'r'
      then if bytes_eq cs (codes "u") then bool else if bytes_eq cs (codes "y") then try else id
      else if d == b'y'
      then if bytes_eq cs (codes "pe") then type_ else id
      else if d == b'h'
      then if bytes_eq cs (codes "row") then throw else id
      else id)
  unfolding keyword_t
  keyword_t_lem = ground (
    arith,
    one_byte c d cs b'u',
    one_byte c d cs b'y',
    check_keyword_two c d cs (codes "pe") type_,
    check_keyword_two c d cs (codes "row") throw,
  )

  keyword_s_lem : keyword_s (c ∷ d ∷ cs) ≡ (
      if d == b't'
      then if bytes_eq cs (codes "ruct") then struct else id
      else if d == b'o'
      then if bytes_eq cs (codes "me") then some else id
      else id)
  unfolding keyword_s
  keyword_s_lem = ground (
    arith,
    check_keyword_two c d cs (codes "ruct") struct,
    check_keyword_two c d cs (codes "me") some,
  )

  keyword_c_lem : keyword_c (c ∷ d ∷ cs) ≡ (
      if d == b'a'
      then if bytes_eq cs (codes "tch") then catch else id
      else if d == b'h'
      then if bytes_eq cs (codes "an") then chan else id
      else id)
  unfolding keyword_c
  keyword_c_lem = ground (
    arith,
    check_keyword_two c d cs (codes "tch") catch,
    check_keyword_two c d cs (codes "an") chan,
  )

  keyword_e_lem : keyword_e (c ∷ d ∷ cs) ≡ (
      if d == b'n'
      then if bytes_eq cs (codes "um") then enum else id
      else if d == b'r'
      then if bytes_eq cs (codes "r") then err else id
      else id)
  unfolding keyword_e
  keyword_e_lem =
      ground (
        arith,
        check_keyword_two c d cs (codes "um") enum,
        check_keyword_two c d cs (codes "r") err,
      )

-- To settle a number by trying a value.
on_value {ℓ} : (P : ℕ → Type ℓ) (k c : ℕ) → P k → (c ≢ k → P c) → P c
on_value P k c at_k others = elim (ℕ_discrete c k) [
  | yes e ↦ subst P (sym e) at_k
  | no n ↦ others n
]

module _ (d : ℕ) (cs : List ℕ) where
  abbrev Agrees : ℕ → Type 0
  Agrees c = keyword_switch (c ∷ d ∷ cs) ≡ word_type keywords (c ∷ d ∷ cs)

  -- A word of two bytes or more, by its first byte.
  keyword_switch_two : (c : ℕ) → Agrees c
  unfolding keyword_switch bytes_eq
  keyword_switch_two c = on_value Agrees b't' c (ground (arith, keyword_t_lem b't' d cs)) λ not_t.
      on_value Agrees b'f' c (ground (arith, check_keyword_one b'f' (d ∷ cs) (codes "ls") bool))
        λ not_f. on_value Agrees b's' c (ground (arith, keyword_s_lem b's' d cs)) λ not_s.
          on_value Agrees b'p' c (ground (arith, check_keyword_one b'p' (d ∷ cs) (codes "ub") pub_))
            λ not_p.
              on_value Agrees b'i' c
                (ground (arith, check_keyword_one b'i' (d ∷ cs) (codes "mp") imp))
                λ not_i.
                  on_value Agrees b'g' c
                    (ground (arith, check_keyword_one b'g' (d ∷ cs) (codes "o") go))
                    λ not_g.
                      on_value Agrees b'c' c (ground (arith, keyword_c_lem b'c' d cs)) λ not_c.
                        on_value Agrees b'e' c (ground (arith, keyword_e_lem b'e' d cs)) λ not_e.
                          on_value Agrees b'a' c
                            (ground (arith, check_keyword_one b'a' (d ∷ cs) (codes "s") as_))
                            λ not_a.
                              on_value Agrees b'm' c
                                (ground
                                  (arith, check_keyword_one b'm' (d ∷ cs) (codes "atch") match))
                                λ not_m.
                                  on_value Agrees b'n' c
                                    (ground
                                      (arith, check_keyword_one b'n' (d ∷ cs) (codes "one") none))
                                    λ not_n.
                                      on_value Agrees b'o' c
                                        (ground
                                          (arith, check_keyword_one b'o' (d ∷ cs) (codes "k") ok))
                                        λ not_o. ground arith

-- A word of one byte is no keyword.
keyword_switch_one : (c : ℕ) → keyword_switch (c ∷ []) ≡ id
unfolding keyword_switch keyword_t keyword_s keyword_c keyword_e check_keyword
keyword_switch_one c = ground arith

bytes_eq_short : (c x y : ℕ) (w : List ℕ) → bytes_eq (c ∷ []) (x ∷ y ∷ w) ≡ false
unfolding bytes_eq
bytes_eq_short c x y w = ground arith

word_type_one : (c : ℕ) → word_type keywords (c ∷ []) ≡ id
word_type_one c = simp bytes_eq_short

-- The nested switch on the bytes of a word finds exactly the words of the table, each with its
-- token; every other word is an identifier.
pub identifier_type-table : (text : List ℕ) → identifier_type text ≡ word_type keywords text
unfolding identifier_type
identifier_type-table [] = unfold bytes_eq in refl
identifier_type-table (c ∷ []) = keyword_switch_one c ∙ sym (word_type_one c)
identifier_type-table (c ∷ d ∷ cs) = keyword_switch_two d cs c

-- No word is the end of file.
pub identifier_type-ne-eof : (text : List ℕ) → identifier_type text ≢ eof
identifier_type-ne-eof text = rw identifier_type-table (ground arith)
