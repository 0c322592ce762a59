-- ===== src/Database/Quoting.antt =====
-- What a server reads from a statement that QueryStatement.cpp:32-56 put together.
use graduation_server.Common.{
  ℕ, zero, suc, ◌+◌, ◌≤◌, ◌≡◌, ◌≢◌, refl, sym, ap, ◌∙◌, Option, none, some, List, [], ◌∷◌, ◌++◌,
  append-nil, append_assoc, arith, length, take, length-append, All, ◌==◌, ==_ne, if◌then◌else◌,
}
use graduation_server.Database.{
  QueryType, QueryStatement, set_query, separator, quoted, add_arg, add_params,
}

-- A text without a quote that the buffer of a parameter has room for.
pub record IsPlain (value : List ℕ) : Type 0 where
  pub no_quote : All (λ c. c ≢ 39) value
  pub short : length value + 2 ≤ 8191

-- The text behind a prefix.
abbrev pub strip : List ℕ → List ℕ → Option (List ℕ)
strip [] text = some text
strip (p ∷ ps) [] = none
strip (p ∷ ps) (c ∷ cs) = let rest = strip ps cs in if p == c then rest else none

-- A literal up to the quote that ends it, and the text behind that.
abbrev pub literal : List ℕ → Option (List ℕ × List ℕ)
literal [] = none
literal (c ∷ cs) =
    let rest = literal cs in
    if c == 39
    then some ([], cs)
    else elim rest [ none ↦ none | some (value, more) ↦ some (c ∷ value, more) ]

-- `n` arguments, of which `count` come before, up to the end of the text.
abbrev pub read_arguments : ℕ → ℕ → List ℕ → Option (List (List ℕ))
read_arguments zero count [] = some []
read_arguments zero count (c ∷ cs) = none
read_arguments (suc n) count text = elim (strip (separator count ++ (39 ∷ [])) text) [
  | none ↦ none
  | some opened ↦ elim (literal opened) [
    | none ↦ none
    | some (value, more) ↦ elim (read_arguments n (count + 1) more) [
      | none ↦ none
      | some values ↦ some (value ∷ values)
    ]
  ]
]

strip-append : (ps text : List ℕ) → strip ps (ps ++ text) ≡ some text
strip-append [] text = refl
strip-append (p ∷ ps) text = ground (arith, strip-append ps text)

literal-append :
    (value more : List ℕ)
    → All (λ c. c ≢ 39) value
    → literal (value ++ (39 ∷ more)) ≡ some (value, more)
literal-append [] more h = refl
literal-append (c ∷ cs) more h = ground (arith, ==_ne c 39 (h.0), literal-append cs more (h.1))

take-all : (n : ℕ) (xs : List ℕ) → length xs ≤ n → take n xs ≡ xs
take-all zero [] h = refl
take-all zero (x ∷ xs) h = absurd (omega arith)
take-all (suc n) [] h = refl
take-all (suc n) (x ∷ xs) h = ap (λ t. x ∷ t) (take-all n xs (omega arith))

quoted_whole : (value : List ℕ) → length value + 2 ≤ 8191 → quoted value ≡ 39 ∷ (value ++ (39 ∷ []))
quoted_whole value h =
    take-all 8191 (39 ∷ (value ++ (39 ∷ []))) (omega (arith, h, length-append value (39 ∷ [])))

-- The text that parameters add behind `count` others.
arguments : ℕ → List (List ℕ) → List ℕ
arguments count [] = []
arguments count (value ∷ more) =
    separator count ++ (39 ∷ (value ++ (39 ∷ arguments (count + 1) more)))

joined :
    (query front value more : List ℕ)
    → (query ++ (front ++ (39 ∷ (value ++ (39 ∷ []))))) ++ more
      ≡ query ++ (front ++ (39 ∷ (value ++ (39 ∷ more))))
joined query front value more = simp (append_assoc)

query-add_params :
    (values : List (List ℕ)) (s : QueryStatement)
    → All IsPlain values
    → (add_params values s).query ≡ s.query ++ arguments s.param_count values
unfolding add_params arguments add_arg
query-add_params [] s h = sym (append-nil s.query)
query-add_params (value ∷ more) s h =
    query-add_params more (add_arg value s) (h.1)
    ∙ ap (λ t. (s.query ++ (separator s.param_count ++ t)) ++ arguments (s.param_count + 1) more)
        (quoted_whole value (h.0.short))
    ∙ joined s.query (separator s.param_count) value (arguments (s.param_count + 1) more)

read_arguments-arguments :
    (count : ℕ) (values : List (List ℕ))
    → All IsPlain values
    → read_arguments (length values) count (arguments count values) ≡ some values
unfolding arguments
read_arguments-arguments count [] h = refl
read_arguments-arguments count (value ∷ more) h =
    let rest = arguments (count + 1) more in
    let opened : strip (separator count ++ (39 ∷ []))
          (separator count ++ (39 ∷ (value ++ (39 ∷ rest))))
        ≡ some (value ++ (39 ∷ rest)) =
      ap (strip (separator count ++ (39 ∷ [])))
        (sym (append_assoc (separator count) (39 ∷ []) (value ++ (39 ∷ rest))))
      ∙ strip-append (separator count ++ (39 ∷ [])) (value ++ (39 ∷ rest)) in
    rw
      (
        read_arguments,
        opened,
        literal-append value rest (h.0.no_quote),
        read_arguments-arguments (count + 1) more (h.1),
      )
      refl

-- The name of the procedure, and the values of `n` arguments.
abbrev pub read_statement : List ℕ → ℕ → List ℕ → Option (List (List ℕ))
read_statement procedure n text = elim (strip procedure text) [
  | none ↦ none
  | some rest ↦ read_arguments n 0 rest
]

-- A statement whose values have no quote and fit a parameter's buffer is read as the procedure's name and
-- exactly these values, in order.
pub read_statement-add_params :
    (procedure : List ℕ) (type : QueryType) (values : List (List ℕ))
    → All IsPlain values
    → read_statement procedure (length values) (add_params values (set_query procedure type)).query
      ≡ some values
read_statement-add_params procedure type values h =
    rw
      (
        query-add_params values (set_query procedure type) h,
        read_statement,
        strip-append procedure (arguments 0 values),
      )
      (read_arguments-arguments 0 values h)

-- A quote in a value ends its literal: a value that holds the text between two parameters gives the
-- statement of the two values on its sides, one parameter more. The values are short enough for the
-- buffer of a parameter together.
pub query-add_params_split :
    (procedure : List ℕ) (type : QueryType) (a b : List ℕ)
    → length a + length b + 6 ≤ 8191
    → (add_params ((a ++ (39 ∷ (44 ∷ (32 ∷ (39 ∷ b))))) ∷ []) (set_query procedure type)).query
      ≡ (add_params (a ∷ (b ∷ [])) (set_query procedure type)).query
unfolding add_params add_arg
query-add_params_split procedure type a b h =
    let whole =
      quoted_whole (a ++ (39 ∷ (44 ∷ (32 ∷ (39 ∷ b)))))
        (omega (arith, length-append a (39 ∷ (44 ∷ (32 ∷ (39 ∷ b)))))) in
    rw (whole, quoted_whole a (omega arith), quoted_whole b (omega arith)) simp (append_assoc)
