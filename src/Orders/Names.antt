-- ===== src/Orders/Names.antt =====
-- What `_normalize_kwargs` makes of the two spellings of a keyword.
use auto_test_poc.Base.{
  ℕ, ◌+◌, leb, ap, ◌≡◌, refl, ◌∙◌, Bool, true, false, not, ◌&&◌, List, [], ◌∷◌, Option, none, some,
  or_else, if◌then◌else◌, arith, Bool-cases, Option-cases, inl, inr, is_some,
}
use auto_test_poc.Py.Text.{Text, codes, text_eq, text_eq_iff, text_eq_refl, text_eq-eq}
use auto_test_poc.Py.Dict.{Dict, lookup, lookup-insert}
use auto_test_poc.Orders.Kwargs.{mapping, copy_alias, copy_aliases, normalize_kwargs}

-- The camelCase spelling of a keyword.
abbrev pub camel_of : List (Text × Text) → Text → Option Text
camel_of [] k = none
camel_of ((camel, snake) ∷ table) k =
    let rest = camel_of table k in if text_eq k snake then some camel else rest

-- What `d` has under the camelCase spelling.
abbrev pub aliased : {V : Type 0} → Option Text → Dict V → Option V
aliased none d = none
aliased (some camel) d = lookup camel d

abbrev fresh : Text → List (Text × Text) → Bool
fresh k [] = true
fresh k ((camel, snake) ∷ table) = not (text_eq camel k) && not (text_eq k snake) && fresh k table

-- No snake_case name is a camelCase name further down, and none comes twice.
abbrev separate : List (Text × Text) → Bool
separate [] = true
separate ((camel, snake) ∷ table) = fresh snake table && not (text_eq camel snake) && separate table

fresh-camel :
    (k : Text) (table : List (Text × Text)) (j camel : Text)
    → fresh k table ≡ true
    → camel_of table j ≡ some camel
    → text_eq camel k ≡ false
fresh-camel k [] j camel h e = ground arith
fresh-camel k ((c, s) ∷ table) j camel h e = elim (Bool-cases (text_eq j s)) [
  | inl same ↦ ground (arith, same)
  | inr other ↦ fresh-camel k table j camel (ground arith) (ground (arith, other))
]

fresh-snake :
    (k : Text) (table : List (Text × Text)) → fresh k table ≡ true → camel_of table k ≡ none
fresh-snake k [] h = refl
fresh-snake k ((c, s) ∷ table) h = ground (arith, fresh-snake k table)

module _ {V : Type 0} where
  lookup-copy_alias :
      (j camel snake : Text) (d : Dict V)
      → lookup j (copy_alias camel snake d)
        ≡ (if text_eq j snake then or_else (lookup snake d) (lookup camel d) else lookup j d)
  unfolding copy_alias
  lookup-copy_alias j camel snake d = elim (Option-cases (lookup camel d)) [
    | inl e ↦ rw (e, copy_alias) (ground (arith, text_eq_iff j snake))
    | inr (v, e) ↦ elim (Option-cases (lookup snake d)) [
      | inl f ↦ rw (e, f, copy_alias) (lookup-insert j snake v d)
      | inr (w, f) ↦ rw (e, f, copy_alias) (ground (arith, text_eq_iff j snake))
    ]
  ]

  aliased-copy_alias :
      (table : List (Text × Text)) (j camel snake : Text) (d : Dict V)
      → fresh snake table ≡ true
      → aliased (camel_of table j) (copy_alias camel snake d) ≡ aliased (camel_of table j) d
  aliased-copy_alias table j camel snake d h = elim (Option-cases (camel_of table j)) [
    | inl e ↦ rw e refl
    | inr (c, e) ↦ rw (e, lookup-copy_alias c camel snake d, fresh-camel snake table j c h e) refl
  ]

  or_else-none : (o : Option V) → or_else o none ≡ o
  or_else-none none = refl
  or_else-none (some v) = refl

  lookup-copy_aliases :
      (j : Text) (table : List (Text × Text)) (d : Dict V)
      → separate table ≡ true
      → lookup j (copy_aliases table d) ≡ or_else (lookup j d) (aliased (camel_of table j) d)
  lookup-copy_aliases j [] d h = elim (Option-cases (lookup j d)) [
    | inl e ↦ rw e refl
    | inr (v, e) ↦ rw e refl
  ]
  lookup-copy_aliases j ((camel, snake) ∷ table) d h =
      lookup-copy_aliases j table (copy_alias camel snake d) (ground arith)
      ∙ elim (Bool-cases (text_eq j snake)) [
        | inl same ↦
            rw
              (
                text_eq-eq j snake same,
                text_eq_refl snake,
                lookup-copy_alias snake camel snake d,
                text_eq_refl snake,
                fresh-snake snake table (ground arith),
              )
              (or_else-none (or_else (lookup snake d) (lookup camel d)))
        | inr other ↦
            rw
              (
                lookup-copy_alias j camel snake d,
                other,
                aliased-copy_alias table j camel snake d (ground arith),
              )
              refl
      ]

-- No camelCase name of `table` is a snake_case name of `whole`.
abbrev chainless : List (Text × Text) → List (Text × Text) → Bool
chainless whole [] = true
chainless whole ((camel, snake) ∷ table) =
    not (is_some (camel_of whole camel)) && chainless whole table

camel_of-chainless :
    (whole table : List (Text × Text)) (j camel : Text)
    → chainless whole table ≡ true
    → camel_of table j ≡ some camel
    → camel_of whole camel ≡ none
camel_of-chainless whole [] j camel h e = ground arith
camel_of-chainless whole ((c, s) ∷ table) j camel h e = elim (Bool-cases (text_eq j s)) [
  | inl same ↦ elim (Option-cases (camel_of whole c)) [
    | inl f ↦ ground (arith, same, f)
    | inr (x, f) ↦ ground (arith, same, f)
  ]
  | inr other ↦ camel_of-chainless whole table j camel (ground arith) (ground (arith, other))
]

-- The spelling of a camelCase name in snake_case: a capital becomes a small letter, and gets an underscore
-- in front where no capital stands before it.
abbrev is_capital : ℕ → Bool
is_capital c = leb b'A' c && leb c b'Z'

abbrev pub snake_from : Bool → Text → Text
snake_from after_capital [] = []
snake_from after_capital (c ∷ s) =
    let rest = snake_from (is_capital c) s in
    if is_capital c
    then (if after_capital then (c + 32) ∷ rest else b'_' ∷ (c + 32) ∷ rest)
    else c ∷ rest

abbrev pub snake_case : Text → Text
snake_case = snake_from false

-- The camelCase names, each with its spelling in snake_case.
abbrev pub spelled : List Text → List (Text × Text)
spelled [] = []
spelled (camel ∷ camels) = (camel, snake_case camel) ∷ spelled camels

abbrev pub camel_names : List Text
camel_names =
    codes "orderQty"
    ∷ codes "execQty"
    ∷ codes "orderPrice"
    ∷ codes "clOrdID"
    ∷ codes "destClOrdID"
    ∷ codes "orderID2"
    ∷ codes "timeInForce"
    ∷ codes "clientID"
    ∷ codes "accountID"
    ∷ codes "orderStatus"
    ∷ codes "dOrderQty"
    ∷ codes "dOrderPrice"
    ∷ codes "execPrice"
    ∷ codes "execID2"
    ∷ codes "transactTime"
    ∷ codes "tradeDate"
    ∷ []

mapping-spelled : mapping ≡ spelled camel_names
mapping-spelled = refl

-- After normalization a keyword has its own value; and else, where it is the spelling in snake_case of one
-- of the sixteen camelCase names, what the keyword of that name has; and else none.
pub lookup-normalize_kwargs :
    {V : Type 0} (j : Text) (kwargs : Dict V)
    → lookup j (normalize_kwargs kwargs)
      ≡ or_else (lookup j kwargs) (aliased (camel_of (spelled camel_names) j) kwargs)
unfolding normalize_kwargs
lookup-normalize_kwargs j kwargs =
    lookup-copy_aliases j mapping kwargs refl
    ∙ ap (λ table. or_else (lookup j kwargs) (aliased (camel_of table j) kwargs)) mapping-spelled

or_else-again : {V : Type 0} (o p : Option V) → or_else (or_else o p) p ≡ or_else o p
or_else-again none none = refl
or_else-again none (some v) = refl
or_else-again (some v) p = refl

aliased-normalize_kwargs :
    {V : Type 0} (j : Text) (kwargs : Dict V)
    → aliased (camel_of mapping j) (normalize_kwargs kwargs) ≡ aliased (camel_of mapping j) kwargs
aliased-normalize_kwargs j kwargs = elim (Option-cases (camel_of mapping j)) [
  | inl e ↦ rw e refl
  | inr (camel, e) ↦
      rw
        (e, lookup-normalize_kwargs camel kwargs, camel_of-chainless mapping mapping j camel refl e)
        (or_else-none (lookup camel kwargs))
]

-- A second normalization changes no keyword: each handler may normalize what its caller has normalized.
pub normalize_kwargs-again :
    {V : Type 0} (j : Text) (kwargs : Dict V)
    → lookup j (normalize_kwargs (normalize_kwargs kwargs)) ≡ lookup j (normalize_kwargs kwargs)
normalize_kwargs-again j kwargs =
    rw
      (
        lookup-normalize_kwargs j (normalize_kwargs kwargs),
        aliased-normalize_kwargs j kwargs,
        lookup-normalize_kwargs j kwargs,
      )
      (or_else-again (lookup j kwargs) (aliased (camel_of mapping j) kwargs))
