-- ===== src/Sorting/AttrNames.antt =====
-- `set_schema_sort_attr` of a2/library.cc: the names that are looked up.
use database_assignments.Base.{
  ℕ, zero, suc, ◌+◌, ◌≡◌, ◌≢◌, refl, sym, ap, subst, ◌∙◌, ◌⊎◌, inl, inr, true, Option, none, some,
  List, [], ◌∷◌, ◌++◌, arith, Run, ok, stop, ok_injective, exit_failure, ◌>>=◌, ◌==◌, Bool-cases,
  Option-cases, get_elem?,
}
use mathlib.Core.List.{append_assoc, append-nil}
use database_assignments.CString.{characters, tokens, split_tokens, finish_token}
use database_assignments.Sorting.{
  Attribute, Schema, equal_bytes, find_attr, push_sort_attrs, set_schema_sort_attr,
}

pub equal_bytes-eq : (a b : List ℕ) → equal_bytes a b ≡ true → a ≡ b
unfolding equal_bytes
equal_bytes-eq [] [] h = refl
equal_bytes-eq [] (d ∷ b) h = cc
equal_bytes-eq (c ∷ a) [] h = cc
equal_bytes-eq (c ∷ a) (d ∷ b) h = ground (arith, equal_bytes-eq a b)

pub equal_bytes_refl : (a : List ℕ) → equal_bytes a a ≡ true
unfolding equal_bytes
equal_bytes_refl [] = refl
equal_bytes_refl (c ∷ a) = ground (arith, equal_bytes_refl a)

-- A token holds a name, which is that of the attribute with the index.
abbrev pub Names : List Attribute → ℕ → List ℕ → Type 0
Names attrs i token =
    (attr : Attribute) × (get_elem? attrs i ≡ some attr) × (characters token ≡ ok attr.name)

abbrev pub NamesAll : List Attribute → List ℕ → List (List ℕ) → Type 0
NamesAll attrs [] [] = Unit
NamesAll attrs [] (t ∷ ts) = ⊥
NamesAll attrs (i ∷ is) [] = ⊥
NamesAll attrs (i ∷ is) (t ∷ ts) = Names attrs i t × NamesAll attrs is ts

-- One of the tokens is no attribute's name.
abbrev pub HasUnknown : List Attribute → List (List ℕ) → Type 0
HasUnknown attrs [] = ⊥
HasUnknown attrs (t ∷ ts) = ((i : ℕ) → Names attrs i t → ⊥) ⊎ HasUnknown attrs ts

-- Each token is a string.
abbrev AreStrings : List (List ℕ) → Type 0
AreStrings [] = Unit
AreStrings (t ∷ ts) = ((name : List ℕ) × (characters t ≡ ok name)) × AreStrings ts

characters-behind : (s : List ℕ) → (name : List ℕ) × (characters (s ++ 0 ∷ []) ≡ ok name)
unfolding characters
characters-behind [] = ([], refl)
characters-behind (c ∷ s) =
    let (name, e) = characters-behind s in
    elim (Bool-cases (c == 0)) [ inl h ↦ ([], rw h refl) | inr h ↦ (c ∷ name, rw (h, e) refl) ]

finish_token-AreStrings :
    (t : List ℕ) (ts : List (List ℕ)) → AreStrings ts → AreStrings (finish_token t ts)
finish_token-AreStrings [] ts h = h
finish_token-AreStrings (c ∷ t) ts h = (characters-behind (c ∷ t), h)

split_tokens-AreStrings : (s : List ℕ) → AreStrings ((split_tokens s).1)
unfolding split_tokens
split_tokens-AreStrings [] = tt
split_tokens-AreStrings (c ∷ s) =
    let rest = split_tokens-AreStrings s in
    elim (Bool-cases (c == 0)) [
      | inl h ↦ rw h tt
      | inr h ↦ elim (Bool-cases (c == 44)) [
        | inl g ↦ rw (h, g) (finish_token-AreStrings (split_tokens s).0 (split_tokens s).1 rest)
        | inr g ↦ rw (h, g) rest
      ]
    ]

-- The index that a name is found at, and an attribute for it; the index counts from `i`.
module _ (name : List ℕ) where
  abbrev Found : ℕ → List Attribute → ℕ → Type 0
  Found i attrs k =
      (j : ℕ) × (k ≡ i + j)
      × (attr : Attribute) × (get_elem? attrs j ≡ some attr)
      × (name ≡ attr.name)

  find_attr-Found :
      (i : ℕ) (attrs : List Attribute) (k : ℕ) → find_attr i name attrs ≡ some k → Found i attrs k
  unfolding find_attr
  find_attr-Found i [] k h = cc
  find_attr-Found i (attr ∷ attrs) k h = elim (Bool-cases (equal_bytes name attr.name)) [
    | inl e ↦
        let at : i ≡ k = ap (λ o. elim o [ none ↦ i | some u ↦ u ]) (rw e at h) in
        (0, omega arith, attr, refl, equal_bytes-eq name attr.name e)
    | inr e ↦
        let (j, at, attr', there, same) = find_attr-Found (i + 1) attrs k (rw e at h) in
        (suc j, omega (arith, at), attr', there, same)
  ]

  find_attr-none :
      (i : ℕ) (attrs : List Attribute) (j : ℕ) (attr : Attribute)
      → find_attr i name attrs ≡ none
      → get_elem? attrs j ≡ some attr
      → name ≢ attr.name
  unfolding find_attr
  find_attr-none i [] j attr h g = cc
  find_attr-none i (a ∷ attrs) zero attr h g = λ e.
      let this : equal_bytes name a.name ≡ true =
        ap (equal_bytes name) (ap (λ o. elim o [ none ↦ name | some w ↦ w.name ]) g ∙ sym e)
        ∙ equal_bytes_refl name in
      absurd (cc (rw this at h))
  find_attr-none i (a ∷ attrs) (suc j) attr h g = elim (Bool-cases (equal_bytes name a.name)) [
    | inl e ↦ absurd (cc (rw e at h))
    | inr e ↦ find_attr-none (i + 1) attrs j attr (rw e at h) g
  ]

-- The indices of the attributes that the tokens name, or an unknown name.
abbrev pub Outcome : Run Schema → Schema → List (List ℕ) → Type 0
Outcome result schema ts =
    ((is : List ℕ) × (result ≡ ok (record schema { sort_attrs = schema.sort_attrs ++ is }))
      × NamesAll schema.attrs is ts)
    ⊎ ((result ≡ stop exit_failure) × HasUnknown schema.attrs ts)

-- What is done with the first token, once its attribute is looked up.
abbrev push_index : List (List ℕ) → Schema → Option ℕ → Run Schema
push_index ts schema none = stop exit_failure
push_index ts schema (some i) =
    push_sort_attrs ts (record schema { sort_attrs = schema.sort_attrs ++ i ∷ [] })

push_sort_attrs-push_index :
    (t : List ℕ) (ts : List (List ℕ)) (schema : Schema) (name : List ℕ) (found : Option ℕ)
    → characters t ≡ ok name
    → find_attr 0 name schema.attrs ≡ found
    → push_sort_attrs (t ∷ ts) schema ≡ push_index ts schema found
unfolding push_sort_attrs
push_sort_attrs-push_index t ts schema name found e w =
    ap
      (λ r. r >>= λ n. elim (find_attr 0 n schema.attrs) [
        | none ↦ stop exit_failure
        | some i ↦ push_sort_attrs ts (record schema { sort_attrs = schema.sort_attrs ++ i ∷ [] })
      ])
      e
    ∙ ap
        (λ o. elim o [
          | none ↦ stop exit_failure
          | some i ↦ push_sort_attrs ts (record schema { sort_attrs = schema.sort_attrs ++ i ∷ [] })
        ])
        w
    ∙ opened found
  where
    opened :
        (o : Option ℕ)
        → (elim o [
          | none ↦ stop exit_failure
          | some i ↦ push_sort_attrs ts (record schema { sort_attrs = schema.sort_attrs ++ i ∷ [] })
        ])
          ≡ push_index ts schema o
    opened none = refl
    opened (some i) = refl

push_sort_attrs-Outcome :
    (ts : List (List ℕ)) (schema : Schema)
    → AreStrings ts
    → Outcome (push_sort_attrs ts schema) schema ts
unfolding push_sort_attrs
push_sort_attrs-Outcome [] schema h =
    inl
      ([], ap (λ l. ok (record schema { sort_attrs = l })) (sym (append-nil schema.sort_attrs)), tt)
push_sort_attrs-Outcome (t ∷ ts) schema ((name, e), h) =
    elim (Option-cases (find_attr 0 name schema.attrs)) [
      | inl w ↦ inr (
        push_sort_attrs-push_index t ts schema name none e w,
        inl (λ i (attr, there, named).
            find_attr-none name 0 schema.attrs i attr w there (ok_injective (sym e ∙ named))),
      )
      | inr (k, w) ↦
          let (j, at, attr, there, same) = find_attr-Found name 0 schema.attrs k w in
          let named : Names schema.attrs k t = (
            attr,
            subst (λ i. get_elem? schema.attrs i ≡ some attr) (omega (arith, at)) there,
            e ∙ ap ok same,
          ) in
          elim (push_sort_attrs-Outcome ts
            (record schema { sort_attrs = schema.sort_attrs ++ k ∷ [] }) h) [
              | inl (is, pushed, all) ↦ inl (
                k ∷ is,
                push_sort_attrs-push_index t ts schema name (some k) e w
                    ∙ pushed
                    ∙ ap (λ l. ok (record schema { sort_attrs = l }))
                        (append_assoc schema.sort_attrs (k ∷ []) is),
                (named, all),
              )
              | inr (stopped, unknown) ↦
                  inr (
                    push_sort_attrs-push_index t ts schema name (some k) e w ∙ stopped,
                    inr unknown,
                  )
            ]
    ]

-- set_schema_sort_attr adds the indices of the attributes that the tokens name, in their order, or
-- exits because a token is no attribute's name.
pub set_schema_sort_attr-Outcome :
    (schema : Schema) (text : List ℕ)
    → Outcome (set_schema_sort_attr schema text) schema (tokens text)
unfolding set_schema_sort_attr tokens
set_schema_sort_attr-Outcome schema text = push_sort_attrs-Outcome (tokens text) schema (
    finish_token-AreStrings (split_tokens text).0 (split_tokens text).1
      (split_tokens-AreStrings text))
