-- ===== src/Worker/Vault/Subtree.antt =====
-- The tree of an item, as `SUBTREE` finds it: what lies in a folder of it is in it.
use sendself.Base.{
  list_cases, ℕ, zero, suc, ◌≤◌, ◌<◌, Bool, true, false, not, ◌&&◌, ◌≡◌, refl, sym, ap, ◌∙◌, subst,
  inl, inr, some, List, [], ◌∷◌, ◌++◌, Text, str_eq, str_eq_iff, str_eq_refl, any, any-append,
  any-find, find-true, filter, map, length, count, count-le-length, contains, Bool-cases, and-true,
  arith,
}
use sendself.Worker.Vault.{VaultRow, row_id, row_of, is_under, is_new_child, tree_rounds, subtree}

head_inj : {a b : Text} {as' bs : List Text} → a ∷ as' ≡ b ∷ bs → a ≡ b
head_inj {a} e = ap (λ l. elim l [ [] ↦ a | x ∷ xs ↦ x ]) e

abbrev is_out : List Text → VaultRow → Bool
is_out tree r = not (contains (row_id r) tree)

abbrev children : List Text → List VaultRow → List Text
children tree rows = map row_id (filter (is_new_child tree) rows)

no_children :
    (tree : List Text) (rows : List VaultRow)
    → children tree rows ≡ []
    → any (is_new_child tree) rows ≡ false
no_children tree [] h = refl
no_children tree (r ∷ rs) h = elim (Bool-cases (is_new_child tree r)) [
  | inl e ↦ cc (rw e at h)
  | inr e ↦ rw e (no_children tree rs (rw e at h))
]

-- Every child that is found was out of the tree and is in it then.
count-out_le :
    (tree more : List Text) (rows : List VaultRow)
    → count (is_out (more ++ tree)) rows ≤ count (is_out tree) rows
count-out_le tree more [] = omega arith
count-out_le tree more (r ∷ rs) =
    ground (arith, count-out_le tree more rs, any-append (str_eq (row_id r)) more tree)

count-out_lt :
    (tree more : List Text) (c : Text) (rows : List VaultRow)
    → contains c more ≡ true
    → any (λ r. str_eq (row_id r) c && is_out tree r) rows ≡ true
    → count (is_out (more ++ tree)) rows < count (is_out tree) rows
count-out_lt tree more c [] m h = cc
count-out_lt tree more c (r ∷ rs) m h = elim (Bool-cases (str_eq (row_id r) c && is_out tree r)) [
  | inl e ↦
      let here = and-true (str_eq (row_id r) c) (is_out tree r) e in
      let found : contains (row_id r) more ≡ true =
        subst (λ y. contains y more ≡ true) (sym ((str_eq_iff (row_id r) c).0 here.0)) m in
      ground
        (arith, count-out_le tree more rs, any-append (str_eq (row_id r)) more tree, found, here.1)
  | inr e ↦
      let rest = count-out_lt tree more c rs m (rw e at h) in
      ground (arith, rest, any-append (str_eq (row_id r)) more tree)
]

first_child :
    (tree : List Text) (c : Text) (cs : List Text) (rows : List VaultRow)
    → children tree rows ≡ c ∷ cs
    → any (λ r. str_eq (row_id r) c && is_out tree r) rows ≡ true
first_child tree c cs [] h = cc
first_child tree c cs (r ∷ rs) h = elim (Bool-cases (is_new_child tree r)) [
  | inl e ↦
      let same : row_id r ≡ c = head_inj (rw e at h) in
      let here : str_eq (row_id r) c ≡ true = (str_eq_iff (row_id r) c).1 same in
      let out : is_out tree r ≡ true = (and-true (is_under tree r.item) (is_out tree r) e).1 in
      rw (here, out) refl
  | inr e ↦ let rest = first_child tree c cs rs (rw e at h) in ground (arith, rest)
]

-- With enough rounds, no row outside the tree has its parent in it.
tree_rounds-closed :
    (fuel : ℕ) (rows : List VaultRow) (tree : List Text)
    → count (is_out tree) rows < fuel
    → any (is_new_child (tree_rounds fuel rows tree)) rows ≡ false
unfolding tree_rounds
tree_rounds-closed zero rows tree l = absurd (omega (arith, l))
tree_rounds-closed (suc fuel) rows tree l = elim (list_cases (children tree rows)) [
  | inl e ↦ rw (e, tree_rounds) (no_children tree rows e)
  | inr (c, cs, e) ↦
      let less =
        count-out_lt tree (c ∷ cs) c rows (rw (str_eq_refl c) refl)
          (first_child tree c cs rows e) in
      rw (e, tree_rounds) (tree_rounds-closed fuel rows (c ∷ cs ++ tree) (omega (arith, l, less)))
]

tree_rounds-keeps :
    (fuel : ℕ) (rows : List VaultRow) (tree : List Text) (x : Text)
    → contains x tree ≡ true
    → contains x (tree_rounds fuel rows tree) ≡ true
unfolding tree_rounds
tree_rounds-keeps zero rows tree x h = h
tree_rounds-keeps (suc fuel) rows tree x h = elim (list_cases (children tree rows)) [
  | inl e ↦ rw (e, tree_rounds) h
  | inr (c, cs, e) ↦
      rw (e, tree_rounds)
        (tree_rounds-keeps fuel rows (c ∷ cs ++ tree) x
          (ground (arith, any-append (str_eq x) (c ∷ cs) tree, h)))
]

module _ (id : Text) (rows : List VaultRow) where
  subtree-closed : any (is_new_child (subtree id rows)) rows ≡ false
  unfolding subtree
  subtree-closed =
      tree_rounds-closed (suc (length rows)) rows (id ∷ [])
        (omega (arith, count-le-length (is_out (id ∷ [])) rows))

  pub subtree_self : contains id (subtree id rows) ≡ true
  unfolding subtree
  subtree_self = tree_rounds-keeps (suc (length rows)) rows (id ∷ []) id (rw (str_eq_refl id) refl)

  -- What lies in a folder of the tree is in the tree.
  pub subtree-child :
      (x p : Text) (r : VaultRow)
      → row_of x rows ≡ some r
      → r.item.parent_id ≡ some p
      → contains p (subtree id rows) ≡ true
      → contains x (subtree id rows) ≡ true
  subtree-child x p r e q m = elim (Bool-cases (contains x (subtree id rows))) [
    | inl y ↦ y
    | inr n ↦
        let same : row_id r ≡ x =
          (str_eq_iff (row_id r) x).0 (find-true (λ a. str_eq (row_id a) x) rows r e) in
        let new : is_new_child (subtree id rows) r ≡ true = rw (q, same, m, n) refl in
        cc (
          sym (any-find (is_new_child (subtree id rows)) (λ a. str_eq (row_id a) x) rows r e new)
          ∙ subtree-closed)
  ]
