-- ===== src/Client/Vault/Lookup.antt =====
-- What the copy has under an id after each of its operations.
use sendself.Base.{
  true, false, ◌&&◌, ◌||◌, not, ◌≡◌, refl, sym, ap, ◌∙◌, subst, inl, inr, Option, none, some, List,
  [], ◌∷◌, Text, str_eq, str_eq_iff, str_eq_refl, str_eq_comm, any, leb, if◌then◌else◌,
  update_where, lookup_by-append, IsKeyedBy, IsKeyedBy-append, IsKeyedBy-filter, contains,
  any-append, Bool-cases, Option-cases, arith, is_some, ◌⊎◌,
}
use sendself.Shared.Vault.{VaultItem}
use sendself.Client.Vault.{
  item_id, item_of, is_item, put, delete, delete_all, add_id, remove_id, apply_item, apply_items,
  Pull, fold_removed, fold_items,
}

abbrev Items : Type 0
Items = List VaultItem

eq_left : (a b x : Text) → str_eq a b ≡ true → str_eq a x ≡ str_eq b x
eq_left a b x e = ap (λ y. str_eq y x) ((str_eq_iff a b).0 e)

eq_right : (a b x : Text) → str_eq b x ≡ true → str_eq a x ≡ str_eq a b
eq_right a b x e = ap (str_eq a) (sym ((str_eq_iff b x).0 e))

item_of-update :
    (i : VaultItem) (x : Text) (items : Items)
    → item_of x (update_where (is_item i.id) (λ _. i) items)
      ≡ (if str_eq i.id x && any (is_item i.id) items then some i else item_of x items)
item_of-update i x [] = ground arith
item_of-update i x (j ∷ js) =
    ground (arith, item_of-update i x js, eq_left j.id i.id x, eq_right j.id i.id x)

item_absent : (x : Text) (items : Items) → any (is_item x) items ≡ false → item_of x items ≡ none
item_absent x [] h = refl
item_absent x (j ∷ js) h = ground (arith, item_absent x js)

absent_item : (x : Text) (items : Items) → item_of x items ≡ none → any (is_item x) items ≡ false
absent_item x [] h = refl
absent_item x (j ∷ js) h = ground (arith, absent_item x js)

pub item_of-put :
    (i : VaultItem) (x : Text) (items : Items)
    → item_of x (put i items) ≡ (if str_eq i.id x then some i else item_of x items)
unfolding put
item_of-put i x items = elim (Bool-cases (any (is_item i.id) items)) [
  | inl e ↦ rw e (item_of-update i x items ∙ rw e (ground arith))
  | inr e ↦ rw e (
      lookup_by-append item_id x items i
      ∙ free (
          subst (λ y. str_eq i.id y ≡ true → item_of y items ≡ none) refl
            (λ q.
              subst (λ y. item_of y items ≡ none) ((str_eq_iff i.id x).0 q)
                (item_absent i.id items e))))
]
  where
    free :
        (str_eq i.id x ≡ true → item_of x items ≡ none)
        → elim (item_of x items) as (λ _. Option VaultItem) [
          | none ↦ if str_eq i.id x then some i else none
          | some a ↦ some a
        ]
          ≡ (if str_eq i.id x then some i else item_of x items)
    free h = elim (Bool-cases (str_eq i.id x)) [
      | inl q ↦ rw (h q, q) refl
      | inr q ↦ elim (Option-cases (item_of x items)) [
        | inl o ↦ rw (o, q) refl
        | inr (a, o) ↦ rw (o, q) refl
      ]
    ]

pub item_of-delete :
    (y x : Text) (items : Items)
    → item_of x (delete y items) ≡ (if str_eq y x then none else item_of x items)
unfolding delete
item_of-delete y x [] = ground arith
item_of-delete y x (j ∷ js) =
    ground (arith, item_of-delete y x js, eq_left j.id y x, eq_right j.id y x)

pub item_of-delete_all :
    (x : Text) (ys : List Text) (items : Items)
    → item_of x (delete_all ys items) ≡ (if contains x ys then none else item_of x items)
unfolding delete_all
item_of-delete_all x [] items = refl
item_of-delete_all x (y ∷ ys) items =
    ground
      (arith, item_of-delete_all x ys (delete y items), item_of-delete y x items, str_eq_comm x y)

-- The newer of what the copy has and an item.
abbrev pub newer : Option VaultItem → VaultItem → Option VaultItem
newer none i = some i
newer (some k) i = if leb k.seq i.seq then some i else some k

-- What the copy comes to have where the changes have an item, and where they do not.
abbrev pub updated : Option VaultItem → Option VaultItem → Option VaultItem
updated known none = known
updated known (some i) = newer known i

item_of-apply_item :
    (i : VaultItem) (x : Text) (items : Items)
    → item_of x (apply_item i items)
      ≡ (if str_eq i.id x then newer (item_of i.id items) i else item_of x items)
unfolding apply_item
item_of-apply_item i x items = elim (Option-cases (item_of i.id items)) [
  | inl e ↦ rw (e, apply_item) (item_of-put i x items)
  | inr (k, e) ↦ elim (Bool-cases (leb k.seq i.seq)) [
    | inl q ↦ rw (e, apply_item, q) (item_of-put i x items)
    | inr q ↦ rw (e, apply_item, q) (kept k e)
  ]
]
  where
    kept :
        (k : VaultItem)
        → item_of i.id items ≡ some k
        → item_of x items ≡ (if str_eq i.id x then some k else item_of x items)
    kept k e = elim (Bool-cases (str_eq i.id x)) [
      | inl q ↦ rw q (subst (λ y. item_of y items ≡ some k) ((str_eq_iff i.id x).0 q) e)
      | inr q ↦ rw q refl
    ]

pub item_of-apply_items :
    (x : Text) (is items : Items)
    → IsKeyedBy item_id is
    → item_of x (apply_items is items) ≡ updated (item_of x items) (item_of x is)
unfolding apply_items
item_of-apply_items x [] items k = refl
item_of-apply_items x (i ∷ is) items k =
    item_of-apply_items x is (apply_item i items) k.1 ∙ step (Bool-cases (str_eq i.id x))
  where
    step :
        (str_eq i.id x ≡ true) ⊎ (str_eq i.id x ≡ false)
        → updated (item_of x (apply_item i items)) (item_of x is)
          ≡ updated (item_of x items) (if str_eq i.id x then some i else item_of x is)
    step (inl e) =
        let here : item_of x is ≡ none =
          subst (λ y. item_of y is ≡ none) ((str_eq_iff i.id x).0 e) k.0 in
        rw (here, item_of-apply_item i x items, e)
          (ap (λ y. newer (item_of y items) i) ((str_eq_iff i.id x).0 e))
    step (inr e) = rw (item_of-apply_item i x items, e) refl

contains-add_id :
    (y x : Text) (ids : List Text) → contains x (add_id y ids) ≡ (str_eq x y || contains x ids)
unfolding add_id
contains-add_id y x ids = elim (Bool-cases (contains y ids)) [
  | inl e ↦ rw e (elim (Bool-cases (str_eq x y)) [
    | inl q ↦ rw q (subst (λ z. contains z ids ≡ true) (sym ((str_eq_iff x y).0 q)) e)
    | inr q ↦ rw q refl
  ])
  | inr e ↦ rw e (any-append (str_eq x) ids (y ∷ []) ∙ ground arith)
]

contains-remove_id :
    (y x : Text) (ids : List Text)
    → contains x (remove_id y ids) ≡ (not (str_eq y x) && contains x ids)
unfolding remove_id
contains-remove_id y x [] = ground arith
contains-remove_id y x (z ∷ zs) =
    ground (arith, contains-remove_id y x zs, eq_right y x z, str_eq_comm x z, str_eq_comm y z)

pub fold_removed-items :
    (xs : List Text) (p : Pull) → (fold_removed xs p).items ≡ delete_all xs p.items
unfolding fold_removed delete_all
fold_removed-items [] p = refl
fold_removed-items (x ∷ xs) p = fold_removed-items xs _

pub fold_removed-removed :
    (x : Text) (xs : List Text) (p : Pull)
    → contains x (fold_removed xs p).removed ≡ (contains x xs || contains x p.removed)
unfolding fold_removed
fold_removed-removed x [] p = refl
fold_removed-removed x (y ∷ ys) p =
    fold_removed-removed x ys _ ∙ rw (contains-add_id y x p.removed) (ground arith)

pub fold_removed-rebuilding :
    (xs : List Text) (p : Pull) → (fold_removed xs p).rebuilding ≡ p.rebuilding
unfolding fold_removed
fold_removed-rebuilding [] p = refl
fold_removed-rebuilding (x ∷ xs) p = fold_removed-rebuilding xs _

pub fold_items-rebuilding : (is : Items) (p : Pull) → (fold_items is p).rebuilding ≡ p.rebuilding
unfolding fold_items
fold_items-rebuilding [] p = refl
fold_items-rebuilding (i ∷ is) p = fold_items-rebuilding is _

-- The last of two, where there is one.
abbrev pub replaced : Option VaultItem → Option VaultItem → Option VaultItem
replaced old none = old
replaced old (some i) = some i

pub fold_items-items :
    (x : Text) (is : Items) (p : Pull)
    → IsKeyedBy item_id is
    → item_of x (fold_items is p).items ≡ replaced (item_of x p.items) (item_of x is)
unfolding fold_items
fold_items-items x [] p k = refl
fold_items-items x (i ∷ is) p k = fold_items-items x is _ k.1 ∙ step (Bool-cases (str_eq i.id x))
  where
    step :
        (str_eq i.id x ≡ true) ⊎ (str_eq i.id x ≡ false)
        → replaced (item_of x (put i p.items)) (item_of x is)
          ≡ replaced (item_of x p.items) (if str_eq i.id x then some i else item_of x is)
    step (inl e) =
        let here : item_of x is ≡ none =
          subst (λ y. item_of y is ≡ none) ((str_eq_iff i.id x).0 e) k.0 in
        rw (here, item_of-put i x p.items, e) refl
    step (inr e) = rw (item_of-put i x p.items, e) refl

pub fold_items-removed :
    (x : Text) (is : Items) (p : Pull)
    → contains x (fold_items is p).removed ≡ (not (is_some (item_of x is)) && contains x p.removed)
unfolding fold_items
fold_items-removed x [] p = refl
fold_items-removed x (i ∷ is) p =
    fold_items-removed x is _ ∙ rw (contains-remove_id i.id x p.removed) (ground arith)

put-IsKeyed :
    (i : VaultItem) (items : Items) → IsKeyedBy item_id items → IsKeyedBy item_id (put i items)
unfolding put
put-IsKeyed i items k = elim (Bool-cases (any (is_item i.id) items)) [
  | inl e ↦ rw e (update-IsKeyed items k)
  | inr e ↦ rw e (IsKeyedBy-append item_id items i k (item_absent i.id items e))
]
  where
    update-IsKeyed :
        (js : Items)
        → IsKeyedBy item_id js
        → IsKeyedBy item_id (update_where (is_item i.id) (λ _. i) js)
    update-IsKeyed [] k = tt
    update-IsKeyed (j ∷ js) k = elim (Bool-cases (is_item i.id j)) [
      | inl q ↦
          let here : item_of i.id js ≡ none =
            subst (λ y. item_of y js ≡ none) ((str_eq_iff j.id i.id).0 q) k.0 in
          rw q (
            item_of-update i i.id js ∙ rw (str_eq_refl i.id, absent_item i.id js here) here,
            update-IsKeyed js k.1,
          )
      | inr q ↦
          rw q (item_of-update i j.id js ∙ rw (str_eq_comm i.id j.id, q) k.0, update-IsKeyed js k.1)
    ]

pub fold_removed-IsKeyed :
    (xs : List Text) (p : Pull)
    → IsKeyedBy item_id p.items
    → IsKeyedBy item_id (fold_removed xs p).items
unfolding fold_removed delete
fold_removed-IsKeyed [] p k = k
fold_removed-IsKeyed (x ∷ xs) p k =
    fold_removed-IsKeyed xs _ (IsKeyedBy-filter item_id (λ i. not (is_item x i)) p.items k)

pub fold_items-IsKeyed :
    (is : Items) (p : Pull) → IsKeyedBy item_id p.items → IsKeyedBy item_id (fold_items is p).items
unfolding fold_items
fold_items-IsKeyed [] p k = k
fold_items-IsKeyed (i ∷ is) p k = fold_items-IsKeyed is _ (put-IsKeyed i p.items k)
