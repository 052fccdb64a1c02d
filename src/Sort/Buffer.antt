-- ===== src/Sort/Buffer.antt =====
-- InsertIntoSortBuffer of remind-v06.02.10/src/sort.c sorts, and reminders that tie keep the order
-- in which they came.
use remind_rb.Base.{◌≡◌, refl, sym, ap, ◌∙◌, ◌⊎◌, inl, inr, true, List, [], ◌∷◌, ◌++◌, arith}
use mathlib.Core.List.{append-nil, append_assoc}
use remind_rb.Sort.{
  SortFlags, Sortrem, Sign, minus, none_, plus, compare_rems, insert_sorted, SortBuffer,
  insert_into_sort_buffer,
}
use remind_rb.Sort.Order.{Orders, compare_rems-Orders}

pub data All (P : Sortrem → Type 0) : List Sortrem → Type 0 where
  end : All P []
  and : {x : Sortrem} {xs : List Sortrem} → P x → All P xs → All P (x ∷ xs)

-- No reminder should come before one that is in front of it.
pub data IsSorted (f : SortFlags) : List Sortrem → Type 0 where
  nil : IsSorted f []
  cons :
      {x : Sortrem} {xs : List Sortrem}
      → All (λ y. ¬ (compare_rems f y x ≡ plus)) xs
      → IsSorted f xs
      → IsSorted f (x ∷ xs)

abbrev keep_tie : Sign → Sortrem → List Sortrem → List Sortrem
keep_tie none_ y rest = y ∷ rest
keep_tie plus y rest = rest
keep_tie minus y rest = rest

-- The reminders that tie with `x`, in order.
abbrev pub ties : SortFlags → Sortrem → List Sortrem → List Sortrem
ties f x [] = []
ties f x (y ∷ ys) = keep_tie (compare_rems f x y) y (ties f x ys)

-- The buffer after reminders that come one after the other, with memory for each.
abbrev pub insert_each : List Sortrem → SortBuffer → SortBuffer
insert_each [] s = s
insert_each (r ∷ rs) s = insert_each rs (insert_into_sort_buffer true r s).0

map-All :
    {P Q : Sortrem → Type 0} {l : List Sortrem} → ((y : Sortrem) → P y → Q y) → All P l → All Q l
map-All g end = end
map-All g (and p a) = and (g _ p) (map-All g a)

sign_cases : (s : Sign) → (s ≡ plus) ⊎ (¬ (s ≡ plus))
sign_cases s = ground arith

module _ (f : SortFlags) where
  abbrev o : Orders (compare_rems f)
  o = compare_rems-Orders f

  insert-front :
      (s c : Sortrem) (rest : List Sortrem)
      → compare_rems f s c ≡ plus
      → insert_sorted f s (c ∷ rest) ≡ s ∷ c ∷ rest
  unfolding insert_sorted
  insert-front s c rest e = ground arith

  insert-behind :
      (s c : Sortrem) (rest : List Sortrem)
      → ¬ (compare_rems f s c ≡ plus)
      → insert_sorted f s (c ∷ rest) ≡ c ∷ insert_sorted f s rest
  unfolding insert_sorted
  insert-behind s c rest e = ground arith

  All-insert :
      {P : Sortrem → Type 0} (s : Sortrem) (l : List Sortrem)
      → P s
      → All P l
      → All P (insert_sorted f s l)
  unfolding insert_sorted
  All-insert s [] p end = and p end
  All-insert s (c ∷ rest) p (and q a) = elim (sign_cases (compare_rems f s c)) [
    | inl e ↦ rw (insert-front s c rest e) (and p (and q a))
    | inr n ↦ rw (insert-behind s c rest n) (and q (All-insert s rest p a))
  ]

  -- What is not before `c` is after `s`, when `s` comes before `c`.
  after :
      (s c y : Sortrem)
      → compare_rems f s c ≡ plus
      → ¬ (compare_rems f y c ≡ plus)
      → compare_rems f s y ≡ plus
  after s c y e n =
      ground (arith, o.flip c y, o.flip y c, o.flip s y, o.flip s c, o.trans s c y, o.tie c y s)

  All-after :
      (s c : Sortrem) (l : List Sortrem)
      → compare_rems f s c ≡ plus
      → All (λ y. ¬ (compare_rems f y c ≡ plus)) l
      → All (λ y. compare_rems f s y ≡ plus) l
  All-after s c l e a = map-All (λ y n. after s c y e n) a

  not_before : (s y : Sortrem) → compare_rems f s y ≡ plus → ¬ (compare_rems f y s ≡ plus)
  not_before s y e = ground (arith, o.flip s y)

  insert-IsSorted :
      (s : Sortrem) (l : List Sortrem) → IsSorted f l → IsSorted f (insert_sorted f s l)
  unfolding insert_sorted
  insert-IsSorted s [] nil = cons end nil
  insert-IsSorted s (c ∷ rest) (cons a r) =
      let later = insert-IsSorted s rest r in
      elim (sign_cases (compare_rems f s c)) [
        | inl e ↦
            let behind = map-All (not_before s) (All-after s c rest e a) in
            rw (insert-front s c rest e) (cons (and (not_before s c e) behind) (cons a r))
        | inr n ↦ rw (insert-behind s c rest n) (cons (All-insert s rest n a) later)
      ]

  ties-after :
      (s x : Sortrem) (l : List Sortrem)
      → compare_rems f x s ≡ none_
      → All (λ y. compare_rems f s y ≡ plus) l
      → ties f x l ≡ []
  ties-after s x [] e end = refl
  ties-after s x (y ∷ ys) e (and p a) = ground (arith, o.tie x s y, ties-after s x ys e a)

  ties-insert :
      (s x : Sortrem) (l : List Sortrem)
      → IsSorted f l
      → ties f x (insert_sorted f s l) ≡ ties f x l ++ ties f x (s ∷ [])
  unfolding insert_sorted
  ties-insert s x [] nil = refl
  ties-insert s x (c ∷ rest) (cons a r) =
      let later = ties-insert s x rest r in
      elim (sign_cases (compare_rems f s c)) [ inl e ↦ front e | inr e ↦ ground (arith, later) ]
    where
      front :
          compare_rems f s c ≡ plus
          → ties f x (insert_sorted f s (c ∷ rest)) ≡ ties f x (c ∷ rest) ++ ties f x (s ∷ [])
      front e =
          let none_after = λ (q : compare_rems f x s ≡ none_).
            ties-after s x (c ∷ rest) q (and e (All-after s c rest e a)) in
          ground (arith, none_after, append-nil (ties f x (c ∷ rest)))

  insert_each-queue :
      (rs : List Sortrem) (s : SortBuffer)
      → s.flags ≡ f
      → IsSorted f s.queue
      → IsSorted f (insert_each rs s).queue
  unfolding insert_into_sort_buffer
  insert_each-queue [] s e p = p
  insert_each-queue (r ∷ rs) s e p = insert_each-queue rs _ e (rw e (insert-IsSorted r s.queue p))

  split : (c : Sign) (r : Sortrem) (l : List Sortrem) → keep_tie c r [] ++ l ≡ keep_tie c r l
  split plus r l = refl
  split none_ r l = refl
  split minus r l = refl

  insert_each-ties :
      (rs : List Sortrem) (s : SortBuffer) (x : Sortrem)
      → s.flags ≡ f
      → IsSorted f s.queue
      → ties f x (insert_each rs s).queue ≡ ties f x s.queue ++ ties f x rs
  unfolding insert_into_sort_buffer
  insert_each-ties [] s x e p = sym (append-nil (ties f x s.queue))
  insert_each-ties (r ∷ rs) s x e p =
      let first : ties f x (insert_sorted s.flags r s.queue)
          ≡ ties f x s.queue ++ ties f x (r ∷ []) =
        rw e (ties-insert r x s.queue p) in
      let q : IsSorted f (insert_sorted s.flags r s.queue) = rw e (insert-IsSorted r s.queue p) in
      insert_each-ties rs (record s { queue = insert_sorted s.flags r s.queue }) x e q
      ∙ ap (λ t. t ++ ties f x rs) first
      ∙ append_assoc (ties f x s.queue) (ties f x (r ∷ [])) (ties f x rs)
      ∙ ap (λ t. ties f x s.queue ++ t) (split (compare_rems f x r) r (ties f x rs))

-- From an empty buffer, whatever the flags, the queue is the reminders sorted: none stands behind
-- one that should come after it, and those that tie with any one are all there, in the order
-- in which they came.
pub insert_each-sorts_stably :
    (rs : List Sortrem) (s : SortBuffer)
    → s.queue ≡ []
    → IsSorted s.flags (insert_each rs s).queue
      × ((x : Sortrem) → ties s.flags x (insert_each rs s).queue ≡ ties s.flags x rs)
insert_each-sorts_stably rs s e =
    let start : IsSorted s.flags s.queue = rw e nil in
    (
      insert_each-queue s.flags rs s refl start,
      λ x.
          insert_each-ties s.flags rs s x refl start
          ∙ ap (λ q. ties s.flags x q ++ ties s.flags x rs) e,
    )
