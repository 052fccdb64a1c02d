-- ===== src/Omit/Arrays.antt =====
-- BexistsIntArray and InsertIntoSortedArray of remind-v06.02.10/src/omit.c. An array with its
-- number of elements is the list of those elements.
use remind_rb.Base.{
  ℕ, zero, suc, ◌+◌, ◌-◌, ◌/◌, ◌≤◌, ◌<◌, ◌≡◌, ◌⊎◌, inl, inr, refl, Bool, true, false, List, [], ◌∷◌,
  ◌++◌, length, get_or, set, length-append, length-set, ltb, leb, ◌==◌, if◌then◌else◌, arith, ap,
  ℕ_discrete, dec_lt, le→ltb, lt→ltb, ◌↔◌, ◌∙◌, sym,
}

-- The binary search. `hi` is the source's `top + 1`, which is not negative; the rounds bound the
-- number of halvings.
unfoldable pub bexists_loop : ℕ → List ℕ → ℕ → ℕ → ℕ → Bool
bexists_loop zero a bot hi key = false
bexists_loop (suc rounds) a bot hi key =
    let mid = (hi - 1 + bot) / 2 in
    let below = bexists_loop rounds a bot mid key in
    let above = bexists_loop rounds a (mid + 1) hi key in
    if ltb bot hi
    then (if get_or a mid 0 == key then true else if ltb key (get_or a mid 0) then below else above)
    else false

unfoldable pub bexists_int_array : List ℕ → ℕ → Bool
unfolding bexists_loop
bexists_int_array a key = bexists_loop (length a) a 0 (length a) key

-- `while (cur > array && *(cur-1) > key) { *cur = *(cur-1); cur--; } *cur = key;`
unfoldable pub insert_loop : List ℕ → ℕ → ℕ → List ℕ
insert_loop a zero key = set a zero key
insert_loop a (suc cur) key =
    if ltb key (get_or a cur 0)
    then insert_loop (set a (suc cur) (get_or a cur 0)) cur key
    else set a (suc cur) key

-- The cell behind the last element is written by the loop.
unfoldable pub insert_into_sorted_array : List ℕ → ℕ → List ℕ
unfolding insert_loop
insert_into_sorted_array a key = insert_loop (a ++ 0 ∷ []) (length a) key

abbrev pub Contains : List ℕ → ℕ → Type 0
Contains a key = (i : ℕ) × (i < length a) × (get_or a i 0 ≡ key)

-- The elements increase.
abbrev pub IsSorted : List ℕ → Type 0
IsSorted a = (i j : ℕ) → i < j → j < length a → get_or a i 0 < get_or a j 0

bexists_loop_sound :
    (rounds : ℕ) (a : List ℕ) (bot hi key : ℕ)
    → hi ≤ length a
    → bexists_loop rounds a bot hi key ≡ true
    → Contains a key
unfolding bexists_loop
bexists_loop_sound zero a bot hi key h e = cc
bexists_loop_sound (suc rounds) a bot hi key h e =
    let mid = (hi - 1 + bot) / 2 in
    elim (dec_lt bot hi) [
      | no n ↦ absurd (let f : ⊥ = ground arith in f)
      | yes l ↦ elim (ℕ_discrete (get_or a mid 0) key) [
        | yes q ↦ (mid, omega arith, q)
        | no q ↦ elim (dec_lt key (get_or a mid 0)) [
          | yes p ↦ bexists_loop_sound rounds a bot mid key (omega arith) (ground arith)
          | no p ↦ bexists_loop_sound rounds a (mid + 1) hi key h (ground arith)
        ]
      ]
    ]

bexists_loop_complete :
    (rounds : ℕ) (a : List ℕ) (bot hi key i : ℕ)
    → IsSorted a
    → hi ≤ length a
    → hi ≤ bot + rounds
    → bot ≤ i
    → i < hi
    → get_or a i 0 ≡ key
    → bexists_loop rounds a bot hi key ≡ true
unfolding bexists_loop
bexists_loop_complete zero a bot hi key i s h r lo up e = absurd (omega arith)
bexists_loop_complete (suc rounds) a bot hi key i s h r lo up e =
    let mid = (hi - 1 + bot) / 2 in
    ground (
      arith,
      s mid i,
      s i mid,
      ap (λ k. get_or a k 0),
      bexists_loop_complete rounds a bot mid key i s,
      bexists_loop_complete rounds a (mid + 1) hi key i s,
    )

-- The binary search on a sorted array answers whether the key is an element.
pub bexists_iff :
    (a : List ℕ) (key : ℕ) → IsSorted a → (bexists_int_array a key ≡ true) ↔ Contains a key
unfolding bexists_int_array
bexists_iff a key s = (
  bexists_loop_sound (length a) a 0 (length a) key (omega arith),
  λ (i, lt, e).
      bexists_loop_complete (length a) a 0 (length a) key i s (omega arith) (omega arith)
        (omega arith) lt e,
)

get_or-set :
    (a : List ℕ) (i v j : ℕ)
    → i < length a
    → get_or (set a i v) j 0 ≡ (if i == j then v else get_or a j 0)
get_or-set [] i v j h = absurd (omega arith)
get_or-set (x ∷ xs) zero v zero h = ground arith
get_or-set (x ∷ xs) zero v (suc j) h = ground arith
get_or-set (x ∷ xs) (suc i) v zero h = ground arith
get_or-set (x ∷ xs) (suc i) v (suc j) h = ground (arith, get_or-set xs i v j)

-- What the loop does to the cells from 0 to `cur`: the key goes to place `at`, and the elements
-- from there on move up by one.
record Inserted (a : List ℕ) (cur key : ℕ) (r : List ℕ) : Type 0 where
  at : ℕ
  at_le : at ≤ cur
  length_is : length r ≡ length a
  cells :
      (i : ℕ)
      → get_or r i 0 ≡ (
          if ltb i at
          then get_or a i 0
          else if i == at
          then key
          else if leb i cur
          then get_or a (i - 1) 0
          else get_or a i 0)
  above : (j : ℕ) → at ≤ j → j < cur → key < get_or a j 0
  below : (j : ℕ) → suc j ≡ at → get_or a j 0 ≤ key

insert_loop-Inserted :
    (cur : ℕ) (a : List ℕ) (key : ℕ) → cur < length a → Inserted a cur key (insert_loop a cur key)
unfolding insert_loop
insert_loop-Inserted zero a key h = record {
  at = 0;
  at_le = omega arith;
  length_is = length-set a 0 key;
  cells = λ i. ground (arith, get_or-set a 0 key i);
  above = λ j g l. absurd (omega arith);
  below = λ j e. absurd (omega arith);
}
insert_loop-Inserted (suc cur) a key h = elim (dec_lt key (get_or a cur 0)) [
  | no p ↦ rw (le→ltb key (get_or a cur 0) (omega arith)) (record {
    at = suc cur;
    at_le = omega arith;
    length_is = length-set a (suc cur) key;
    cells = λ i. ground (arith, get_or-set a (suc cur) key i);
    above = λ j g l. absurd (omega arith);
    below = λ j e. ground (arith, ap (λ k. get_or a k 0));
  })
  | yes p ↦
      let v = get_or a cur 0 in
      let b = set a (suc cur) v in
      let same : length b ≡ length a = length-set a (suc cur) v in
      let r : Inserted b cur key (insert_loop b cur key) =
        insert_loop-Inserted cur b key (omega (arith, same)) in
      rw (lt→ltb key v p) (record {
        at = r.at;
        at_le = omega (arith, r.at_le);
        length_is = r.length_is ∙ same;
        cells = λ i. ground (
          arith,
          r.cells i,
          r.at_le,
          get_or-set a (suc cur) v i h,
          get_or-set a (suc cur) v (i - 1) h,
          λ (q : i ≡ suc cur).
              let w : get_or a (i - 1) 0 ≡ v =
                ap (λ k. get_or a k 0) (let z : i - 1 ≡ cur = omega arith in z) in
              w,
        );
        above = λ j lo hi. elim (ℕ_discrete j cur) [
          | yes q ↦ rw q p
          | no q ↦ ground (arith, r.above j lo, get_or-set a (suc cur) v j h)
        ];
        below = λ j e. ground (arith, r.below j e, r.at_le, get_or-set a (suc cur) v j h);
      })
]

get_or-snoc : (a : List ℕ) (i : ℕ) → get_or (a ++ 0 ∷ []) i 0 ≡ get_or a i 0
get_or-snoc [] zero = refl
get_or-snoc [] (suc i) = refl
get_or-snoc (x ∷ xs) zero = refl
get_or-snoc (x ∷ xs) (suc i) = get_or-snoc xs i

insert-Inserted :
    (a : List ℕ) (key : ℕ) → Inserted (a ++ 0 ∷ []) (length a) key (insert_into_sorted_array a key)
unfolding insert_into_sorted_array
insert-Inserted a key =
    insert_loop-Inserted (length a) (a ++ 0 ∷ []) key (omega (arith, length-append a (0 ∷ [])))

module _ (a : List ℕ) (key : ℕ) (sorted : IsSorted a) where
  abbrev r : Inserted (a ++ 0 ∷ []) (length a) key (insert_into_sorted_array a key)
  r = insert-Inserted a key

  abbrev cell : ℕ → ℕ
  cell i = get_or (insert_into_sorted_array a key) i 0

  pub length-insert : length (insert_into_sorted_array a key) ≡ length a + 1
  length-insert = omega (arith, r.length_is, length-append a (0 ∷ []))

  cell-before : (i : ℕ) → i < r.at → cell i ≡ get_or a i 0
  cell-before i h = ground (arith, r.cells i, get_or-snoc a i)

  cell-at : cell r.at ≡ key
  cell-at = ground (arith, r.cells r.at)

  cell-after : (i : ℕ) → r.at < i → i ≤ length a → cell i ≡ get_or a (i - 1) 0
  cell-after i h k = ground (arith, r.cells i, get_or-snoc a (i - 1))

  -- Insertion into a sorted array keeps exactly the old elements and the new one.
  pub Contains-insert :
      (k : ℕ) → Contains (insert_into_sorted_array a key) k ↔ ((k ≡ key) ⊎ Contains a k)
  Contains-insert k = (into, out)
    where
      into : Contains (insert_into_sorted_array a key) k → (k ≡ key) ⊎ Contains a k
      into (i, lt, e) = elim (dec_lt i r.at) [
        | yes p ↦ inr (i, omega (arith, r.at_le), sym (cell-before i p) ∙ e)
        | no p ↦ elim (ℕ_discrete i r.at) [
          | yes q ↦ inl (sym e ∙ (rw q cell-at))
          | no q ↦
              let le : i ≤ length a = omega (arith, length-insert) in
              inr (i - 1, omega arith, sym (cell-after i (omega arith) le) ∙ e)
        ]
      ]

      out : (k ≡ key) ⊎ Contains a k → Contains (insert_into_sorted_array a key) k
      out (inl e) = (r.at, omega (arith, length-insert, r.at_le), cell-at ∙ sym e)
      out (inr (i, lt, e)) = elim (dec_lt i r.at) [
        | yes p ↦ (i, omega (arith, length-insert), cell-before i p ∙ e)
        | no p ↦
            let up : get_or a (i + 1 - 1) 0 ≡ get_or a i 0 =
              ap (λ n. get_or a n 0) (let z : i + 1 - 1 ≡ i = omega arith in z) in
            (
              i + 1,
              omega (arith, length-insert),
              cell-after (i + 1) (omega arith) (omega arith) ∙ up ∙ e,
            )
      ]

  less_before : ¬ Contains a key → (i : ℕ) → i < r.at → get_or a i 0 < key
  less_before new i h =
      let last = r.below (r.at - 1) (omega arith) in
      elim (ℕ_discrete (get_or a i 0) key) [
        | yes q ↦ absurd (new (i, omega (arith, r.at_le), q))
        | no q ↦ elim (ℕ_discrete (suc i) r.at) [
          | yes z ↦ omega (arith, r.below i z, get_or-snoc a i)
          | no z ↦ omega (
            arith,
            last,
            get_or-snoc a (r.at - 1),
            sorted i (r.at - 1) (omega arith) (omega (arith, r.at_le)),
          )
        ]
      ]

  greater_after : (j : ℕ) → r.at ≤ j → j < length a → key < get_or a j 0
  greater_after j h k = omega (arith, r.above j h k, get_or-snoc a j)

  -- Insertion of a key that a sorted array does not contain keeps it sorted.
  pub insert-IsSorted : ¬ Contains a key → IsSorted (insert_into_sorted_array a key)
  insert-IsSorted new i j lt hi =
      let le : j ≤ length a = omega (arith, length-insert) in
      ground (
        arith,
        cell-before i,
        cell-before j,
        cell-at,
        λ (q : i ≡ r.at). let w : cell i ≡ key = rw q cell-at in w,
        λ (q : j ≡ r.at). let w : cell j ≡ key = rw q cell-at in w,
        cell-after i,
        cell-after j,
        less_before new i,
        greater_after (j - 1),
        sorted i j,
        sorted i (j - 1),
        sorted (i - 1) (j - 1),
        r.at_le,
      )
