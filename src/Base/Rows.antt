-- ===== src/Base/Rows.antt =====
-- Counting rows under the scans and updates of `Base.Lists`.
use cloistr_address.Base.{
  ◌+◌, ◌≤◌, ◌≡◌, refl, Bool, true, false, none, some, List, [], ◌∷◌, ◌++◌, arith, if◌then◌else◌,
  find_where, count_where, exists_where, update_where, all_rows,
}

module _ {ℓ} {A : Type ℓ} where
  pub count_where-append :
      (p : A → Bool) (xs ys : List A)
      → count_where p (xs ++ ys) ≡ count_where p xs + count_where p ys
  unfolding count_where
  count_where-append p [] ys = omega arith
  count_where-append p (x ∷ xs) ys = omega (arith, count_where-append p xs ys)

  -- An update that leaves the test of every row alone leaves the count alone.
  pub count_where-update_where :
      (q p : A → Bool) (f : A → A)
      → ((r : A) → q (if p r then f r else r) ≡ q r)
      → (xs : List A) → count_where q (update_where p f xs) ≡ count_where q xs
  unfolding count_where update_where
  count_where-update_where q p f h [] = refl
  count_where-update_where q p f h (x ∷ xs) = rw (h x, count_where-update_where q p f h xs)

  -- An update after which no row passes.
  pub count_where-update_where_zero :
      (q p : A → Bool) (f : A → A)
      → ((r : A) → q (if p r then f r else r) ≡ false)
      → (xs : List A) → count_where q (update_where p f xs) ≡ 0
  unfolding count_where update_where
  count_where-update_where_zero q p f h [] = refl
  count_where-update_where_zero q p f h (x ∷ xs) =
      rw (h x) (omega (arith, count_where-update_where_zero q p f h xs))

  -- A stronger test passes fewer rows.
  pub count_where-le :
      (p q : A → Bool)
      → ((r : A) → p r ≡ true → q r ≡ true)
      → (xs : List A) → count_where p xs ≤ count_where q xs
  unfolding count_where
  count_where-le p q h [] = omega arith
  count_where-le p q h (x ∷ xs) = ground (arith, h x, count_where-le p q h xs)

  pub count_where-congr :
      (p q : A → Bool) → ((r : A) → p r ≡ q r) → (xs : List A) → count_where p xs ≡ count_where q xs
  unfolding count_where
  count_where-congr p q h [] = refl
  count_where-congr p q h (x ∷ xs) = rw (h x, count_where-congr p q h xs)

  pub find_where-none : (p : A → Bool) (xs : List A) → find_where p xs ≡ none → count_where p xs ≡ 0
  unfolding find_where count_where
  find_where-none p [] h = refl
  find_where-none p (x ∷ xs) h = ground (arith, find_where-none p xs)

  pub find_where-some :
      (p : A → Bool) (xs : List A) (a : A)
      → find_where p xs ≡ some a
      → (p a ≡ true) × (1 ≤ count_where p xs)
  unfolding find_where count_where
  find_where-some p [] a h = cc
  find_where-some p (x ∷ xs) a h = ground (arith, find_where-some p xs a)

  pub exists_where-false :
      (p : A → Bool) (xs : List A) → exists_where p xs ≡ false → count_where p xs ≡ 0
  unfolding exists_where count_where
  exists_where-false p [] h = refl
  exists_where-false p (x ∷ xs) h = ground (arith, exists_where-false p xs)

  pub exists_where_of_count :
      (p : A → Bool) (xs : List A) → 1 ≤ count_where p xs → exists_where p xs ≡ true
  unfolding exists_where count_where
  exists_where_of_count p [] h = absurd (omega arith)
  exists_where_of_count p (x ∷ xs) h = ground (arith, exists_where_of_count p xs)

pub all_rows_of {ℓ} :
    {A : Type ℓ} (p : A → Bool) → ((r : A) → p r ≡ true) → (xs : List A) → all_rows p xs ≡ true
unfolding all_rows
all_rows_of p h [] = refl
all_rows_of p h (x ∷ xs) = rw (h x, all_rows_of p h xs)

pub all_rows_find {ℓ} :
    {A : Type ℓ} (p q : A → Bool) (xs : List A) (a : A)
    → all_rows p xs ≡ true
    → find_where q xs ≡ some a
    → p a ≡ true
unfolding all_rows find_where
all_rows_find p q [] a h e = cc
all_rows_find p q (x ∷ xs) a h e = ground (arith, all_rows_find p q xs a)

pub all_rows_mono {ℓ} :
    {A : Type ℓ} (p q : A → Bool)
    → ((r : A) → p r ≡ true → q r ≡ true)
    → (xs : List A) → all_rows p xs ≡ true
    → all_rows q xs ≡ true
unfolding all_rows
all_rows_mono p q h [] e = refl
all_rows_mono p q h (x ∷ xs) e = ground (arith, h x, all_rows_mono p q h xs)

pub all_rows-update_where {ℓ} :
    {A : Type ℓ} (p q : A → Bool) (f : A → A)
    → ((r : A) → p (if q r then f r else r) ≡ p r)
    → (xs : List A) → all_rows p (update_where q f xs) ≡ all_rows p xs
unfolding all_rows update_where
all_rows-update_where p q f h [] = refl
all_rows-update_where p q f h (x ∷ xs) = rw (h x, all_rows-update_where p q f h xs)

module _ {ℓ} {A : Type ℓ} where
  pub exists_where-none :
      (p : A → Bool) (xs : List A) → count_where p xs ≡ 0 → exists_where p xs ≡ false
  unfolding count_where exists_where
  exists_where-none p [] h = refl
  exists_where-none p (x ∷ xs) h = ground (arith, exists_where-none p xs)

  -- An update after which only rows pass that passed before.
  pub count_where-update_where_le :
      (q p : A → Bool) (f : A → A)
      → ((r : A) → q (if p r then f r else r) ≡ true → q r ≡ true)
      → (xs : List A) → count_where q (update_where p f xs) ≤ count_where q xs
  unfolding count_where update_where
  count_where-update_where_le q p f h [] = omega arith
  count_where-update_where_le q p f h (x ∷ xs) =
      ground (arith, h x, count_where-update_where_le q p f h xs)

  -- Among rows that all pass a test.
  pub count_where-le_among :
      (c p q : A → Bool)
      → ((r : A) → c r ≡ true → p r ≡ true → q r ≡ true)
      → (xs : List A) → all_rows c xs ≡ true
      → count_where p xs ≤ count_where q xs
  unfolding count_where all_rows
  count_where-le_among c p q h [] e = omega arith
  count_where-le_among c p q h (x ∷ xs) e = ground (arith, h x, count_where-le_among c p q h xs)

  pub count_where-cleared :
      (c q p : A → Bool) (f : A → A)
      → ((r : A) → c r ≡ true → q (if p r then f r else r) ≡ false)
      → (xs : List A) → all_rows c xs ≡ true
      → count_where q (update_where p f xs) ≡ 0
  unfolding count_where update_where all_rows
  count_where-cleared c q p f h [] e = refl
  count_where-cleared c q p f h (x ∷ xs) e =
      let here : q (if p x then f x else x) ≡ false = h x (ground arith) in
      let rest = count_where-cleared c q p f h xs (ground arith) in rw (here, rest) refl
