-- ===== src/Staking/Election/Ranking.antt =====
-- Lists of bonds by falling amount, and what taking the first of them leaves.
use mathlib.Core.List.Permᴰ
use bifrost_node.Prelude.{
  ℕ, zero, suc, ◌≤◌, ◌≡◌, refl, ap, inl, inr, Bool, true, false, Bool-cases, List, [], ◌∷◌, ◌++◌,
  ◌&&◌, if◌then◌else◌, take, drop, length, min, retain, sort_by, insert_by, Permᴰ, arith,
}
use bifrost_node.Staking.Nominations.{Bond}
use bifrost_node.Staking.Election.{by_amount}

-- No amount of the list is above `x`.
abbrev pub Below : ℕ → List Bond → Type 0
Below x [] = Unit
Below x (b ∷ bs) = (b.amount ≤ x) × Below x bs

abbrev pub Falls : List Bond → Type 0
Falls [] = Unit
Falls (b ∷ bs) = Below b.amount bs × Falls bs

-- No amount of the second list is above one of the first.
abbrev pub Outranks : List Bond → List Bond → Type 0
Outranks [] left = Unit
Outranks (b ∷ bs) left = Below b.amount left × Outranks bs left

Below-le : (x y : ℕ) (bs : List Bond) → x ≤ y → Below x bs → Below y bs
Below-le x y [] l h = tt
Below-le x y (b ∷ bs) l (h, hs) = (omega arith, Below-le x y bs l hs)

Below-insert_by :
    (x : ℕ) (b : Bond) (bs : List Bond)
    → b.amount ≤ x
    → Below x bs
    → Below x (insert_by by_amount b bs)
Below-insert_by x b [] l h = (l, tt)
Below-insert_by x b (y ∷ bs) l (h, hs) = ground (arith, Below-insert_by x b bs l hs)

insert_by-Falls : (b : Bond) (bs : List Bond) → Falls bs → Falls (insert_by by_amount b bs)
insert_by-Falls b [] h = (tt, tt)
insert_by-Falls b (y ∷ bs) (h, hs) = elim (Bool-cases (by_amount b y)) [
  | inl e ↦
      let le : y.amount ≤ b.amount = ground arith in
      rw e ((le, Below-le y.amount b.amount bs le h), (h, hs))
  | inr e ↦
      let le : b.amount ≤ y.amount = ground arith in
      rw e (Below-insert_by y.amount b bs le h, insert_by-Falls b bs hs)
]

pub sort_by-Falls : (bs : List Bond) → Falls (sort_by by_amount bs)
unfolding sort_by
sort_by-Falls [] = tt
sort_by-Falls (b ∷ bs) = insert_by-Falls b (sort_by by_amount bs) (sort_by-Falls bs)

Below-retain : (p : Bond → Bool) (x : ℕ) (bs : List Bond) → Below x bs → Below x (retain p bs)
Below-retain p x [] h = tt
Below-retain p x (b ∷ bs) (h, hs) = elim (Bool-cases (p b)) [
  | inl e ↦ rw e (h, Below-retain p x bs hs)
  | inr e ↦ rw e (Below-retain p x bs hs)
]

pub retain-Falls : (p : Bond → Bool) (bs : List Bond) → Falls bs → Falls (retain p bs)
retain-Falls p [] h = tt
retain-Falls p (b ∷ bs) (h, hs) = elim (Bool-cases (p b)) [
  | inl e ↦ rw e (Below-retain p b.amount bs h, retain-Falls p bs hs)
  | inr e ↦ rw e (retain-Falls p bs hs)
]

Below-drop : (x n : ℕ) (bs : List Bond) → Below x bs → Below x (drop n bs)
Below-drop x zero bs h = h
Below-drop x (suc n) [] h = tt
Below-drop x (suc n) (b ∷ bs) (h, hs) = Below-drop x n bs hs

-- The first of a falling list outrank the rest.
pub take-Outranks : (n : ℕ) (bs : List Bond) → Falls bs → Outranks (take n bs) (drop n bs)
take-Outranks zero bs h = tt
take-Outranks (suc n) [] h = tt
take-Outranks (suc n) (b ∷ bs) (h, hs) = (Below-drop b.amount n bs h, take-Outranks n bs hs)

pub take-drop : (n : ℕ) (bs : List Bond) → take n bs ++ drop n bs ≡ bs
take-drop zero bs = refl
take-drop (suc n) [] = refl
take-drop (suc n) (b ∷ bs) = ap (λ l. b ∷ l) (take-drop n bs)

pub length-take : (n : ℕ) (bs : List Bond) → length (take n bs) ≡ min n (length bs)
length-take zero bs = omega arith
length-take (suc n) [] = omega arith
length-take (suc n) (b ∷ bs) = omega (arith, length-take n bs)

kept_one :
    (x y : Bool) (a b : Bond) (xs ys : List Bond)
    → x ≡ y
    → a ≡ b
    → Permᴰ xs ys
    → Permᴰ (if x then a ∷ xs else xs) (if y then b ∷ ys else ys)
kept_one true true a b xs ys e f h = Permᴰ.cons f h
kept_one false false a b xs ys e f h = h
kept_one true false a b xs ys e f h = absurd (cc e)
kept_one false true a b xs ys e f h = absurd (cc e)

kept_two :
    (x y : Bool) (a b : Bond) (l : List Bond)
    → Permᴰ
        (if x then a ∷ (if y then b ∷ l else l) else (if y then b ∷ l else l))
        (if y then b ∷ (if x then a ∷ l else l) else (if x then a ∷ l else l))
kept_two true true a b l = Permᴰ.swap refl refl
kept_two true false a b l = Permᴰ.refl _
kept_two false true a b l = Permᴰ.refl _
kept_two false false a b l = Permᴰ.refl l

pub retain-perm :
    {xs ys : List Bond} (p : Bond → Bool) → Permᴰ xs ys → Permᴰ (retain p xs) (retain p ys)
retain-perm p Permᴰ.nil = Permᴰ.nil
retain-perm p (Permᴰ.cons e h) = kept_one _ _ _ _ _ _ (ap p e) e (retain-perm p h)
retain-perm p (Permᴰ.swap {a' = a'} {b' = b'} {l = l} e e') =
    rw (e, e') (kept_two (p b') (p a') b' a' (retain p l))
retain-perm p (Permᴰ.trans h h') = Permᴰ.trans (retain-perm p h) (retain-perm p h')

pub retain-retain :
    (p q : Bond → Bool) (bs : List Bond) → retain q (retain p bs) ≡ retain (λ b. p b && q b) bs
retain-retain p q [] = refl
retain-retain p q (b ∷ bs) = elim (Bool-cases (p b)) [
  | inr e ↦ rw e (retain-retain p q bs)
  | inl e ↦ elim (Bool-cases (q b)) [
    | inl f ↦ rw (e, f) (ap (λ l. b ∷ l) (retain-retain p q bs))
    | inr f ↦ rw (e, f) (retain-retain p q bs)
  ]
]
