-- ===== src/Common/Relations.antt =====
-- Predicates of all items and of all pairs of a list, under insertion, omission and mapping.
use mathlib.Core.Logic.{◌⊎◌}
use mathlib.Core.List.{List, [], ◌∷◌, ◌++◌, map}
use Prim.Native.Nat.{ℕ, zero, suc}
use checkdigit.Common.Lists.{All, replicate, take}

-- `P` of some item
abbrev pub Any {ℓ} : {A : Type ℓ} → (A → Type 0) → List A → Type 0
Any P [] = ⊥
Any P (x ∷ xs) = P x ⊎ Any P xs

-- `R x y` for each `x` that stands before `y`
abbrev pub EachPair {ℓ κ} : {A : Type ℓ} → (A → A → Type κ) → List A → Type κ
EachPair R [] = Unit
EachPair R (x ∷ xs) = All (R x) xs × EachPair R xs

module _ {ℓ κ} {A : Type ℓ} (P : A → Type κ) where
  pub All-append : (xs ys : List A) → All P xs → All P ys → All P (xs ++ ys)
  All-append [] ys h k = k
  All-append (x ∷ xs) ys (h, hs) k = (h, All-append xs ys hs k)

  pub All-replicate : (n : ℕ) (a : A) → P a → All P (replicate n a)
  All-replicate zero a h = tt
  All-replicate (suc n) a h = (h, All-replicate n a h)

  pub All-imp {μ} : (Q : A → Type μ) (xs : List A) → ((x : A) → P x → Q x) → All P xs → All Q xs
  All-imp Q [] f h = tt
  All-imp Q (x ∷ xs) f (h, hs) = (f x h, All-imp Q xs f hs)

-- `xs` with `x` put in somewhere
pub data Inserted {ℓ} {A : Type ℓ} (x : A) : List A → List A → Type ℓ where
  here : {xs : List A} → Inserted x xs (x ∷ xs)
  there : {y : A} {xs ys : List A} → Inserted x xs ys → Inserted x (y ∷ xs) (y ∷ ys)

module _ {ℓ κ} {A : Type ℓ} where
  pub All-Inserted :
      (P : A → Type κ) {x : A} {xs ys : List A} → Inserted x xs ys → P x → All P xs → All P ys
  All-Inserted P here h hs = (h, hs)
  All-Inserted P (there i) h (k, hs) = (k, All-Inserted P i h hs)

  -- A symmetric relation that holds of each pair of a list, and between a new item and all of the
  -- list, holds of each pair with the item put in anywhere.
  pub EachPair-Inserted :
      (R : A → A → Type κ)
      → ((x y : A) → R x y → R y x)
      → {x : A} {xs ys : List A} → Inserted x xs ys
      → All (R x) xs
      → EachPair R xs
      → EachPair R ys
  EachPair-Inserted R symm here h hs = (h, hs)
  EachPair-Inserted R symm {x} (there {y} i) (h, hs) (k, ks) =
      (All-Inserted (R y) i (symm x y h) k, EachPair-Inserted R symm i hs ks)

module _ {ℓ} {A : Type ℓ} where
  pub Inserted-front : (x : A) (xs ys : List A) → Inserted x (xs ++ ys) ((xs ++ x ∷ []) ++ ys)
  Inserted-front x [] ys = here
  Inserted-front x (y ∷ xs) ys = there (Inserted-front x xs ys)

  pub Inserted-behind :
      {x : A} (zs : List A) {xs ys : List A} → Inserted x xs ys → Inserted x (zs ++ xs) (zs ++ ys)
  Inserted-behind [] i = i
  Inserted-behind (z ∷ zs) i = there (Inserted-behind zs i)

-- `xs` with some items left out
pub data Omits {ℓ} {A : Type ℓ} : List A → List A → Type ℓ where
  nil : Omits [] []
  keep : {x : A} {xs ys : List A} → Omits xs ys → Omits (x ∷ xs) (x ∷ ys)
  leave : {x : A} {xs ys : List A} → Omits xs ys → Omits xs (x ∷ ys)

module _ {ℓ} {A : Type ℓ} where
  pub Omits-refl : (xs : List A) → Omits xs xs
  Omits-refl [] = nil
  Omits-refl (x ∷ xs) = keep (Omits-refl xs)

  pub Omits-append :
      {xs ys zs ws : List A} → Omits xs ys → Omits zs ws → Omits (xs ++ zs) (ys ++ ws)
  Omits-append nil k = k
  Omits-append (keep h) k = keep (Omits-append h k)
  Omits-append (leave h) k = leave (Omits-append h k)

  pub Omits-none : (xs : List A) → Omits [] xs
  Omits-none [] = nil
  Omits-none (x ∷ xs) = leave (Omits-none xs)

module _ {ℓ κ} {A : Type ℓ} where
  pub All-Omits : (P : A → Type κ) {xs ys : List A} → Omits xs ys → All P ys → All P xs
  All-Omits P nil h = tt
  All-Omits P (keep o) (h, hs) = (h, All-Omits P o hs)
  All-Omits P (leave o) (h, hs) = All-Omits P o hs

  pub EachPair-Omits :
      (R : A → A → Type κ) {xs ys : List A} → Omits xs ys → EachPair R ys → EachPair R xs
  EachPair-Omits R nil h = tt
  EachPair-Omits R (keep {x} o) (h, hs) = (All-Omits (R x) o h, EachPair-Omits R o hs)
  EachPair-Omits R (leave o) (h, hs) = EachPair-Omits R o hs

module _ {ℓ κ μ} {A : Type ℓ} {B : Type μ} (f : A → B) where
  pub All-map : (P : B → Type κ) (xs : List A) → All (λ x. P (f x)) xs → All P (map f xs)
  All-map P [] h = tt
  All-map P (x ∷ xs) (h, hs) = (h, All-map P xs hs)

  pub EachPair-map :
      (R : B → B → Type κ) (xs : List A)
      → EachPair (λ x y. R (f x) (f y)) xs
      → EachPair R (map f xs)
  EachPair-map R [] h = tt
  EachPair-map R (x ∷ xs) (h, hs) = (All-map (R (f x)) xs h, EachPair-map R xs hs)

pub All-take {ℓ} :
    {A : Type ℓ} (P : A → Type 0) (n : ℕ) (xs : List A) → All P xs → All P (take n xs)
All-take P zero xs h = tt
All-take P (suc n) [] h = tt
All-take P (suc n) (x ∷ xs) (h, hs) = (h, All-take P n xs hs)

pub EachPair-take {ℓ} :
    {A : Type ℓ} (R : A → A → Type 0) (n : ℕ) (xs : List A) → EachPair R xs → EachPair R (take n xs)
EachPair-take R zero xs h = tt
EachPair-take R (suc n) [] h = tt
EachPair-take R (suc n) (x ∷ xs) (h, hs) = (All-take (R x) n xs h, EachPair-take R n xs hs)
