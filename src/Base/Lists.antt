-- ===== src/Base/Lists.antt =====
-- Lists measured and indexed by native numbers, under the library's names.
use Prim.Native.Nat.{ℕ, zero, suc, ◌+◌, ◌-◌}
use mathlib.Core.Path.{◌≡◌, refl, ap, ◌∙◌}
use mathlib.Core.Logic.{◌⊎◌, inl, inr}
use mathlib.Core.Bool.{Bool, true, false, ◌&&◌}
use mathlib.Core.List.{List, [], ◌∷◌, ◌++◌, map}
use native.Mathlib.Omega.{arith}

module _ {ℓ} {A : Type ℓ} where
  abbrev pub length : List A → ℕ
  length [] = 0
  length (x ∷ xs) = suc (length xs)

  abbrev pub get_or : List A → ℕ → A → A
  get_or [] i d = d
  get_or (x ∷ xs) zero d = x
  get_or (x ∷ xs) (suc i) d = get_or xs i d

  abbrev pub take : ℕ → List A → List A
  take zero xs = []
  take (suc n) [] = []
  take (suc n) (x ∷ xs) = x ∷ take n xs

  abbrev pub drop : ℕ → List A → List A
  drop zero xs = xs
  drop (suc n) [] = []
  drop (suc n) (x ∷ xs) = drop n xs

  abbrev pub replicate : ℕ → A → List A
  replicate zero a = []
  replicate (suc n) a = a ∷ replicate n a

  abbrev pub All {κ} : (A → Type κ) → List A → Type κ
  All P [] = Unit {κ}
  All P (x ∷ xs) = P x × All P xs

  pub list-cases : (l : List A) → (l ≡ []) ⊎ ((x : A) × ((rest : List A) × (l ≡ x ∷ rest)))
  list-cases [] = inl refl
  list-cases (x ∷ rest) = inr (x, (rest, refl))

  pub length-append : (xs ys : List A) → length (xs ++ ys) ≡ length xs + length ys
  length-append [] ys = omega arith
  length-append (x ∷ xs) ys = omega (arith, length-append xs ys)

  pub take-append-drop : (n : ℕ) (xs : List A) → take n xs ++ drop n xs ≡ xs
  take-append-drop zero xs = refl
  take-append-drop (suc n) [] = refl
  take-append-drop (suc n) (x ∷ xs) = ap (◌∷◌ x) (take-append-drop n xs)

  pub length-drop : (n : ℕ) (xs : List A) → length (drop n xs) ≡ length xs - n
  length-drop zero xs = omega arith
  length-drop (suc n) [] = omega arith
  length-drop (suc n) (x ∷ xs) = omega (arith, length-drop n xs)

  pub take-append : (xs ys : List A) → take (length xs) (xs ++ ys) ≡ xs
  take-append [] ys = refl
  take-append (x ∷ xs) ys = ap (◌∷◌ x) (take-append xs ys)

  pub drop-append : (xs ys : List A) → drop (length xs) (xs ++ ys) ≡ ys
  drop-append [] ys = refl
  drop-append (x ∷ xs) ys = drop-append xs ys

  pub drop-length : (xs : List A) → drop (length xs) xs ≡ []
  drop-length [] = refl
  drop-length (x ∷ xs) = drop-length xs

pub drop-drop {ℓ} : {A : Type ℓ} (a b : ℕ) (xs : List A) → drop b (drop a xs) ≡ drop (a + b) xs
drop-drop zero b xs = ap (λ (t : ℕ). drop t xs) same
  where
    same : b ≡ 0 + b
    same = omega arith
drop-drop {A} (suc a) zero [] = ap (λ (t : ℕ). drop {A = A} t []) same
  where
    same : suc a ≡ suc a + zero
    same = omega arith
drop-drop {A} (suc a) (suc b) [] = ap (λ (t : ℕ). drop {A = A} t []) shift
  where
    shift : suc (a + suc b) ≡ suc a + suc b
    shift = omega arith
drop-drop (suc a) b (x ∷ xs) = drop-drop a b xs ∙ ap (λ (t : ℕ). drop t (x ∷ xs)) shift
  where
    shift : suc (a + b) ≡ suc a + b
    shift = omega arith

-- What is taken after `a` is taken is the next of it.
pub take-drop-add {ℓ} :
    {A : Type ℓ} (a b : ℕ) (xs : List A) → take a xs ++ take b (drop a xs) ≡ take (a + b) xs
take-drop-add zero b xs = ap (λ (t : ℕ). take t xs) same
  where
    same : b ≡ 0 + b
    same = omega arith
take-drop-add {A} (suc a) zero [] = ap (λ (t : ℕ). take {A = A} t []) same
  where
    same : suc a ≡ suc a + zero
    same = omega arith
take-drop-add {A} (suc a) (suc b) [] = ap (λ (t : ℕ). take {A = A} t []) shift
  where
    shift : suc (a + suc b) ≡ suc a + suc b
    shift = omega arith
take-drop-add (suc a) b (x ∷ xs) =
    ap (◌∷◌ x) (take-drop-add a b xs) ∙ ap (λ (t : ℕ). take t (x ∷ xs)) shift
  where
    shift : suc (a + b) ≡ suc a + b
    shift = omega arith

-- Lemmas over two types, or over a predicate.
pub All-take {ℓ κ} :
    {A : Type ℓ} (P : A → Type κ) (n : ℕ) (xs : List A) → All P xs → All P (take n xs)
All-take P zero xs h = tt
All-take P (suc n) [] h = tt
All-take P (suc n) (x ∷ xs) h = (h.0, All-take P n xs h.1)

pub All-drop {ℓ κ} :
    {A : Type ℓ} (P : A → Type κ) (n : ℕ) (xs : List A) → All P xs → All P (drop n xs)
All-drop P zero xs h = h
All-drop P (suc n) [] h = tt
All-drop P (suc n) (x ∷ xs) h = All-drop P n xs h.1

pub All-append {ℓ κ} :
    {A : Type ℓ} (P : A → Type κ) (xs ys : List A) → All P xs → All P ys → All P (xs ++ ys)
All-append P [] ys h k = k
All-append P (x ∷ xs) ys h k = (h.0, All-append P xs ys h.1 k)

pub length-map {ℓ κ} :
    {A : Type ℓ} {B : Type κ} (f : A → B) (xs : List A) → length (map f xs) ≡ length xs
length-map f [] = refl
length-map f (x ∷ xs) = ap suc (length-map f xs)

-- `std::equal` on byte strings.
abbrev pub eq_list {ℓ} : {A : Type ℓ} → (A → A → Bool) → List A → List A → Bool
eq_list e [] [] = true
eq_list e [] (y ∷ ys) = false
eq_list e (x ∷ xs) [] = false
eq_list e (x ∷ xs) (y ∷ ys) = e x y && eq_list e xs ys
