-- ===== src/Common/Lists.antt =====
-- Lists measured and indexed by native numbers, under the library's names.
use Prim.Native.Nat.{ℕ, zero, suc, ◌+◌, ◌-◌, ◌≤◌, min}
use mathlib.Core.Path.{◌≡◌, refl, sym, ap}
use mathlib.Core.List.{List, [], ◌∷◌, ◌++◌}
use mathlib.Core.Option.{Option, none, some}
use native.Mathlib.Omega.{arith}

module _ {ℓ} {A : Type ℓ} where
  abbrev pub length : List A → ℕ
  length [] = 0
  length (x ∷ xs) = suc (length xs)

  abbrev pub get_elem? : List A → ℕ → Option A
  get_elem? [] i = none
  get_elem? (x ∷ xs) zero = some x
  get_elem? (x ∷ xs) (suc i) = get_elem? xs i

  abbrev pub take : ℕ → List A → List A
  take zero xs = []
  take (suc n) [] = []
  take (suc n) (x ∷ xs) = x ∷ take n xs

  abbrev pub drop : ℕ → List A → List A
  drop zero xs = xs
  drop (suc n) [] = []
  drop (suc n) (x ∷ xs) = drop n xs

  abbrev pub replicate : ℕ → A → List A
  replicate zero a = []
  replicate (suc n) a = a ∷ replicate n a

module _ {ℓ} {A : Type ℓ} where
  pub length-append : (xs ys : List A) → length (xs ++ ys) ≡ length xs + length ys
  length-append [] ys = omega arith
  length-append (x ∷ xs) ys = omega (arith, length-append xs ys)

  pub length-replicate : (n : ℕ) (a : A) → length (replicate n a) ≡ n
  length-replicate zero a = refl
  length-replicate (suc n) a = ap suc (length-replicate n a)

  pub length-take : (n : ℕ) (xs : List A) → length (take n xs) ≡ min n (length xs)
  length-take zero xs = omega arith
  length-take (suc n) [] = omega arith
  length-take (suc n) (x ∷ xs) = omega (arith, length-take n xs)

  pub length-drop : (n : ℕ) (xs : List A) → length (drop n xs) ≡ length xs - n
  length-drop zero xs = omega arith
  length-drop (suc n) [] = omega arith
  length-drop (suc n) (x ∷ xs) = omega (arith, length-drop n xs)

  pub take-append-drop : (n : ℕ) (xs : List A) → take n xs ++ drop n xs ≡ xs
  take-append-drop zero xs = refl
  take-append-drop (suc n) [] = refl
  take-append-drop (suc n) (x ∷ xs) = ap (◌∷◌ x) (take-append-drop n xs)

  pub take_of_length-le : (n : ℕ) (xs : List A) → length xs ≤ n → take n xs ≡ xs
  take_of_length-le zero [] h = refl
  take_of_length-le zero (x ∷ xs) h = elim h [ ]
  take_of_length-le (suc n) [] h = refl
  take_of_length-le (suc n) (x ∷ xs) h = ap (◌∷◌ x) (take_of_length-le n xs (omega arith))

  pub drop_of_length-le : (n : ℕ) (xs : List A) → length xs ≤ n → drop n xs ≡ []
  drop_of_length-le zero [] h = refl
  drop_of_length-le zero (x ∷ xs) h = elim h [ ]
  drop_of_length-le (suc n) [] h = refl
  drop_of_length-le (suc n) (x ∷ xs) h = drop_of_length-le n xs (omega arith)

  pub take-append_le : (n : ℕ) (xs ys : List A) → n ≤ length xs → take n (xs ++ ys) ≡ take n xs
  take-append_le zero xs ys h = refl
  take-append_le (suc n) [] ys h = elim h [ ]
  take-append_le (suc n) (x ∷ xs) ys h = ap (◌∷◌ x) (take-append_le n xs ys (omega arith))

  pub drop-append_le :
      (n : ℕ) (xs ys : List A) → n ≤ length xs → drop n (xs ++ ys) ≡ drop n xs ++ ys
  drop-append_le zero xs ys h = refl
  drop-append_le (suc n) [] ys h = elim h [ ]
  drop-append_le (suc n) (x ∷ xs) ys h = drop-append_le n xs ys (omega arith)

  pub take-append_ge :
      (n : ℕ) (xs ys : List A) → length xs ≤ n → take n (xs ++ ys) ≡ xs ++ take (n - length xs) ys
  take-append_ge n [] ys h = ap (λ k. take k ys) (omega arith)
  take-append_ge zero (x ∷ xs) ys h = elim h [ ]
  take-append_ge (suc n) (x ∷ xs) ys h =
      ap (◌∷◌ x)
        (rw (take-append_ge n xs ys (omega arith)) (ap (λ k. xs ++ take k ys) (omega arith)))

  pub drop-append_ge :
      (n : ℕ) (xs ys : List A) → length xs ≤ n → drop n (xs ++ ys) ≡ drop (n - length xs) ys
  drop-append_ge n [] ys h = ap (λ k. drop k ys) (omega arith)
  drop-append_ge zero (x ∷ xs) ys h = elim h [ ]
  drop-append_ge (suc n) (x ∷ xs) ys h =
      rw (drop-append_ge n xs ys (omega arith)) (ap (λ k. drop k ys) (omega arith))

  pub drop-drop : (m n : ℕ) (xs : List A) → drop m (drop n xs) ≡ drop (n + m) xs
  drop-drop m zero xs = ap (λ k. drop k xs) (omega arith)
  drop-drop zero (suc n) [] = rw (drop_of_length-le (suc n + 0) [] (omega arith))
  drop-drop (suc m) (suc n) [] = rw (drop_of_length-le (suc n + suc m) [] (omega arith))
  drop-drop m (suc n) (x ∷ xs) =
      let e : suc n + m ≡ suc (n + m) = omega arith in rw e (drop-drop m n xs)

  pub take-take : (m n : ℕ) (xs : List A) → m ≤ n → take m (take n xs) ≡ take m xs
  take-take zero n xs h = refl
  take-take (suc m) zero xs h = elim h [ ]
  take-take (suc m) (suc n) [] h = refl
  take-take (suc m) (suc n) (x ∷ xs) h = ap (◌∷◌ x) (take-take m n xs (omega arith))

  pub drop-take : (m n : ℕ) (xs : List A) → drop m (take n xs) ≡ take (n - m) (drop m xs)
  drop-take zero n xs = ap (λ k. take k xs) (omega arith)
  drop-take (suc m) zero xs = let e : 0 - suc m ≡ 0 = omega arith in rw e
  drop-take (suc m) (suc n) [] = sym (take_of_length-le (suc n - suc m) [] (omega arith))
  drop-take (suc m) (suc n) (x ∷ xs) =
      let e : suc n - suc m ≡ n - m = omega arith in rw e (drop-take m n xs)
