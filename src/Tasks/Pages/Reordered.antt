-- ===== src/Tasks/Pages/Reordered.antt =====
-- Sorting a list that was reordered: an order without ties leaves one result.
use coroutine_rpc_scheduler.Common.{
  All, Bool, Bool-cases, List, [], ap, arith, false, if◌then◌else◌, inl, inr, keep_if, refl, sym,
  true, ◌∙◌, ◌∷◌, ◌≡◌,
}
use coroutine_rpc_scheduler.Common.Sort.{sort_by, insert_by}

-- The same items in another order: what was read from a table without ORDER BY.
pub data IsReordered {ℓ} {A : Type ℓ} : List A → List A → Type ℓ where
  nil : IsReordered [] []
  cons : (x : A) {xs ys : List A} → IsReordered xs ys → IsReordered (x ∷ xs) (x ∷ ys)
  swap : (x y : A) (xs : List A) → IsReordered (x ∷ y ∷ xs) (y ∷ x ∷ xs)
  trans : {xs ys zs : List A} → IsReordered xs ys → IsReordered ys zs → IsReordered xs zs

pub data IsAmong {ℓ} {A : Type ℓ} (x : A) : List A → Type ℓ where
  head : {xs : List A} → IsAmong x (x ∷ xs)
  tail : {y : A} {xs : List A} → IsAmong x xs → IsAmong x (y ∷ xs)

module _ {ℓ} {A : Type ℓ} where
  pub IsReordered-refl : (xs : List A) → IsReordered xs xs
  IsReordered-refl [] = nil
  IsReordered-refl (x ∷ xs) = cons x (IsReordered-refl xs)

  keep_if-swap :
      (p : A → Bool) (a b : A) (l : List A)
      → IsReordered (keep_if p (a ∷ b ∷ l)) (keep_if p (b ∷ a ∷ l))
  keep_if-swap p a b l = elim (Bool-cases (p a)) [
    | inl e ↦ elim (Bool-cases (p b)) [
      | inl f ↦ rw e (rw f (swap a b (keep_if p l)))
      | inr f ↦ rw e (rw f (IsReordered-refl (a ∷ keep_if p l)))
    ]
    | inr e ↦ rw e (IsReordered-refl (keep_if p (b ∷ l)))
  ]

  pub keep_if-IsReordered :
      (p : A → Bool) {xs ys : List A}
      → IsReordered xs ys
      → IsReordered (keep_if p xs) (keep_if p ys)
  keep_if-IsReordered p nil = nil
  keep_if-IsReordered p (cons x d) = elim (Bool-cases (p x)) [
    | inl e ↦ rw e (cons x (keep_if-IsReordered p d))
    | inr e ↦ rw e (keep_if-IsReordered p d)
  ]
  keep_if-IsReordered p (swap x y xs) = keep_if-swap p x y xs
  keep_if-IsReordered p (trans d d') = trans (keep_if-IsReordered p d) (keep_if-IsReordered p d')

  pub IsReordered-All {κ} :
      (P : A → Type κ) {xs ys : List A} → IsReordered xs ys → All P xs → All P ys
  IsReordered-All P nil h = h
  IsReordered-All P (cons x d) (p, h) = (p, IsReordered-All P d h)
  IsReordered-All P (swap x y xs) (p, (q, h)) = (q, (p, h))
  IsReordered-All P (trans d d') h = IsReordered-All P d' (IsReordered-All P d h)

  pub keep_if-All {κ} :
      (P : A → Type κ) (p : A → Bool) (xs : List A) → All P xs → All P (keep_if p xs)
  keep_if-All P p [] h = h
  keep_if-All P p (x ∷ xs) (q, h) = elim (Bool-cases (p x)) [
    | inl e ↦ rw e (q, keep_if-All P p xs h)
    | inr e ↦ rw e (keep_if-All P p xs h)
  ]

  pub All-IsAmong {κ} : (P : A → Type κ) {a : A} {xs : List A} → IsAmong a xs → All P xs → P a
  All-IsAmong P head h = h.0
  All-IsAmong P (tail m) h = All-IsAmong P m h.1

  All-map {κ μ} :
      (P : A → Type κ) (Q : A → Type μ) (xs : List A) → ((a : A) → P a → Q a) → All P xs → All Q xs
  All-map P Q [] f h = tt
  All-map P Q (x ∷ xs) f (p, h) = (f x p, All-map P Q xs f h)

  pub All-self : (xs : List A) → All (λ a. IsAmong a xs) xs
  All-self [] = tt
  All-self (x ∷ xs) =
      (head, All-map (λ a. IsAmong a xs) (λ a. IsAmong a (x ∷ xs)) xs (λ a m. tail m) (All-self xs))

module _ {ℓ} {A : Type ℓ} (before : A → A → Bool)
    (before-total : (a b : A) → before a b ≡ false → before b a ≡ true)
    (before-trans : (a b c : A) → before a b ≡ true → before b c ≡ true → before a c ≡ true) where
  heads_comm :
      (a b : A) (xs : List A)
      → (before a b ≡ true → before b a ≡ true → a ≡ b)
      → (if before a b then a ∷ b ∷ xs else b ∷ a ∷ xs)
        ≡ (if before b a then b ∷ a ∷ xs else a ∷ b ∷ xs)
  heads_comm a b xs same = elim (Bool-cases (before a b)) [
    | inl e ↦ elim (Bool-cases (before b a)) [
      | inl f ↦
          rw e (rw f (ap (λ y. y ∷ b ∷ xs) (same e f) ∙ ap (λ y. b ∷ y ∷ xs) (sym (same e f))))
      | inr f ↦ rw e (rw f refl)
    ]
    | inr e ↦ rw e (rw (before-total a b e) refl)
  ]

  insert_by_comm :
      (a b : A) (xs : List A)
      → (before a b ≡ true → before b a ≡ true → a ≡ b)
      → insert_by before a (insert_by before b xs) ≡ insert_by before b (insert_by before a xs)
  unfolding insert_by
  insert_by_comm a b [] same = heads_comm a b [] same
  insert_by_comm a b (x ∷ xs) same = elim (Bool-cases (before a x)) [
    | inl e ↦ elim (Bool-cases (before b x)) [
      | inl f ↦ ground (arith, e, f, heads_comm a b (x ∷ xs) same)
      | inr f ↦ ground (arith, e, f, before-trans b a x)
    ]
    | inr e ↦ elim (Bool-cases (before b x)) [
      | inl f ↦ ground (arith, e, f, before-trans a b x)
      | inr f ↦ ground (arith, e, f, insert_by_comm a b xs same)
    ]
  ]

  -- Two orders of a list whose items are not tied have the same sorted list.
  pub sort_by-IsReordered {κ} :
      (P : A → Type κ)
      → ((a b : A) → P a → P b → before a b ≡ true → before b a ≡ true → a ≡ b)
      → {xs ys : List A} → IsReordered xs ys
      → All P xs
      → sort_by before xs ≡ sort_by before ys
  unfolding sort_by
  sort_by-IsReordered P same nil h = refl
  sort_by-IsReordered P same (cons x d) (p, h) =
      ap (insert_by before x) (sort_by-IsReordered P same d h)
  sort_by-IsReordered P same (swap x y xs) (p, (q, h)) =
      insert_by_comm x y (sort_by before xs) (same x y p q)
  sort_by-IsReordered P same (trans d d') h =
      sort_by-IsReordered P same d h ∙ sort_by-IsReordered P same d' (IsReordered-All P d h)
