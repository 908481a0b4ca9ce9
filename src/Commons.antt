-- ===== src/Commons.antt =====
-- The list operations of so-commons-library (commons/collections/list.h), which every program of the
-- repository calls and none contains: an interface, with its documented behaviour as laws. A
-- `t_list` is read as the sequence of its elements, and a null result of list_get as `none`.
use threaders.Base.{
  ℕ, zero, suc, ◌≡◌, refl, sym, subst, Bool, Option, none, some, List, [], ◌∷◌, ◌++◌, length,
  get_elem?, if◌then◌else◌,
}

pub record Commons : Type 1 where
  pub list_create : (A : Type 0) → List A
  pub list_add : (A : Type 0) → List A → A → List A
  pub list_get : (A : Type 0) → List A → ℕ → Option A
  pub list_size : (A : Type 0) → List A → ℕ
  pub list_remove : (A : Type 0) → List A → ℕ → List A
  pub list_find : (A : Type 0) → List A → (A → Bool) → Option A
  pub list_fold : (A : Type 0) → List A → A → (A → A → A) → A

module _ {A : Type 0} where
  abbrev pub remove_at : List A → ℕ → List A
  remove_at [] i = []
  remove_at (x ∷ xs) zero = xs
  remove_at (x ∷ xs) (suc i) = x ∷ remove_at xs i

  abbrev pub find_first : List A → (A → Bool) → Option A
  find_first [] p = none
  find_first (x ∷ xs) p = if p x then some x else find_first xs p

  abbrev pub fold_left : List A → A → (A → A → A) → A
  fold_left [] s op = s
  fold_left (x ∷ xs) s op = fold_left xs (op s x) op

-- What the library documents of each operation.
pub record Documented (c : Commons) : Type 1 where
  pub create_law : (A : Type 0) → c.list_create A ≡ []
  pub add_law : (A : Type 0) (l : List A) (x : A) → c.list_add A l x ≡ l ++ x ∷ []
  pub get_law : (A : Type 0) (l : List A) (i : ℕ) → c.list_get A l i ≡ get_elem? l i
  pub size_law : (A : Type 0) (l : List A) → c.list_size A l ≡ length l
  pub remove_law : (A : Type 0) (l : List A) (i : ℕ) → c.list_remove A l i ≡ remove_at l i
  pub find_law : (A : Type 0) (l : List A) (p : A → Bool) → c.list_find A l p ≡ find_first l p
  pub fold_law :
      (A : Type 0) (l : List A) (s : A) (op : A → A → A) → c.list_fold A l s op ≡ fold_left l s op

-- The laws fix every result, so they are those of this implementation.
abbrev pub reference : Commons
reference = record {
  list_create = λ A. [];
  list_add = λ A l x. l ++ x ∷ [];
  list_get = λ A l i. get_elem? l i;
  list_size = λ A l. length l;
  list_remove = λ A l i. remove_at l i;
  list_find = λ A l p. find_first l p;
  list_fold = λ A l s op. fold_left l s op;
}

pub reference-Documented : Documented reference
reference-Documented = record {
  create_law = λ A. refl;
  add_law = λ A l x. refl;
  get_law = λ A l i. refl;
  size_law = λ A l. refl;
  remove_law = λ A l i. refl;
  find_law = λ A l p. refl;
  fold_law = λ A l s op. refl;
}

pub reference-eq : {c : Commons} → Documented c → c ≡ reference
reference-eq d = λ i. record {
  list_create = λ A. d.create_law A i;
  list_add = λ A l x. d.add_law A l x i;
  list_get = λ A l k. d.get_law A l k i;
  list_size = λ A l. d.size_law A l i;
  list_remove = λ A l k. d.remove_law A l k i;
  list_find = λ A l p. d.find_law A l p i;
  list_fold = λ A l s op. d.fold_law A l s op i;
}

-- A statement over any documented implementation follows from the one over the reference.
pub for_documented {ℓ} : (P : Commons → Type ℓ) {c : Commons} → Documented c → P reference → P c
for_documented P d h = subst P (sym (reference-eq d)) h
