-- ===== src/Krl/Places.antt =====
-- Where the certificates of an authority stand in the list, also after a change.
use libopenssh.Base.{
  ℕ, zero, suc, ◌≡◌, refl, ap, sym, ◌∙◌, arith, Bool, true, false, Option, none, some, List, [],
  ◌∷◌, ◌++◌, length, get_elem?,
}
use libopenssh.Krl.Revoke.{KeyOps, Certs, set_at, position}

pub get_elem?-set_at :
    {A : Type 0} (i : ℕ) (x y : A) (l : List A)
    → get_elem? l i ≡ some y
    → get_elem? (set_at i x l) i ≡ some x
get_elem?-set_at i x y [] e = cc e
get_elem?-set_at zero x y (z ∷ l) e = refl
get_elem?-set_at (suc i) x y (z ∷ l) e = get_elem?-set_at i x y l e

pub get_elem?-append_length :
    {A : Type 0} (l : List A) (x : A) → get_elem? (l ++ (x ∷ [])) (length l) ≡ some x
get_elem?-append_length [] x = refl
get_elem?-append_length (y ∷ l) x = get_elem?-append_length l x

-- The first of the list, or a later one.
first_or : Bool → Option ℕ → Option ℕ
first_or b o = elim b [ true ↦ some 0 | false ↦ elim o [ none ↦ none | some i ↦ some (suc i) ] ]

first_or-zero : (b : Bool) (o : Option ℕ) → first_or b o ≡ some 0 → b ≡ true
unfolding first_or
first_or-zero true o e = refl
first_or-zero false none e = cc e
first_or-zero false (some i) e = ground arith

first_or-suc :
    (b : Bool) (o : Option ℕ) (i : ℕ) → first_or b o ≡ some (suc i) → (b ≡ false) × (o ≡ some i)
unfolding first_or
first_or-suc true o i e = ground arith
first_or-suc false none i e = cc e
first_or-suc false (some j) i e = (refl, ground arith)

first_or-none : (b : Bool) (o : Option ℕ) → first_or b o ≡ none → (b ≡ false) × (o ≡ none)
unfolding first_or
first_or-none true o e = cc e
first_or-none false none e = (refl, refl)
first_or-none false (some j) e = cc e

module _ {K : Type 0} (ops : KeyOps K) (ca : K) where
  some_certs : {x y : Certs K} → ◌≡◌ {A = Option (Certs K)} (some x) (some y) → x ≡ y
  some_certs e = cc e

  pub position-get_elem? :
      (l : List (Certs K)) (i : ℕ)
      → position ops ca l ≡ some i
      → (rc : Certs K) × (get_elem? l i ≡ some rc)
  unfolding position first_or
  position-get_elem? [] i e = cc e
  position-get_elem? (x ∷ l) zero e = (x, refl)
  position-get_elem? (x ∷ l) (suc i) e =
      position-get_elem? l i (first_or-suc (ops.equal x.ca_key ca) (position ops ca l) i e).1

  pub position-set_at :
      (l : List (Certs K)) (i : ℕ) (rc rc' : Certs K)
      → position ops ca l ≡ some i
      → get_elem? l i ≡ some rc
      → rc'.ca_key ≡ rc.ca_key
      → position ops ca (set_at i rc' l) ≡ some i
  unfolding position first_or
  position-set_at [] i rc rc' e g k = cc e
  position-set_at (x ∷ l) zero rc rc' e g k =
      let h = first_or-zero (ops.equal x.ca_key ca) (position ops ca l) e in
      let m : rc'.ca_key ≡ x.ca_key = k ∙ ap (λ (z : Certs K). z.ca_key) (sym (some_certs g)) in
      rw (m, h) refl
  position-set_at (x ∷ l) (suc i) rc rc' e g k =
      let (h, m) = first_or-suc (ops.equal x.ca_key ca) (position ops ca l) i e in
      rw h (rw (position-set_at l i rc rc' m g k) refl)

  pub position-append_length :
      (l : List (Certs K)) (rc : Certs K)
      → position ops ca l ≡ none
      → ops.equal rc.ca_key ca ≡ true
      → position ops ca (l ++ (rc ∷ [])) ≡ some (length l)
  unfolding position first_or
  position-append_length [] rc e k = rw k refl
  position-append_length (x ∷ l) rc e k =
      let (h, m) = first_or-none (ops.equal x.ca_key ca) (position ops ca l) e in
      rw h (rw (position-append_length l rc m k) refl)
