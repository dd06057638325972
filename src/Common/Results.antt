-- ===== src/Common/Results.antt =====
-- A Python call that returns a value or raises an error of a known kind.
use mathlib.Core.Path.{◌≡◌, refl}
use mathlib.Core.Bool.{Bool, true, false}

pub data Result (E : Type 0) (A : Type 0) : Type 0 where
  err : E → Result E A
  ok : A → Result E A

module _ {E : Type 0} where
  -- `if not test: raise e`.
  abbrev pub guard : Bool → E → Result E (Unit {0})
  guard test e = elim test [ false ↦ err e | true ↦ ok tt ]

  infixl 5 ◌>>=◌ ◌>>◌
  abbrev pub ◌>>=◌ : {A B : Type 0} → Result E A → (A → Result E B) → Result E B
  err raised >>= continue = err raised
  ok value >>= continue = continue value

  -- Inversion of a successful bind.
  pub >>=-eq-ok :
      {A B : Type 0} (m : Result E A) (f : A → Result E B) {b : B}
      → (m >>= f) ≡ ok b
      → (a : A) × (m ≡ ok a) × (f a ≡ ok b)
  >>=-eq-ok (err e) f h = cc
  >>=-eq-ok (ok a) f h = (a, refl, h)

  abbrev pub ◌>>◌ : {B : Type 0} → Result E (Unit {0}) → Result E B → Result E B
  checked >> rest = checked >>= (λ _. rest)

  pub ok-injective : {A : Type 0} {a b : A} → ◌≡◌ {A = Result E A} (ok a) (ok b) → a ≡ b
  ok-injective h = cc

  pub guard-true : {b : Bool} (e : E) {u : Unit {0}} → guard b e ≡ ok u → b ≡ true
  guard-true {b = true} e h = refl
  guard-true {b = false} e h = cc

  pub >>=_assoc :
      {A B C : Type 0} (m : Result E A) (f : A → Result E B) (g : B → Result E C)
      → ((m >>= f) >>= g) ≡ (m >>= (λ a. f a >>= g))
  >>=_assoc (err e) f g = refl
  >>=_assoc (ok a) f g = refl

  pub >>=-cong :
      {A B : Type 0} (m : Result E A) (f g : A → Result E B)
      → ((a : A) → f a ≡ g a)
      → (m >>= f) ≡ (m >>= g)
  >>=-cong (err e) f g h = refl
  >>=-cong (ok a) f g h = h a
