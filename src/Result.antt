-- ===== src/Result.antt =====
-- Rust's `Result`, and the actions that read and change a state and may return an error. What was
-- written before the error stays written, so the state comes back beside the error too.
use near_workspaces_rs.Prelude.{Bool, true, false, Option, ◌≡◌, refl}

pub data Result {ℓ} (A E : Type ℓ) : Type ℓ where
  ok : A → Result A E
  err : E → Result A E

module _ {ℓ} {A B E : Type ℓ} where
  -- The `?` operator inside a pure function.
  abbrev pub and_then : Result A E → (A → Result B E) → Result B E
  and_then (ok a) f = f a
  and_then (err e) f = err e

  abbrev pub map : (A → B) → Result A E → Result B E
  map f (ok a) = ok (f a)
  map f (err e) = err e

abbrev pub map_err {ℓ} : {A E F : Type ℓ} → (E → F) → Result A E → Result A F
map_err f (ok a) = ok a
map_err f (err e) = err (f e)

abbrev pub is_err {ℓ} : {A E : Type ℓ} → Result A E → Bool
is_err (ok a) = false
is_err (err e) = true

abbrev pub Exec {ℓ} : Type ℓ → Type ℓ → Type ℓ → Type ℓ
Exec S A E = S → Result A E × S

module _ {ℓ} {S A E : Type ℓ} where
  unfoldable pub pure : A → Exec S A E
  pure a s = (ok a, s)

  unfoldable pub raise : E → Exec S A E
  raise e s = (err e, s)

  unfoldable pub lift : Result A E → Exec S A E
  lift r s = (r, s)

module _ {ℓ} {S A B E : Type ℓ} where
  abbrev pub continue : Result A E → S → (A → Exec S B E) → Result B E × S
  continue (ok a) s f = f a s
  continue (err e) s f = (err e, s)

  infixl 5 ◌>>=◌ ◌>>◌
  unfoldable pub ◌>>=◌ : Exec S A E → (A → Exec S B E) → Exec S B E
  ◌>>=◌ m f s = let (r, s') = m s in continue r s' f

  unfoldable pub ◌>>◌ : Exec S A E → Exec S B E → Exec S B E
  unfolding ◌>>=◌
  m >> n = m >>= λ _. n

-- Returning a value of the result and going on with it is going on with the value.
pub continue-pure :
    {S A B D E : Type 0} (r : Result A E) (s : S) (f : A → B) (g : B → Exec S D E)
    → continue (continue r s (λ a. pure (f a))).0 (continue r s (λ a. pure (f a))).1 g
      ≡ continue r s (λ a. g (f a))
unfolding pure
continue-pure (ok a) s f g = refl
continue-pure (err e) s f g = refl

-- What a step returned, if the rest returned a value after it.
pub bind_ok :
    {S A B E : Type 0} (m : Exec S A E) (f : A → Exec S B E) (s : S) {b : B}
    → ((m >>= f) s).0 ≡ ok b
    → (a : A) × ((m s).0 ≡ ok a) × ((f a (m s).1).0 ≡ ok b) × ((m >>= f) s ≡ f a (m s).1)
unfolding ◌>>=◌
bind_ok {S} {A} {B} {E} m f s {b} h = from (m s).0 h
  where
    from :
        (r : Result A E)
        → (continue r (m s).1 f).0 ≡ ok b
        → (a : A) × (r ≡ ok a) × ((f a (m s).1).0 ≡ ok b) × (continue r (m s).1 f ≡ f a (m s).1)
    from (ok a) h = (a, refl, h, refl)
    from (err e) h = absurd (cc)

pub map_err-ok :
    {A E F : Type 0} (f : E → F) (r : Result A E) {a : A} → map_err f r ≡ ok a → r ≡ ok a
map_err-ok f (ok b) h = cc
map_err-ok f (err e) h = absurd (cc)

-- `.map_err(f)` on the result of an action.
unfoldable pub mapping_err {ℓ} : {S A E F : Type ℓ} → (E → F) → Exec S A E → Exec S A F
mapping_err f m s = let (r, s') = m s in (map_err f r, s')

-- The result of code that may panic: `none` is the panic.
abbrev pub MayPanic {ℓ} : Type ℓ → Type ℓ
MayPanic A = Option A
