-- ===== src/Exec/Ensures.antt =====
-- What holds of every result that a method gives, if it gives one.
use interviewer.Prelude.{◌≡◌, refl}
use interviewer.Values.{Error, Result, ok, err}
use interviewer.Exec.{Exec, pure, raise, continue, ◌>>=◌}

module _ {S A : Type 0} where
  -- Every result satisfies `P`.
  abbrev pub Ensures : Exec S A → (A → Type 0) → Type 0
  Ensures m P = (s s' : S) (a : A) → m s ≡ (ok a, s') → P a

  pub Ensures-pure : (P : A → Type 0) (a : A) → P a → Ensures (pure a) P
  Ensures-pure P a h s s' b e = let same : a ≡ b = cc in rw (← same) h

  pub Ensures-raise : (P : A → Type 0) (e : Error) → Ensures (raise e) P
  Ensures-raise P e s s' b h = cc

module _ {S A B : Type 0} where
  -- A result of two methods in a row is that of the second one at a result of the first.
  pub bind_ok :
      (p : Result A × S) (f : A → Exec S B) (b : B) (s' : S)
      → continue p.0 f p.1 ≡ (ok b, s')
      → (a : A) × (p ≡ (ok a, p.1)) × (f a p.1 ≡ (ok b, s'))
  bind_ok (ok a, s) f b s' h = (a, refl, h)
  bind_ok (err e, s) f b s' h = cc

  pub Ensures-bind :
      (P : A → Type 0) (Q : B → Type 0) (m : Exec S A) (f : A → Exec S B)
      → Ensures m P
      → ((a : A) → P a → Ensures (f a) Q)
      → Ensures (m >>= f) Q
  Ensures-bind P Q m f h k s s' b e =
      let (a, first, second) = bind_ok (m s) f b s' e in
      k a (h s (m s).1 a first) (m s).1 s' b second
