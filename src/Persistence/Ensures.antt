-- ===== src/Persistence/Ensures.antt =====
-- Postconditions of statements: what holds of the answer and of the session wherever a statement
-- returns.
use ai_ent.Prelude.{◌≡◌, refl, subst, Bool, true, false, arith, if◌then◌else◌}
use ai_ent.Persistence.Session.{
  Session, Action, Result, Error, return, raise, pure, throw, gets, and_then, ◌>>=◌,
}

unfoldable pub Ensures : {A : Type 0} → (A → Session → Type 0) → Action A → Type 0
Ensures {A} P m = (s : Session) (a : A) → (m s).0 ≡ return a → P a (m s).1

module _ {B : Type 0} (P : B → Session → Type 0) where
  pub pure-Ensures : (b : B) → ((s : Session) → P b s) → Ensures P (pure b)
  unfolding Ensures
  pure-Ensures b h s a e = subst (λ x. P x s) (ground (arith, e)) (h s)

  pub throw-Ensures : (e : Error) → Ensures P (throw e)
  unfolding Ensures
  throw-Ensures e s a h = absurd (ground (arith, h))

  pub if-Ensures :
      (b : Bool) (m n : Action B)
      → (b ≡ true → Ensures P m)
      → (b ≡ false → Ensures P n)
      → Ensures P (if b then m else n)
  if-Ensures true m n h k = h refl
  if-Ensures false m n h k = k refl

  module _ {A : Type 0} (Q : A → Session → Type 0) (m : Action A) (f : A → Action B) where
    -- The first statement ensures what the second one starts from.
    pub then-Ensures :
        Ensures Q m
        → ((a : A) (s : Session) → Q a s → (b : B) → (f a s).0 ≡ return b → P b (f a s).1)
        → Ensures P (m >>= f)
    unfolding Ensures
    then-Ensures h k s b = answers (m s).0 (m s).1 (h s)
      where
        answers :
            (r : Result A) (t : Session)
            → ((a : A) → r ≡ return a → Q a t)
            → (and_then r f t).0 ≡ return b
            → P b (and_then r f t).1
        answers (return a) t q e = k a t (q a refl) b e
        answers (raise x) t q e = absurd (ground (arith, e))

  pub bind-Ensures :
      {A : Type 0} (m : Action A) (f : A → Action B)
      → ((a : A) → Ensures P (f a))
      → Ensures P (m >>= f)
  unfolding Ensures
  bind-Ensures {A} m f k =
      then-Ensures (λ (_ : A) (_ : Session). Unit {0}) m f (λ s a e. tt) (λ a s q. k a s)

-- The postcondition at one session.
pub Ensures-at :
    {A : Type 0} (P : A → Session → Type 0) (m : Action A)
    → Ensures P m
    → (s : Session) (a : A) → (m s).0 ≡ return a
    → P a (m s).1
unfolding Ensures
Ensures-at P m h = h

-- What follows a query is judged at what the query answers.
pub gets-Ensures :
    {A B : Type 0} (P : B → Session → Type 0) (f : Session → A) (k : A → Action B)
    → ((s : Session) → Ensures P (k (f s)))
    → Ensures P (gets f >>= k)
unfolding Ensures
gets-Ensures P f k h s = h s s

-- A weaker postcondition.
pub Ensures-mono :
    {A : Type 0} (P Q : A → Session → Type 0) (m : Action A)
    → ((a : A) (s : Session) → P a s → Q a s)
    → Ensures P m
    → Ensures Q m
unfolding Ensures
Ensures-mono P Q m f h s a e = f a (m s).1 (h s a e)
