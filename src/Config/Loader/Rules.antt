-- ===== src/Config/Loader/Rules.antt =====
-- What holds after statements of the loader that have not thrown: a rule for each kind of statement.
use coro_actor.Prelude.{Bool, true, false, Bytes, if◌then◌else◌}
use coro_actor.Config.{Config}
use coro_actor.Config.Yaml.{Result, ok, thrown}
use coro_actor.Config.Loader.{
  Loading, Exec, pure, and_then, ◌>>=◌, ◌>>◌, from_result, require, when, modify,
}

abbrev pub Post : {A : Type 0} → (A → Loading → Type 0) → Result A × Loading → Type 0
Post Q (ok a, l) = Q a l
Post Q (thrown e, l) = Unit

and_then-Post :
    {A B : Type 0} {Q : A → Loading → Type 0} (R : B → Loading → Type 0) (r : Result A × Loading)
    (f : A → Exec B)
    → Post Q r
    → ((a : A) (l : Loading) → Q a l → Post R (f a l))
    → Post R (and_then r f)
and_then-Post R (ok a, l) f h g = g a l h
and_then-Post R (thrown e, l) f h g = tt

-- Where `P` holds before, `Q` holds after.
pub record Ensures {A : Type 0} (P : Loading → Type 0) (m : Exec A) (Q : A → Loading → Type 0)
    : Type 0 where
  pub run : (l : Loading) → P l → Post Q (m l)

pub >>=-Ensures :
    {A B : Type 0} {P : Loading → Type 0} {Q : A → Loading → Type 0} {R : B → Loading → Type 0}
    (m : Exec A) (f : A → Exec B)
    → Ensures P m Q
    → ((a : A) → Ensures (Q a) (f a) R)
    → Ensures P (m >>= f) R
unfolding ◌>>=◌
>>=-Ensures {R} m f h g = record {
  run = λ l p. and_then-Post R (m l) f (h.run l p) (λ a. (g a).run);
}

pub >>-Ensures :
    {B : Type 0} {P Q : Loading → Type 0} {R : B → Loading → Type 0} (m : Exec (Unit {0}))
    (k : Exec B)
    → Ensures P m (λ _. Q)
    → Ensures Q k R
    → Ensures P (m >> k) R
unfolding ◌>>◌
>>-Ensures {R} m k h g = record {
  run = λ l p. and_then-Post R (m l) (λ _. k) (h.run l p) (λ _. g.run);
}

module _ {P : Loading → Type 0} where
  -- A read changes nothing.
  pub from_result-Ensures : {A : Type 0} (r : Result A) → Ensures P (from_result r) (λ _. P)
  unfolding from_result
  from_result-Ensures (ok a) = record { run = λ l p. p }
  from_result-Ensures (thrown e) = record { run = λ l p. tt }

  pub require-Ensures : (b : Bool) (e : Bytes) → Ensures P (require b e) (λ _. P)
  unfolding require
  require-Ensures true e = record { run = λ l p. p }
  require-Ensures false e = record { run = λ l p. tt }

  pub when-Ensures :
      (b : Bool) (m : Exec (Unit {0})) → Ensures P m (λ _. P) → Ensures P (when b m) (λ _. P)
  unfolding when
  when-Ensures true m h = h
  when-Ensures false m h = record { run = λ l p. p }

  pub pure-Ensures :
      {A : Type 0} {Q : A → Loading → Type 0} (a : A)
      → ((l : Loading) → P l → Q a l)
      → Ensures P (pure a) Q
  unfolding pure
  pure-Ensures a h = record { run = h }

  pub modify-Ensures :
      {Q : Loading → Type 0} (f : Config → Config)
      → ((l : Loading) → P l → Q (record l { config = f l.config }))
      → Ensures P (modify f) (λ _. Q)
  unfolding modify
  modify-Ensures f h = record { run = h }

  pub if-Ensures :
      {A : Type 0} {Q : A → Loading → Type 0} (b : Bool) (m k : Exec A)
      → Ensures P m Q
      → Ensures P k Q
      → Ensures P (if b then m else k) Q
  if-Ensures true m k h g = h
  if-Ensures false m k h g = g
