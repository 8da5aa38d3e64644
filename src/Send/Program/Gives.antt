-- ===== src/Send/Program/Gives.antt =====
-- What a program gives: a predicate on its values, and one on its early returns.
use stormbox.Send.Outcome.{SendOutcome}
use stormbox.Send.Program.{
  Reply, got, failed, Send, pure, raise, finish, save, accept, submit, ask, ◌>>=◌,
}
use stormbox.Send.Program.World.{
  World, Ending, value, threw, finished, died, Exec, dies, pures, raises, finishes, saves,
  save_fails, save_fails_late, accepts, accept_fails, accept_fails_late, submits, asks,
}

module _ (F : SendOutcome → Type 0) where
  abbrev pub Gives : {A : Type 0} → (A → Type 0) → Send A → Type 0
  Gives R (pure a) = R a
  Gives R (raise e) = Unit
  Gives R (finish o) = F o
  Gives R (save c p k) = (r : Reply _) → Gives R (k r)
  Gives R (accept c s k) = (r : Reply _) → Gives R (k r)
  Gives R (submit s k) = (r : Reply _) → Gives R (k r)
  Gives R (ask q k) = (r : Reply _) → Gives R (k r)

  pub Gives-bind :
      {A B : Type 0} (R : A → Type 0) (Q : B → Type 0) (m : Send A) (f : A → Send B)
      → Gives R m
      → ((a : A) → R a → Gives Q (f a))
      → Gives Q (m >>= f)
  unfolding ◌>>=◌
  Gives-bind R Q (pure a) f h g = g a h
  Gives-bind R Q (raise e) f h g = tt
  Gives-bind R Q (finish o) f h g = h
  Gives-bind R Q (save c p k) f h g = λ r. Gives-bind R Q (k r) f (h r) g
  Gives-bind R Q (accept c s k) f h g = λ r. Gives-bind R Q (k r) f (h r) g
  Gives-bind R Q (submit s k) f h g = λ r. Gives-bind R Q (k r) f (h r) g
  Gives-bind R Q (ask q k) f h g = λ r. Gives-bind R Q (k r) f (h r) g

  abbrev pub EndsIn : {A : Type 0} → (A → Type 0) → Ending A → Type 0
  EndsIn R (value a) = R a
  EndsIn R (threw e) = Unit
  EndsIn R (finished o) = F o
  EndsIn R died = Unit

  pub Gives-Exec :
      {A : Type 0} (R : A → Type 0) (m : Send A) (w : World) (e : Ending A) (w' : World)
      → Gives R m
      → Exec m w e w'
      → EndsIn R e
  Gives-Exec R m w _ _ h dies = tt
  Gives-Exec R (pure a) w _ _ h pures = h
  Gives-Exec R (raise x) w _ _ h raises = tt
  Gives-Exec R (finish o) w _ _ h finishes = h
  Gives-Exec R (save c p k) w e w' h (saves r) = Gives-Exec R (k (got tt)) _ e w' (h (got tt)) r
  Gives-Exec R (save c p k) w e w' h (save_fails x r) =
      Gives-Exec R (k (failed x)) w e w' (h (failed x)) r
  Gives-Exec R (save c p k) w e w' h (save_fails_late x r) =
      Gives-Exec R (k (failed x)) _ e w' (h (failed x)) r
  Gives-Exec R (accept c s k) w e w' h (accepts r) = Gives-Exec R (k (got _)) _ e w' (h (got _)) r
  Gives-Exec R (accept c s k) w e w' h (accept_fails x r) =
      Gives-Exec R (k (failed x)) w e w' (h (failed x)) r
  Gives-Exec R (accept c s k) w e w' h (accept_fails_late x r) =
      Gives-Exec R (k (failed x)) _ e w' (h (failed x)) r
  Gives-Exec R (submit s k) w e w' h (submits x a honest r) = Gives-Exec R (k x) _ e w' (h x) r
  Gives-Exec R (ask q k) w e w' h (asks x legal r) = Gives-Exec R (k x) w e w' (h x) r
