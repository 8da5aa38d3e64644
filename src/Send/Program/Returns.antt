-- ===== src/Send/Program/Returns.antt =====
-- Programs that come to an end with a value.
use stormbox.Base.{◌≡◌, ◌⊎◌, inl, inr, refl}
use stormbox.Send.Program.{
  Reply, got, failed, Send, pure, raise, finish, save, accept, submit, ask, ◌>>=◌,
}
use stormbox.Send.Program.World.{
  World, Ending, value, died, Exec, dies, pures, raises, finishes, saves, save_fails,
  save_fails_late, accepts, accept_fails, accept_fails_late, submits, asks,
}

-- Whatever its calls answer, the program comes to an end with a value: it neither throws nor returns
-- early.
abbrev pub Returns : {A : Type 0} → Send A → Type 0
Returns (pure a) = Unit
Returns (raise e) = ⊥
Returns (finish o) = ⊥
Returns (save c p k) = (r : Reply _) → Returns (k r)
Returns (accept c s k) = (r : Reply _) → Returns (k r)
Returns (submit s k) = (r : Reply _) → Returns (k r)
Returns (ask q k) = (r : Reply _) → Returns (k r)

pub Returns-bind :
    {A B : Type 0} (m : Send A) (f : A → Send B)
    → Returns m
    → ((a : A) → Returns (f a))
    → Returns (m >>= f)
unfolding ◌>>=◌
Returns-bind (pure a) f h g = g a
Returns-bind (raise e) f h g = absurd h
Returns-bind (finish o) f h g = absurd h
Returns-bind (save c p k) f h g = λ r. Returns-bind (k r) f (h r) g
Returns-bind (accept c s k) f h g = λ r. Returns-bind (k r) f (h r) g
Returns-bind (submit s k) f h g = λ r. Returns-bind (k r) f (h r) g
Returns-bind (ask q k) f h g = λ r. Returns-bind (k r) f (h r) g

-- A run that no crash cut off ends with a value.
pub Returns-Exec :
    {A : Type 0} (m : Send A) (w : World) (e : Ending A) (w' : World)
    → Returns m
    → Exec m w e w'
    → (e ≡ died) ⊎ ((a : A) × (e ≡ value a))
Returns-Exec m w _ _ h dies = inl refl
Returns-Exec (pure a) w _ _ h pures = inr (a, refl)
Returns-Exec (raise x) w _ _ h raises = absurd h
Returns-Exec (finish o) w _ _ h finishes = absurd h
Returns-Exec (save c p k) w e w' h (saves r) = Returns-Exec (k (got tt)) _ e w' (h (got tt)) r
Returns-Exec (save c p k) w e w' h (save_fails x r) =
    Returns-Exec (k (failed x)) w e w' (h (failed x)) r
Returns-Exec (save c p k) w e w' h (save_fails_late x r) =
    Returns-Exec (k (failed x)) _ e w' (h (failed x)) r
Returns-Exec (accept c s k) w e w' h (accepts r) = Returns-Exec (k (got _)) _ e w' (h (got _)) r
Returns-Exec (accept c s k) w e w' h (accept_fails x r) =
    Returns-Exec (k (failed x)) w e w' (h (failed x)) r
Returns-Exec (accept c s k) w e w' h (accept_fails_late x r) =
    Returns-Exec (k (failed x)) _ e w' (h (failed x)) r
Returns-Exec (submit s k) w e w' h (submits x a honest r) = Returns-Exec (k x) _ e w' (h x) r
Returns-Exec (ask q k) w e w' h (asks x legal r) = Returns-Exec (k x) w e w' (h x) r
