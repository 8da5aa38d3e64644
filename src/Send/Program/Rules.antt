-- ===== src/Send/Program/Rules.antt =====
-- Rules for programs: what holds at every await of a run, and at its end.
use stormbox.Base.{Bool}
use stormbox.Outbox.Errors.{JmapError}
use stormbox.Send.Outcome.{SendOutcome}
use stormbox.Send.Program.{
  Reply, got, failed, Send, pure, raise, finish, save, accept, submit, ask, ◌>>=◌,
}
use stormbox.Send.Program.World.{
  World, saved, trusted, accept_and_queue_trust, submitted_to, IsHonest, IsLegal, Ending, value,
  threw, finished, died, Exec, dies, pures, raises, finishes, saves, save_fails, save_fails_late,
  accepts, accept_fails, accept_fails_late, submits, asks,
}

-- `I` holds at every await, `T` after a throw, `F` after an early return.
module _ (I : World → Type 0) (T : JmapError → World → Type 0)
    (F : SendOutcome → World → Type 0) where
  abbrev pub Ensures : {A : Type 0} → (A → World → Type 0) → Send A → World → Type 0
  Ensures Q (pure a) w = I w × Q a w
  Ensures Q (raise e) w = I w × T e w
  Ensures Q (finish o) w = I w × F o w
  Ensures Q (save c p k) w =
      I w
      × (Ensures Q (k (got tt)) (saved c p w)
          × ((e : JmapError) → Ensures Q (k (failed e)) w × Ensures Q (k (failed e)) (saved c p w)))
  Ensures Q (accept c s k) w =
      I w
      × (Ensures Q (k (got (trusted c))) (accept_and_queue_trust c s w)
          × ((e : JmapError)
              → Ensures Q (k (failed e)) w
                × Ensures Q (k (failed e)) (accept_and_queue_trust c s w)))
  Ensures Q (submit s k) w =
      I w × ((r : Reply _) (a : Bool) → IsHonest r a → Ensures Q (k r) (submitted_to a w))
  Ensures Q (ask q k) w = I w × ((r : Reply _) → IsLegal q r → Ensures Q (k r) w)

  abbrev pub Ends : {A : Type 0} → (A → World → Type 0) → Ending A → World → Type 0
  Ends Q (value a) w = Q a w
  Ends Q (threw e) w = T e w
  Ends Q (finished o) w = F o w
  Ends Q died w = Unit

  -- The promise holds of a program with no await, too.
  pub Ensures_now :
      {A : Type 0} (Q : A → World → Type 0) (m : Send A) (w : World) → Ensures Q m w → I w
  Ensures_now Q (pure a) w h = h.0
  Ensures_now Q (raise e) w h = h.0
  Ensures_now Q (finish o) w h = h.0
  Ensures_now Q (save c p k) w h = h.0
  Ensures_now Q (accept c s k) w h = h.0
  Ensures_now Q (submit s k) w h = h.0
  Ensures_now Q (ask q k) w h = h.0

  pub Ensures-Exec :
      {A : Type 0} (Q : A → World → Type 0) (m : Send A) (w : World) (e : Ending A) (w' : World)
      → Ensures Q m w
      → Exec m w e w'
      → I w' × Ends Q e w'
  Ensures-Exec Q m w _ _ h dies = (Ensures_now Q m w h, tt)
  Ensures-Exec Q (pure a) w _ _ h pures = h
  Ensures-Exec Q (raise x) w _ _ h raises = h
  Ensures-Exec Q (finish o) w _ _ h finishes = h
  Ensures-Exec Q (save c p k) w e w' h (saves r) =
      Ensures-Exec Q (k (got tt)) (saved c p w) e w' h.1.0 r
  Ensures-Exec Q (save c p k) w e w' h (save_fails x r) =
      Ensures-Exec Q (k (failed x)) w e w' (h.1.1 x).0 r
  Ensures-Exec Q (save c p k) w e w' h (save_fails_late x r) =
      Ensures-Exec Q (k (failed x)) (saved c p w) e w' (h.1.1 x).1 r
  Ensures-Exec Q (accept c s k) w e w' h (accepts r) =
      Ensures-Exec Q (k (got (trusted c))) (accept_and_queue_trust c s w) e w' h.1.0 r
  Ensures-Exec Q (accept c s k) w e w' h (accept_fails x r) =
      Ensures-Exec Q (k (failed x)) w e w' (h.1.1 x).0 r
  Ensures-Exec Q (accept c s k) w e w' h (accept_fails_late x r) =
      Ensures-Exec Q (k (failed x)) (accept_and_queue_trust c s w) e w' (h.1.1 x).1 r
  Ensures-Exec Q (submit s k) w e w' h (submits x a honest r) =
      Ensures-Exec Q (k x) (submitted_to a w) e w' (h.1 x a honest) r
  Ensures-Exec Q (ask q k) w e w' h (asks x legal r) = Ensures-Exec Q (k x) w e w' (h.1 x legal) r

  pub Ensures-bind :
      {A B : Type 0} (R : A → World → Type 0) (Q : B → World → Type 0) (m : Send A) (f : A → Send B)
      (w : World)
      → Ensures R m w
      → ((a : A) (w' : World) → I w' → R a w' → Ensures Q (f a) w')
      → Ensures Q (m >>= f) w
  unfolding ◌>>=◌
  Ensures-bind R Q (pure a) f w h g = g a w h.0 h.1
  Ensures-bind R Q (raise e) f w h g = h
  Ensures-bind R Q (finish o) f w h g = h
  Ensures-bind R Q (save c p k) f w h g = (
    h.0,
    (
      Ensures-bind R Q (k (got tt)) f (saved c p w) h.1.0 g,
      λ e. (
        Ensures-bind R Q (k (failed e)) f w (h.1.1 e).0 g,
        Ensures-bind R Q (k (failed e)) f (saved c p w) (h.1.1 e).1 g,
      ),
    ),
  )
  Ensures-bind R Q (accept c s k) f w h g = (
    h.0,
    (
      Ensures-bind R Q (k (got (trusted c))) f (accept_and_queue_trust c s w) h.1.0 g,
      λ e. (
        Ensures-bind R Q (k (failed e)) f w (h.1.1 e).0 g,
        Ensures-bind R Q (k (failed e)) f (accept_and_queue_trust c s w) (h.1.1 e).1 g,
      ),
    ),
  )
  Ensures-bind R Q (submit s k) f w h g =
      (h.0, λ r a honest. Ensures-bind R Q (k r) f (submitted_to a w) (h.1 r a honest) g)
  Ensures-bind R Q (ask q k) f w h g = (h.0, λ r legal. Ensures-bind R Q (k r) f w (h.1 r legal) g)

  pub Ensures-weaken :
      {A : Type 0} (R Q : A → World → Type 0) (m : Send A) (w : World)
      → ((a : A) (w' : World) → R a w' → Q a w')
      → Ensures R m w
      → Ensures Q m w
  Ensures-weaken R Q (pure a) w g h = (h.0, g a w h.1)
  Ensures-weaken R Q (raise e) w g h = h
  Ensures-weaken R Q (finish o) w g h = h
  Ensures-weaken R Q (save c p k) w g h = (
    h.0,
    (
      Ensures-weaken R Q (k (got tt)) (saved c p w) g h.1.0,
      λ e. (
        Ensures-weaken R Q (k (failed e)) w g (h.1.1 e).0,
        Ensures-weaken R Q (k (failed e)) (saved c p w) g (h.1.1 e).1,
      ),
    ),
  )
  Ensures-weaken R Q (accept c s k) w g h = (
    h.0,
    (
      Ensures-weaken R Q (k (got (trusted c))) (accept_and_queue_trust c s w) g h.1.0,
      λ e. (
        Ensures-weaken R Q (k (failed e)) w g (h.1.1 e).0,
        Ensures-weaken R Q (k (failed e)) (accept_and_queue_trust c s w) g (h.1.1 e).1,
      ),
    ),
  )
  Ensures-weaken R Q (submit s k) w g h =
      (h.0, λ r a honest. Ensures-weaken R Q (k r) (submitted_to a w) g (h.1 r a honest))
  Ensures-weaken R Q (ask q k) w g h = (h.0, λ r legal. Ensures-weaken R Q (k r) w g (h.1 r legal))
