-- ===== src/Send/Program/Within.antt =====
-- Programs that neither submit nor record an acceptance, and whose writes satisfy a predicate.
use stormbox.Outbox.Vocabulary.{MutationPhase}
use stormbox.Outbox.Errors.{JmapError}
use stormbox.Send.Checkpoint.{SendCheckpoint}
use stormbox.Send.Outcome.{SendOutcome}
use stormbox.Send.Program.{
  Reply, got, failed, Send, pure, raise, finish, save, accept, submit, ask, ◌>>=◌,
}
use stormbox.Send.Program.World.{World, saved, IsLegal}
use stormbox.Send.Program.Rules.{Ensures}

-- Any result.
abbrev pub Done : {A : Type 0} → A → Type 0
Done a = Unit

module _ (P : SendCheckpoint → MutationPhase → Type 0) where
  abbrev pub Within : {A : Type 0} → (A → Type 0) → Send A → Type 0
  Within R (pure a) = R a
  Within R (raise e) = Unit
  Within R (finish o) = Unit
  Within R (save c p k) =
      P c p × (Within R (k (got tt)) × ((e : JmapError) → Within R (k (failed e))))
  Within R (accept c s k) = ⊥
  Within R (submit s k) = ⊥
  Within R (ask q k) = (r : Reply _) → IsLegal q r → Within R (k r)

  pub Within-bind :
      {A B : Type 0} (R : A → Type 0) (Q : B → Type 0) (m : Send A) (f : A → Send B)
      → Within R m
      → ((a : A) → R a → Within Q (f a))
      → Within Q (m >>= f)
  unfolding ◌>>=◌
  Within-bind R Q (pure a) f h g = g a h
  Within-bind R Q (raise e) f h g = tt
  Within-bind R Q (finish o) f h g = tt
  Within-bind R Q (save c p k) f h g = (
    h.0,
    (Within-bind R Q (k (got tt)) f h.1.0 g, λ e. Within-bind R Q (k (failed e)) f (h.1.1 e) g),
  )
  Within-bind R Q (accept c s k) f h g = absurd h
  Within-bind R Q (submit s k) f h g = absurd h
  Within-bind R Q (ask q k) f h g = λ r legal. Within-bind R Q (k r) f (h r legal) g

  module _ (I : World → Type 0) (T : JmapError → World → Type 0) (F : SendOutcome → World → Type 0)
      (J : World → Type 0) (now : (w : World) → J w → I w)
      (thrown : (e : JmapError) (w : World) → J w → T e w)
      (early : (o : SendOutcome) (w : World) → J w → F o w)
      (kept : (c : SendCheckpoint) (p : MutationPhase) (w : World)
        → P c p
        → J w
        → J (saved c p w)) where
    pub Within-Ensures :
        {A : Type 0} (R : A → Type 0) (m : Send A) (w : World)
        → Within R m
        → J w
        → Ensures I T F (λ a w'. R a × J w') m w
    Within-Ensures R (pure a) w h j = (now w j, (h, j))
    Within-Ensures R (raise e) w h j = (now w j, thrown e w j)
    Within-Ensures R (finish o) w h j = (now w j, early o w j)
    Within-Ensures R (save c p k) w h j =
        let j' : J (saved c p w) = kept c p w h.0 j in
        (
          now w j,
          (
            Within-Ensures R (k (got tt)) (saved c p w) h.1.0 j',
            λ e. (
              Within-Ensures R (k (failed e)) w (h.1.1 e) j,
              Within-Ensures R (k (failed e)) (saved c p w) (h.1.1 e) j',
            ),
          ),
        )
    Within-Ensures R (accept c s k) w h j = absurd h
    Within-Ensures R (submit s k) w h j = absurd h
    Within-Ensures R (ask q k) w h j = (now w j, λ r legal. Within-Ensures R (k r) w (h r legal) j)
