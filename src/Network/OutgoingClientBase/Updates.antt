-- ===== src/Network/OutgoingClientBase/Updates.antt =====
-- What lasts over the events of `update`.
use kge.Prelude.{ℕ, ◌≡◌, refl, sym, ◌∙◌, some, List, [], ◌∷◌, All, Outcome, done, raised, undefined}
use kge.Network.OutgoingClientBase.{
  Client, ClientCallbacks, ClientEvent, update, update_loop, handle_event,
}

-- A return or an exception, with a client for which `P` holds.
abbrev pub Safe : {G : Type 0} → (Client G → Type 0) → Outcome (Client G) → Type 0
Safe P (done c) = P c
Safe P (raised e c) = P c
Safe P undefined = ⊥

module _ {G : Type 0} (on : ClientCallbacks G) (P : Client G → Type 0) (E : ClientEvent → Type 0)
    (keeps : (c : Client G) (e : ClientEvent) → P c → E e → Safe P (handle_event on c e)) where
  update_loop-Safe :
      (c : Client G) (events : List ClientEvent)
      → P c
      → All E events
      → Safe P (update_loop on c events)
  unfolding update_loop
  update_loop-Safe c [] h legal = h
  update_loop-Safe c (e ∷ es) h (legal, later) =
      continue (handle_event on c e) refl (keeps c e h legal) (λ d p. update_loop-Safe d es p later)
    where
      continue :
          (o : Outcome (Client G))
          → handle_event on c e ≡ o
          → Safe P o
          → ((d : Client G) → P d → Safe P (update_loop on d es))
          → Safe P (update_loop on c (e ∷ es))
      continue (done d) eq p next = rw (update_loop, eq) (next d p)
      continue (raised x d) eq p next = rw (update_loop, eq) p
      continue undefined eq p next = absurd p

  -- What each event keeps, whether it returns or throws, an update keeps.
  pub update-Safe :
      (c : Client G) (host : ℕ) (events : List ClientEvent)
      → c.internal_host ≡ some host
      → P c
      → All E events
      → Safe P (update on c events)
  unfolding update
  update-Safe c host events has_host h legal =
      rw (update, has_host) (update_loop-Safe c events h legal)

-- An event that returns, before others.
module _ {G : Type 0} (on : ClientCallbacks G) where
  update_loop-one :
      (c : Client G) (e : ClientEvent) → update_loop on c (e ∷ []) ≡ handle_event on c e
  unfolding update_loop
  update_loop-one c e = go (handle_event on c e)
    where
      go :
          (o : Outcome (Client G))
          → (elim o [ done d ↦ done d | raised x d ↦ raised x d | undefined ↦ undefined ]) ≡ o
      go (done d) = refl
      go (raised x d) = refl
      go undefined = refl

  pub update_nothing :
      (c : Client G) (host : ℕ) → c.internal_host ≡ some host → update on c [] ≡ done c
  unfolding update update_loop
  update_nothing c host has_host = simp (update, has_host) refl

  pub update_then :
      (c d : Client G) (host : ℕ) (e : ClientEvent) (es : List ClientEvent)
      → c.internal_host ≡ some host
      → d.internal_host ≡ some host
      → update on c (e ∷ []) ≡ done d
      → update on c (e ∷ es) ≡ update on d es
  unfolding update update_loop
  update_then c d host e es has_host still h =
      let one : handle_event on c e ≡ done d =
        sym (simp (update, has_host) (update_loop-one c e)) ∙ h in
      simp (update, has_host, still) (rw (update_loop, one) refl)
