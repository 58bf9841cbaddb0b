-- ===== src/Ecs/Messages.antt =====
-- common/Communicator.h and common/MessageHandler.h: who is told of which message. An observer is a
-- number, which stands for its address.
use sfrpg.Base.{
  ℕ, ◌≡◌, refl, sym, ap, ◌∙◌, inl, inr, Bool, true, false, not, ◌&&◌, ◌||◌, ◌==◌, if◌then◌else◌,
  none, some, List, [], ◌∷◌, ◌++◌, ℤ, eq_ℤ, eq_ℤ_iff, eq_ℤ_refl, lookup, update, lookup-update,
  lookup-append_fresh, arith, Bool-cases, Option-cases, if_ind, subst,
}

-- Communicator::hasObserver
unfoldable pub has_observer : ℕ → List ℕ → Bool
has_observer l_observer [] = false
has_observer l_observer (o ∷ os) = if o == l_observer then true else has_observer l_observer os

-- Communicator::addObserver
unfoldable pub add_observer : ℕ → List ℕ → List ℕ × Bool
add_observer l_observer os =
    if has_observer l_observer os then (os, false) else (os ++ l_observer ∷ [], true)

unfoldable pub erase_observer : ℕ → List ℕ → List ℕ
erase_observer l_observer [] = []
erase_observer l_observer (o ∷ os) =
    if o == l_observer then os else o ∷ erase_observer l_observer os

-- Communicator::removeObserver
unfoldable pub remove_observer : ℕ → List ℕ → List ℕ × Bool
unfolding erase_observer
remove_observer l_observer os =
    if has_observer l_observer os then (erase_observer l_observer os, true) else (os, false)

abbrev pub Subscriptions : Type 0
Subscriptions = List (ℤ × List ℕ)

-- The observers under a message's type: MessageHandler::dispatch and Communicator::broadcast notify
-- them in this order, and `m_communicators[l_message]` has them.
unfoldable pub notified : ℤ → Subscriptions → List ℕ
notified l_type m = elim (lookup l_type m) [ none ↦ [] | some os ↦ os ]

-- A write of what became of the communicator.
unfoldable pub put_observers : ℤ → List ℕ → Subscriptions → Subscriptions
put_observers l_message os m = elim (lookup l_message m) [
  | none ↦ m ++ (l_message, os) ∷ []
  | some old ↦ update l_message os m
]

-- MessageHandler::subscribe
unfoldable pub subscribe : ℤ → ℕ → Subscriptions → Subscriptions × Bool
unfolding add_observer notified put_observers
subscribe l_message l_observer m =
    let r = add_observer l_observer (notified l_message m) in (put_observers l_message r.0 m, r.1)

-- MessageHandler::unsubscribe
unfoldable pub unsubscribe : ℤ → ℕ → Subscriptions → Subscriptions × Bool
unfolding remove_observer notified put_observers
unsubscribe l_message l_observer m =
    let r = remove_observer l_observer (notified l_message m) in
    (put_observers l_message r.0 m, r.1)

-- No observer stands twice.
abbrev pub UniqueObservers : List ℕ → Type 0
UniqueObservers [] = Unit
UniqueObservers (o ∷ os) = (has_observer o os ≡ false) × UniqueObservers os

has_observer-append :
    (p o : ℕ) (os : List ℕ) → has_observer p (os ++ o ∷ []) ≡ (has_observer p os || o == p)
unfolding has_observer
has_observer-append p o [] = ground arith
has_observer-append p o (q ∷ os) = ground (arith, has_observer-append p o os)

UniqueObservers-append :
    (o : ℕ) (os : List ℕ)
    → has_observer o os ≡ false
    → UniqueObservers os
    → UniqueObservers (os ++ o ∷ [])
unfolding has_observer
UniqueObservers-append o [] h u = (refl, tt)
UniqueObservers-append o (q ∷ os) h u =
    (ground (arith, has_observer-append q o os), UniqueObservers-append o os (ground arith) u.1)

has_observer-erase_observer :
    (p o : ℕ) (os : List ℕ)
    → UniqueObservers os
    → has_observer p (erase_observer o os) ≡ (not (p == o) && has_observer p os)
unfolding has_observer erase_observer
has_observer-erase_observer p o [] u = ground arith
has_observer-erase_observer p o (q ∷ os) u = elim (Bool-cases (q == o)) [
  | inl same ↦
      let e : q ≡ o = ground arith in
      let gone : has_observer o os ≡ false = ap (λ (k : ℕ). has_observer k os) (sym e) ∙ u.0 in
      elim (Bool-cases (p == o)) [
        | inl at_o ↦
            let f : p ≡ o = ground arith in
            ground (arith, gone, ap (λ (k : ℕ). has_observer k os) f)
        | inr other ↦ ground arith
      ]
  | inr other ↦ ground (arith, has_observer-erase_observer p o os u.1)
]

notified-put_observers :
    (k j : ℤ) (os : List ℕ) (m : Subscriptions)
    → notified j (put_observers k os m) ≡ (if eq_ℤ k j then os else notified j m)
unfolding notified put_observers
notified-put_observers k j os m = elim (Option-cases (lookup k m)) [
  | inl missing ↦ ground (arith, missing, lookup-append_fresh k j os m missing)
  | inr (old, known) ↦ ground (arith, known, lookup-update k j os old m known)
]

has_observer-add_observer :
    (p o : ℕ) (os : List ℕ) → has_observer p (add_observer o os).0 ≡ ((o == p) || has_observer p os)
unfolding add_observer
has_observer-add_observer p o os = elim (Bool-cases (o == p)) [
  | inl same ↦
      let e : o ≡ p = ground arith in
      ground (arith, has_observer-append p o os, ap (λ (k : ℕ). has_observer k os) e)
  | inr other ↦ ground (arith, has_observer-append p o os)
]

UniqueObservers-add_observer :
    (o : ℕ) (os : List ℕ) → UniqueObservers os → UniqueObservers (add_observer o os).0
unfolding add_observer
UniqueObservers-add_observer o os u =
    if_ind (λ (r : List ℕ × Bool). UniqueObservers r.0) (has_observer o os) (λ inside. u)
      (λ outside. UniqueObservers-append o os outside u)

new_observer : (o : ℕ) (os : List ℕ) → (add_observer o os).1 ≡ not (has_observer o os)
unfolding add_observer
new_observer o os = ground arith

known_observer : (o : ℕ) (os : List ℕ) → (remove_observer o os).1 ≡ has_observer o os
unfolding remove_observer
known_observer o os = ground arith

has_observer-remove_observer :
    (p o : ℕ) (os : List ℕ)
    → UniqueObservers os
    → has_observer p (remove_observer o os).0 ≡ (not (o == p) && has_observer p os)
unfolding remove_observer
has_observer-remove_observer p o os u = elim (Bool-cases (o == p)) [
  | inl same ↦
      let e : o ≡ p = ground arith in
      ground (arith, has_observer-erase_observer p o os u, ap (λ (k : ℕ). has_observer k os) e)
  | inr other ↦ ground (arith, has_observer-erase_observer p o os u)
]

-- A subscription answers whether it was new, and from then on a message of its type notifies that
-- observer, once; whom any other message notifies stays as it was, and so do the other observers.
pub subscribe_lem :
    (k j : ℤ) (o p : ℕ) (m : Subscriptions)
    → UniqueObservers (notified k m)
    → ((subscribe k o m).1 ≡ not (has_observer o (notified k m)))
      × (has_observer p (notified j (subscribe k o m).0)
          ≡ ((eq_ℤ k j && o == p) || has_observer p (notified j m)))
      × UniqueObservers (notified k (subscribe k o m).0)
unfolding subscribe
subscribe_lem k j o p m u =
    let os = (add_observer o (notified k m)).0 in
    let at_k : notified k (put_observers k os m) ≡ os =
      notified-put_observers k k os m ∙ rw (eq_ℤ_refl k) refl in
    (
      new_observer o (notified k m),
      ap (has_observer p) (notified-put_observers k j os m) ∙ elim (Bool-cases (eq_ℤ k j)) [
        | inl same ↦
            let e : k ≡ j = (eq_ℤ_iff k j).0 same in
            rw same (
              has_observer-add_observer p o (notified k m)
              ∙ ap (λ (i : ℤ). (o == p) || has_observer p (notified i m)) e)
        | inr other ↦ rw other refl
      ],
      subst UniqueObservers (sym at_k) (UniqueObservers-add_observer o (notified k m) u),
    )

-- An observer that unsubscribes is no longer notified of that type, and the answer says whether it
-- was; everyone else is notified as before.
pub unsubscribe_lem :
    (k j : ℤ) (o p : ℕ) (m : Subscriptions)
    → UniqueObservers (notified k m)
    → ((unsubscribe k o m).1 ≡ has_observer o (notified k m))
      × (has_observer p (notified j (unsubscribe k o m).0)
          ≡ (not (eq_ℤ k j && o == p) && has_observer p (notified j m)))
unfolding unsubscribe
unsubscribe_lem k j o p m u =
    let os = (remove_observer o (notified k m)).0 in
    (
      known_observer o (notified k m),
      ap (has_observer p) (notified-put_observers k j os m) ∙ elim (Bool-cases (eq_ℤ k j)) [
        | inl same ↦
            let e : k ≡ j = (eq_ℤ_iff k j).0 same in
            rw same (
              has_observer-remove_observer p o (notified k m) u
              ∙ ap (λ (i : ℤ). not (o == p) && has_observer p (notified i m)) e)
        | inr other ↦ rw other refl
      ],
    )
