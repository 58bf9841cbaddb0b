-- ===== src/Resources/Laws.antt =====
-- Lemmas on the tables of common/ResourceManager.h.
use sfrpg.Base.{
  ◌≡◌, refl, inl, inr, if◌then◌else◌, none, some, [], ◌∷◌, ◌++◌, Text, eq_text, eq_text_iff, arith,
  Bool-cases,
}
use sfrpg.Resources.{Table, find_entry, set_entry, drop_entry, add_entry}

module _ {ℓ} {V : Type ℓ} where
  pub find_entry-set_entry :
      (id j : Text) (v w : V) (t : Table V)
      → find_entry id t ≡ some w
      → find_entry j (set_entry id v t) ≡ (if eq_text id j then some v else find_entry j t)
  unfolding find_entry set_entry
  find_entry-set_entry id j v w [] h = ground arith
  find_entry-set_entry id j v w ((key, u) ∷ t) h = ground (
    arith,
    eq_text_iff key id,
    eq_text_iff key j,
    eq_text_iff id j,
    find_entry-set_entry id j v w t,
  )

  pub add_entry_new :
      (id : Text) (v : V) (t : Table V)
      → find_entry id t ≡ none
      → add_entry id v t ≡ t ++ (id, v) ∷ []
  unfolding add_entry
  add_entry_new id v t h = rw (h, add_entry) refl

  pub find_entry-append :
      (id j : Text) (v : V) (t : Table V)
      → find_entry id t ≡ none
      → find_entry j (t ++ (id, v) ∷ []) ≡ (if eq_text id j then some v else find_entry j t)
  unfolding find_entry
  find_entry-append id j v [] h = refl
  find_entry-append id j v ((key, u) ∷ t) h =
      ground
        (arith, eq_text_iff key id, eq_text_iff key j, eq_text_iff id j, find_entry-append id j v t)

  -- No key stands twice, and every value is as `P` says.
  abbrev pub Sound {κ} : (V → Type κ) → Table V → Type (ℓ ⊔ κ)
  Sound P [] = Unit
  Sound P ((key, v) ∷ t) = (find_entry key t ≡ none) × P v × Sound P t

  pub find_entry-drop_entry {κ} :
      (P : V → Type κ) (id j : Text) (t : Table V)
      → Sound P t
      → find_entry j (drop_entry id t) ≡ (if eq_text id j then none else find_entry j t)
  unfolding find_entry drop_entry
  find_entry-drop_entry P id j [] s = ground arith
  find_entry-drop_entry P id j ((key, u) ∷ t) s = ground (
    arith,
    eq_text_iff key id,
    eq_text_iff key j,
    eq_text_iff id j,
    s.0,
    find_entry-drop_entry P id j t s.2,
  )

  pub Sound-find_entry {κ} :
      (P : V → Type κ) (id : Text) (v : V) (t : Table V)
      → Sound P t
      → find_entry id t ≡ some v
      → P v
  unfolding find_entry
  Sound-find_entry P id v [] s h = cc
  Sound-find_entry P id v ((key, u) ∷ t) s h = elim (Bool-cases (eq_text key id)) [
    | inl hit ↦ rw (the_same (rw hit at h)) at s.1
    | inr miss ↦ Sound-find_entry P id v t s.2 (rw miss at h)
  ]
    where
      the_same : {a b : V} → some a ≡ some b → a ≡ b
      the_same e = cc

  pub Sound-set_entry {κ} :
      (P : V → Type κ) (id : Text) (v w : V) (t : Table V)
      → find_entry id t ≡ some w
      → P v
      → Sound P t
      → Sound P (set_entry id v t)
  unfolding find_entry set_entry
  Sound-set_entry P id v w [] h p s = tt
  Sound-set_entry P id v w ((key, u) ∷ t) h p s = elim (Bool-cases (eq_text key id)) [
    | inl hit ↦ rw hit (s.0, p, s.2)
    | inr miss ↦
        let there : find_entry id t ≡ some w = rw miss at h in
        let away = find_entry-set_entry id key v w t there in
        rw miss (
          ground (arith, away, s.0, eq_text_iff id key, eq_text_iff key id),
          s.1,
          Sound-set_entry P id v w t there p s.2,
        )
  ]

  pub Sound-append {κ} :
      (P : V → Type κ) (id : Text) (v : V) (t : Table V)
      → find_entry id t ≡ none
      → P v
      → Sound P t
      → Sound P (t ++ (id, v) ∷ [])
  unfolding find_entry
  Sound-append P id v [] h p s = (refl, p, tt)
  Sound-append P id v ((key, u) ∷ t) h p s = elim (Bool-cases (eq_text key id)) [
    | inl hit ↦ absurd (ground (arith, hit))
    | inr miss ↦
        let there : find_entry id t ≡ none = rw miss at h in
        let away = find_entry-append id key v t there in
        (
          ground (arith, away, s.0, miss, eq_text_iff id key, eq_text_iff key id),
          s.1,
          Sound-append P id v t there p s.2,
        )
  ]

  pub Sound-drop_entry {κ} :
      (P : V → Type κ) (id : Text) (t : Table V) → Sound P t → Sound P (drop_entry id t)
  unfolding drop_entry
  Sound-drop_entry P id [] s = tt
  Sound-drop_entry P id ((key, u) ∷ t) s = elim (Bool-cases (eq_text key id)) [
    | inl hit ↦ rw hit s.2
    | inr miss ↦
        let away = find_entry-drop_entry P id key t s.2 in
        rw miss (ground (arith, away, s.0), s.1, Sound-drop_entry P id t s.2)
  ]

  pub Sound-map {κ μ} :
      {P : V → Type κ} {Q : V → Type μ} (f : (v : V) → P v → Q v) (t : Table V)
      → Sound P t
      → Sound Q t
  Sound-map f [] s = tt
  Sound-map f ((key, v) ∷ t) s = (s.0, f v s.1, Sound-map f t s.2)

  pub drop_entry-set_entry :
      (id : Text) (v : V) (t : Table V) → drop_entry id (set_entry id v t) ≡ drop_entry id t
  unfolding drop_entry set_entry
  drop_entry-set_entry id v [] = refl
  drop_entry-set_entry id v ((key, u) ∷ t) = ground (arith, drop_entry-set_entry id v t)
