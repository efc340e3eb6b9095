-- ===== src/Authority/Revocations/Closed.antt =====
-- execution-authority.ts: what the loop over the affected attempts closes.
use mathlib.Core.List.{Memᴰ}
use mathlib.Core.List.Memᴰ
use mathlib.Core.Path.{subst}
use collab.Base.{
  ℕ, ◌≡◌, refl, sym, ap, ◌∙◌, Bool, true, false, ◌&&◌, inl, inr, Option, some, List, [], ◌∷◌, map,
  String, same, arith, any, includes, Bool-cases, Option-cases, eq_iff,
}
use collab.Authority.Sessions.{SessionRow, AttemptRow, first}
use collab.Authority.Revocations.{Source, PermitRow, Ledger}
use collab.Authority.Revocations.Apply.{
  is_issued, revoke_permit, revoke_session, end_sessions, terminate, is_exposure, revoke_attempt,
  revoke_attempts,
}

module _ {ℓ} {A : Type ℓ} (p : A → Bool) (f : A → A) where
  any-map-none : (xs : List A) → ((x : A) → p (f x) ≡ false) → any p (map f xs) ≡ false
  any-map-none [] h = refl
  any-map-none (x ∷ xs) h = ground (arith, h x, any-map-none xs h)

  any-map-kept :
      (xs : List A)
      → ((x : A) → p x ≡ false → p (f x) ≡ false)
      → any p xs ≡ false
      → any p (map f xs) ≡ false
  any-map-kept [] h e = e
  any-map-kept (x ∷ xs) h e = ground (arith, h x, any-map-kept xs h)

pub first-any {ℓ} :
    {A : Type ℓ} (p q : A → Bool) (xs : List A) (x : A)
    → first p xs ≡ some x
    → q x ≡ true
    → any q xs ≡ true
unfolding first
first-any p q [] x e h = cc
first-any p q (y ∷ ys) x e h = elim (Bool-cases (p y)) [
  | inl at ↦
      let same_row : y ≡ x = ground arith in
      let passes = subst (λ z. q z ≡ true) (sym same_row) h in ground arith
  | inr other ↦ ground (arith, first-any p q ys x)
]

pub any-mem-false {ℓ} :
    {A : Type ℓ} (p : A → Bool) (xs : List A) (x : A) → any p xs ≡ false → Memᴰ x xs → p x ≡ false
any-mem-false p [] x h m = absurd (Memᴰ.not-nil m)
any-mem-false p (y ∷ ys) x h m = elim (Memᴰ.cases_cons m) [
  | inl e ↦ subst (λ z. p z ≡ false) (sym e) (ground arith)
  | inr rest ↦ any-mem-false p ys x (ground arith) rest
]

abbrev pub is_open : String → SessionRow → Bool
is_open attempt s = same s.attempt_id attempt && s.is_active

abbrev pub is_usable : String → PermitRow → Bool
is_usable attempt p = same p.attempt_id attempt && is_issued p.state

abbrev pub opened : String → Ledger → Bool
opened attempt l = any (is_open attempt) l.store.database.tables.sessions

abbrev pub usable : String → Ledger → Bool
usable attempt l = any (is_usable attempt) l.permits

abbrev pub find_attempt : String → Ledger → Option AttemptRow
find_attempt id l = first (λ (a : AttemptRow). same a.id id) l.store.database.tables.attempts

module _ (digest : String → Source → String) (now : ℕ) (source : Source) where
  revoke_attempt-attempts :
      (attempt : String) (l : Ledger)
      → (revoke_attempt digest now source attempt l).store.database.tables.attempts
        ≡ l.store.database.tables.attempts
  unfolding revoke_attempt terminate end_sessions
  revoke_attempt-attempts attempt l = ground (arith, Option-cases (find_attempt attempt l))

  opened_kept :
      (attempt other : String) (l : Ledger)
      → opened other l ≡ false
      → opened other (revoke_attempt digest now source attempt l) ≡ false
  unfolding revoke_attempt terminate end_sessions revoke_session
  opened_kept attempt other l h =
      let kept =
        any-map-kept (is_open other) (revoke_session attempt) l.store.database.tables.sessions
          (λ s e. ground arith) h in
      ground (arith, Option-cases (find_attempt attempt l))

  usable_kept :
      (attempt other : String) (l : Ledger)
      → usable other l ≡ false
      → usable other (revoke_attempt digest now source attempt l) ≡ false
  unfolding revoke_attempt terminate revoke_permit
  usable_kept attempt other l h =
      let kept =
        any-map-kept (is_usable other) (revoke_permit now attempt) l.permits (λ s e. ground arith)
          h in
      ground (arith, Option-cases (find_attempt attempt l))

  opened_ended :
      (attempt : String) (l : Ledger) (a : AttemptRow)
      → find_attempt attempt l ≡ some a
      → is_exposure source ≡ false
      → opened attempt (revoke_attempt digest now source attempt l) ≡ false
  unfolding revoke_attempt terminate end_sessions revoke_session
  opened_ended attempt l a e n =
      let ended =
        any-map-none (is_open attempt) (revoke_session attempt) l.store.database.tables.sessions
          (λ s. ground arith) in
      ground arith

  usable_ended :
      (attempt : String) (l : Ledger) (a : AttemptRow)
      → find_attempt attempt l ≡ some a
      → usable attempt (revoke_attempt digest now source attempt l) ≡ false
  unfolding revoke_attempt terminate revoke_permit
  usable_ended attempt l a e =
      let ended =
        any-map-none (is_usable attempt) (revoke_permit now attempt) l.permits
          (λ s. ground arith) in
      ground arith

  pub revoke_attempts-attempts :
      (ids : List String) (l : Ledger)
      → (revoke_attempts digest now source ids l).store.database.tables.attempts
        ≡ l.store.database.tables.attempts
  unfolding revoke_attempts
  revoke_attempts-attempts [] l = refl
  revoke_attempts-attempts (id ∷ ids) l =
      revoke_attempts-attempts ids (revoke_attempt digest now source id l)
      ∙ revoke_attempt-attempts id l

  all_opened_kept :
      (ids : List String) (other : String) (l : Ledger)
      → opened other l ≡ false
      → opened other (revoke_attempts digest now source ids l) ≡ false
  unfolding revoke_attempts
  all_opened_kept [] other l h = h
  all_opened_kept (id ∷ ids) other l h =
      all_opened_kept ids other (revoke_attempt digest now source id l) (opened_kept id other l h)

  all_usable_kept :
      (ids : List String) (other : String) (l : Ledger)
      → usable other l ≡ false
      → usable other (revoke_attempts digest now source ids l) ≡ false
  unfolding revoke_attempts
  all_usable_kept [] other l h = h
  all_usable_kept (id ∷ ids) other l h =
      all_usable_kept ids other (revoke_attempt digest now source id l) (usable_kept id other l h)

  find_kept :
      (id attempt : String) (l : Ledger) (a : AttemptRow)
      → find_attempt attempt l ≡ some a
      → find_attempt attempt (revoke_attempt digest now source id l) ≡ some a
  find_kept id attempt l a e =
      ap (first (λ (r : AttemptRow). same r.id attempt)) (revoke_attempt-attempts id l) ∙ e

  pub all_opened_ended :
      (ids : List String) (attempt : String) (l : Ledger) (a : AttemptRow)
      → includes ids attempt ≡ true
      → find_attempt attempt l ≡ some a
      → is_exposure source ≡ false
      → opened attempt (revoke_attempts digest now source ids l) ≡ false
  unfolding revoke_attempts
  all_opened_ended [] attempt l a i e n = cc
  all_opened_ended (id ∷ ids) attempt l a i e n = elim (Bool-cases (same id attempt)) [
    | inl at ↦
        let it : id ≡ attempt = (eq_iff id attempt).0 at in
        all_opened_kept ids attempt (revoke_attempt digest now source id l)
          (rw it (opened_ended attempt l a e n))
    | inr other ↦
        all_opened_ended ids attempt (revoke_attempt digest now source id l) a (ground arith)
          (find_kept id attempt l a e) n
  ]

  pub all_usable_ended :
      (ids : List String) (attempt : String) (l : Ledger) (a : AttemptRow)
      → includes ids attempt ≡ true
      → find_attempt attempt l ≡ some a
      → usable attempt (revoke_attempts digest now source ids l) ≡ false
  unfolding revoke_attempts
  all_usable_ended [] attempt l a i e = cc
  all_usable_ended (id ∷ ids) attempt l a i e = elim (Bool-cases (same id attempt)) [
    | inl at ↦
        let it : id ≡ attempt = (eq_iff id attempt).0 at in
        all_usable_kept ids attempt (revoke_attempt digest now source id l)
          (rw it (usable_ended attempt l a e))
    | inr other ↦
        all_usable_ended ids attempt (revoke_attempt digest now source id l) a (ground arith)
          (find_kept id attempt l a e)
  ]
