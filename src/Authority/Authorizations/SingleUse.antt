-- ===== src/Authority/Authorizations/SingleUse.antt =====
-- fencing.ts: an authorization is used once, and what refusals leave behind.
use collab.Base.{
  ℕ, ◌+◌, false, ◌≡◌, ◌≢◌, refl, ap, sym, ◌∙◌, some, List, [], ◌∷◌, String, same, ok, err, Retry,
  arith, eq_iff, Bool-cases, Option-cases, inl, inr,
}
use collab.Authority.Sessions.{read_session, AuthorityError, authorization_expired}
use collab.Authority.Authorizations.{
  Authorization, issued, consumed, Database, Request, select, is_issued, expire, mark_consumed,
  finish, consume,
}
use collab.Authority.Authorizations.Consumption.{Unique, consumed-Stands, one_marked}

expire_kept :
    (k id : String) (rows : List Authorization) (a : Authorization)
    → select id rows ≡ some a
    → is_issued a.state ≡ false
    → select id (expire k rows) ≡ some a
unfolding select expire
expire_kept k id [] a h i = cc
expire_kept k id (b ∷ rows) a h i = ground (arith, expire_kept k id rows a)

mark_kept :
    (now : ℕ) (k digest id : String) (rows : List Authorization) (a : Authorization)
    → select id rows ≡ some a
    → is_issued a.state ≡ false
    → select id (mark_consumed now k digest rows).0 ≡ some a
unfolding select mark_consumed
mark_kept now k digest id [] a h i = cc
mark_kept now k digest id (b ∷ rows) a h i = ground (arith, mark_kept now k digest id rows a)

-- An authorization that is no longer issued is not changed by any consumption.
consume_kept :
    (db : Database) (now : ℕ) (q : Request) (id : String) (a : Authorization)
    → select id db.authorizations ≡ some a
    → is_issued a.state ≡ false
    → select id (consume db now q).0.authorizations ≡ some a
unfolding consume finish
consume_kept db now q id a h i =
    let e = expire_kept q.authorization_id id db.authorizations a h i in
    let m = mark_kept now q.authorization_id q.operation_digest id db.authorizations a h i in
    elim (Option-cases (select q.authorization_id db.authorizations)) [
      | inl n ↦ ground arith
      | inr (b, n) ↦ elim (Option-cases (read_session db.tables q.session_id)) [
        | inl f ↦ ground (arith, e)
        | inr (s, f) ↦ ground (arith, e, m)
      ]
    ]

unfoldable pub run : Database → List (ℕ × Request) → Database
run db [] = db
run db ((now, q) ∷ qs) = run (consume db now q).0 qs

run_kept :
    (db : Database) (qs : List (ℕ × Request)) (id : String) (a : Authorization)
    → select id db.authorizations ≡ some a
    → is_issued a.state ≡ false
    → select id (run db qs).authorizations ≡ some a
unfolding run
run_kept db [] id a h i = h
run_kept db ((now, q) ∷ qs) id a h i =
    run_kept (consume db now q).0 qs id a (consume_kept db now q id a h i) i

marked :
    (now : ℕ) (id digest : String) (rows : List Authorization) (a : Authorization)
    → select id rows ≡ some a
    → a.state ≡ issued
    → a.operation_digest ≡ digest
    → select id (mark_consumed now id digest rows).0
      ≡ some (record a { state = consumed; consumed_at = some now; revision = a.revision + 1 })
unfolding select mark_consumed
marked now id digest [] a h i d = cc
marked now id digest (b ∷ rows) a h i d = elim (Bool-cases (same b.id id)) [
  | inl e ↦
      let same_row : b ≡ a = ground arith in
      rw (same_row, i, d)
        (ground (
          arith,
          eq_iff digest digest,
          ap (λ (x : Authorization). x.id) same_row,
          e,
          eq_iff a.id id,
        ))
  | inr n ↦ ground (arith, marked now id digest rows a)
]

used :
    (db : Database) (now : ℕ) (q : Request) (t : ℕ)
    → (consume db now q).1 ≡ ok t
    → (a : Authorization) × (select q.authorization_id (consume db now q).0.authorizations ≡ some a)
      × (a.state ≡ consumed)
unfolding consume finish
used db now q t h =
    let (a, s, st, e) = consumed-Stands db now q t h in
    let m =
      marked now q.authorization_id q.operation_digest db.authorizations a st.row st.state
        st.digest in
    (
      record a { state = consumed; consumed_at = some now; revision = a.revision + 1 },
      rw (st.row, st.session) (ground (arith, m)),
      refl,
    )

-- An authorization that was consumed is never consumed again, whatever is requested in between, at any
-- time and by any session.
pub single_use :
    (db : Database) (now : ℕ) (q : Request) (t : ℕ) (qs : List (ℕ × Request)) (later : ℕ)
    (r : Request)
    → (consume db now q).1 ≡ ok t
    → r.authorization_id ≡ q.authorization_id
    → (again : ℕ) → (consume (run (consume db now q).0 qs) later r).1 ≢ ok again
single_use db now q t qs later r h e again g =
    let (a, here, was) = used db now q t h in
    let kept = run_kept (consume db now q).0 qs q.authorization_id a here (rw was refl) in
    let (b, s, st, x) = consumed-Stands (run (consume db now q).0 qs) later r again g in
    let same_row : some a ≡ some b =
      sym kept ∙ ap (λ k. select k (run (consume db now q).0 qs).authorizations) (sym e) ∙ st.row in
    ground (arith, was, st.state, same_row)

-- A refusal leaves the whole database as it was, unless it is that the authorization has expired.
-- Identifiers are unique.
refusal_keeps :
    (db : Database) (now : ℕ) (q : Request) (c : AuthorityError) (r : Retry)
    → Unique db.authorizations
    → (consume db now q).1 ≡ err c r
    → c ≢ authorization_expired
    → (consume db now q).0 ≡ db
unfolding consume finish
refusal_keeps db now q c r u h n =
    elim (Option-cases (select q.authorization_id db.authorizations)) [
      | inl e ↦ ground arith
      | inr (a, e) ↦ elim (Option-cases (read_session db.tables q.session_id)) [
        | inl f ↦ ground arith
        | inr (s, f) ↦ ground (
          arith,
          one_marked now q.authorization_id q.operation_digest db.authorizations a u e,
          eq_iff a.operation_digest q.operation_digest,
        )
      ]
    ]
