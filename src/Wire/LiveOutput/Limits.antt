-- ===== src/Wire/LiveOutput/Limits.antt =====
-- live-output.ts: changes of one target.
use mathlib.Core.Path.{subst}
use collab.Base.{
  ℕ, ◌+◌, ◌≡◌, refl, sym, ap, none, some, [], ◌∷◌, ◌++◌ as append, String, same, total-append, All,
  arith, Bool-cases, Option-cases, inl, inr, ◌⊎◌,
}
use collab.Base.Table.{Table, get, set}
use collab.Wire.LiveOutput.{
  TargetKind, Chunk, push, stored, add, accept, activate, target_key, seen_digest, with_last,
}
use collab.Wire.LiveOutput.Eviction.{
  Hub, Target, StoredChunk, Stream, stdout, stderr, Interaction, weight, forget,
}
use collab.Wire.LiveOutput.Account.{held, Sound, Weighed, Inv, evict-Inv}

-- The entry of a key is changed, or added.
pub set-Weighed :
    (k : String) (t : Target) (ts : Table Target)
    → t.bytes ≡ weight t.chunks
    → All Weighed ts
    → All Weighed (set k t ts)
unfolding set
set-Weighed k t [] h a = (h, tt)
set-Weighed k t ((j, u) ∷ ts) h a = elim (Bool-cases (same j k)) [
  | inl e ↦ rw e (h, a.1)
  | inr e ↦ rw e (a.0, set-Weighed k t ts h a.1)
]

pub held-set :
    (k : String) (t u : Target) (ts : Table Target)
    → get k ts ≡ some u
    → held (set k t ts) + u.bytes ≡ held ts + t.bytes
unfolding get set
held-set k t u [] h = cc
held-set k t u ((j, x) ∷ ts) h = elim (Bool-cases (same j k)) [
  | inl e ↦
      let one : x ≡ u = ground arith in
      let bytes : x.bytes ≡ u.bytes = ap (λ (y : Target). y.bytes) one in
      rw e (omega (arith, bytes))
  | inr e ↦ rw e (omega (arith, held-set k t u ts (ground arith)))
]

pub held-set_new :
    (k : String) (t : Target) (ts : Table Target)
    → get k ts ≡ none
    → held (set k t ts) ≡ held ts + t.bytes
unfolding get set
held-set_new k t [] h = omega arith
held-set_new k t ((j, x) ∷ ts) h = elim (Bool-cases (same j k)) [
  | inl e ↦ ground arith
  | inr e ↦ rw e (omega (arith, held-set_new k t ts (ground arith)))
]

pub Sound-Weighed : (maximum : ℕ) (ts : Table Target) → All (Sound maximum) ts → All Weighed ts
Sound-Weighed maximum [] a = tt
Sound-Weighed maximum ((k, t) ∷ ts) (s, a) = (s.0, Sound-Weighed maximum ts a)

pub get-Weighed :
    (k : String) (t : Target) (ts : Table Target)
    → All Weighed ts
    → get k ts ≡ some t
    → t.bytes ≡ weight t.chunks
unfolding get
get-Weighed k t [] a h = cc
get-Weighed k t ((j, x) ∷ ts) (w, a) h = elim (Bool-cases (same j k)) [
  | inl e ↦
      let one : x ≡ t = ground arith in subst (λ (y : Target). y.bytes ≡ weight y.chunks) one w
  | inr e ↦ get-Weighed k t ts a (ground arith)
]

with_last_kept :
    (x : Stream) (n : ℕ) (t : Target)
    → ((with_last x n t).bytes ≡ t.bytes) × (weight (with_last x n t).chunks ≡ weight t.chunks)
with_last_kept stdout n t = (refl, refl)
with_last_kept stderr n t = (refl, refl)

push_lem :
    (s : StoredChunk) (t : Target)
    → ((push s t).bytes ≡ t.bytes + s.retained_bytes)
      × (weight (push s t).chunks ≡ weight t.chunks + s.retained_bytes)
unfolding push
push_lem s t =
    let pushed : Target = record t {
      chunks = append t.chunks (s ∷ []);
      seen =
          record { stream = s.stream; sequence = s.sequence; digest = s.digest }
          ∷ forget s.stream s.sequence t.seen;
      bytes = t.bytes + s.retained_bytes;
    } in
    let kept = with_last_kept s.stream s.sequence pushed in
    (
      kept.0,
      omega (arith, kept.1, total-append (λ (c : StoredChunk). c.retained_bytes) t.chunks (s ∷ [])),
    )

add-Inv :
    (h : Hub) (k : String) (s : StoredChunk) (t : Target)
    → Inv h
    → get k h.targets ≡ some t
    → Inv (add h k s t)
unfolding add
add-Inv h k s t v g =
    let w = Sound-Weighed h.maximum_target_bytes h.targets v.targets in
    let t_weight = get-Weighed k t h.targets w g in
    evict-Inv
      (record h {
        targets = set k (push s t) h.targets;
        bytes = h.bytes + s.retained_bytes;
        ordinal = h.ordinal + 1;
      })
      (set-Weighed k (push s t) h.targets (omega (arith, push_lem s t, t_weight)) w)
      (omega (arith, v.account, (push_lem s t).0, held-set k (push s t) t h.targets g))

same-Inv : {a b : Hub} → a ≡ b → Inv b → Inv a
same-Inv s v = subst Inv (sym s) v

-- When the account of the process is the sum of what its targets retain, and neither the process nor any
-- target retains more than its limit, then this is so again after any chunk is sent.
pub accept-Inv :
    (digest : Chunk → String → String) (h : Hub) (kind : TargetKind) (id : String) (c : Chunk)
    → Inv h
    → Inv (accept digest h kind id c).0
unfolding accept
accept-Inv digest h kind id c v = elim (Option-cases (get (target_key kind id) h.targets)) [
  | inl e ↦ same-Inv (ground arith) v
  | inr (t, e) ↦
      let r = (accept digest h kind id c).0 in
      let s = stored digest c t (h.ordinal + 1) in
      elim (Option-cases (seen_digest c.stream c.sequence t.seen)) [
        | inr (p, q) ↦ same-Inv (ground arith) v
        | inl q ↦
            let which : (r ≡ h) ⊎ (r ≡ add h (target_key kind id) s t) = ground arith in
            elim which [
              | inl x ↦ same-Inv x v
              | inr x ↦ same-Inv x (add-Inv h (target_key kind id) s t v e)
            ]
      ]
]

-- A target that is activated while it is active loses its chunks but not their bytes: when the account
-- was right before, it is too high by what the target retained.
activate_leaks :
    (h : Hub) (kind : TargetKind) (id : String) (i : Interaction) (t : Target)
    → Inv h
    → get (target_key kind id) h.targets ≡ some t
    → (activate h kind id i).bytes ≡ held (activate h kind id i).targets + t.bytes
unfolding activate
activate_leaks h kind id i t v g =
    let empty : Target = record {
      interaction = i;
      chunks = [];
      seen = [];
      last_stdout = none;
      last_stderr = none;
      bytes = 0;
    } in
    omega (arith, v.account, held-set (target_key kind id) empty t h.targets g)
