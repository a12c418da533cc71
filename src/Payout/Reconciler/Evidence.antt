-- ===== src/Payout/Reconciler/Evidence.antt =====
-- What crates/pool-dashboard/src/reconciler.rs knows when it confirms or refunds a reservation.
use zcash_mining_pool.Prelude.{
  ◌+◌, ◌≤◌, ◌≡◌, ◌≢◌, refl, subst, if-cases, String, true, false, List, ◌∷◌, [], arith, leb→le,
  str_eq, eq_iff, Bool-cases, inl, inr, Option, none, some, Result, ok, err, if-inversion,
}
use zcash_mining_pool.Ledger.Tables.{Attempt}
use zcash_mining_pool.Payout.Rpc.{OpStatus, RpcError, state_of, as_str, is_definitely_not_found}
use zcash_mining_pool.Payout.Reconciler.{
  Answers, Alert, not_yet_on_chain, not_submitted_yet, refund, confirm, learn, learn_op, learn_from,
  read_status, txid_or_unknown, unreachable, in_flight, op_failed, unknown, judge, judge_lookup,
  judge_unknown, judge_learned, is_submitted, expire, Learned, is_older,
}

module _ (w : Answers) (a : Attempt) where
  -- The wallet's transaction for the attempt: recorded, or reported for its operation.
  pub data IsNamed (t : String) : Type 0 where
    recorded : a.txid ≡ some t → IsNamed t
    reported :
        {op : String} {st : OpStatus} {rest : List OpStatus}
        → a.txid ≡ none
        → a.opid ≡ some op
        → w.op_status a.id op ≡ ok (st ∷ rest)
        → state_of st ≡ "success"
        → as_str st.txid ≡ some t
        → IsNamed t

  abbrev pub IsOnChain : String → Type 0
  IsOnChain t = w.raw_transaction a.id t ≡ ok tt

  abbrev pub IsExpired : Type 0
  IsExpired = a.created_at + 3600 ≤ w.now a.id

  -- Why no transaction of the attempt can pay any more.
  pub data IsReleasable : Type 0 where
    operation_failed :
        {op : String} {st : OpStatus} {rest : List OpStatus}
        → a.txid ≡ none
        → a.opid ≡ some op
        → w.op_status a.id op ≡ ok (st ∷ rest)
        → state_of st ≡ "failed"
        → IsReleasable
    absent :
        {t : String} {e : RpcError}
        → IsNamed t
        → w.raw_transaction a.id t ≡ err e
        → is_definitely_not_found e ≡ true
        → IsExpired
        → IsReleasable
    never_submitted :
        a.txid ≡ none → a.opid ≡ none → is_submitted a.status ≡ false → IsExpired → IsReleasable

  expire-refund : (alert : Alert) → expire w a alert ≡ refund → IsExpired
  expire-refund alert e = elim (Bool-cases (is_older a.created_at 60 (w.now a.id))) [
    | inl h ↦ omega (arith, leb→le (a.created_at + 3600) (w.now a.id) h)
    | inr h ↦ cc h
  ]

  lookup-refund :
      (t : String) (r : Result RpcError (Unit {0}))
      → w.raw_transaction a.id t ≡ r
      → IsNamed t
      → judge_lookup w a t r ≡ refund
      → IsReleasable
  lookup-refund t (ok _) asked named e = cc
  lookup-refund t (err x) asked named e = elim (if-inversion (is_definitely_not_found x) e) [
    | inl (gone, late) ↦ absent named asked gone (expire-refund (not_yet_on_chain a.id) late)
    | inr (_, held) ↦ cc
  ]

  lookup-confirm :
      (t t' : String) (r : Result RpcError (Unit {0}))
      → w.raw_transaction a.id t ≡ r
      → judge_lookup w a t r ≡ confirm t'
      → (t ≡ t') × IsOnChain t
  lookup-confirm t t' (ok tt) asked e = (cc, asked)
  lookup-confirm t t' (err x) asked e = elim (if-inversion (is_definitely_not_found x) e) [
    | inl (gone, late) ↦ elim (if-inversion (is_older a.created_at 60 (w.now a.id)) late) [
      | inl h ↦ cc
      | inr h ↦ cc
    ]
    | inr (_, held) ↦ cc
  ]

  unknown-refund :
      (o : Option String) → a.opid ≡ o → a.txid ≡ none → judge_unknown w a o ≡ refund → IsReleasable
  unknown-refund (some op) opid named e = cc
  unknown-refund none opid named e = elim (if-inversion (is_submitted a.status) e) [
    | inl (_, held) ↦ cc
    | inr (quiet, late) ↦
        never_submitted named opid quiet (expire-refund (not_submitted_yet a.id) late)
  ]

  unknown-confirm : (o : Option String) (t : String) → judge_unknown w a o ≢ confirm t
  unknown-confirm (some op) t e = cc
  unknown-confirm none t e = elim (if-inversion (is_submitted a.status) e) [
    | inl (_, held) ↦ cc
    | inr (_, late) ↦ elim (if-inversion (is_older a.created_at 60 (w.now a.id)) late) [
      | inl h ↦ cc
      | inr h ↦ cc
    ]
  ]

  -- What each thing that is learnt says of the attempt.
  abbrev Tells : Learned → Type 0
  Tells unreachable = Unit
  Tells in_flight = Unit
  Tells op_failed =
      (op : String) × (st : OpStatus) × (rest : List OpStatus) × (a.txid ≡ none)
      × (a.opid ≡ some op)
      × (w.op_status a.id op ≡ ok (st ∷ rest))
      × (state_of st ≡ "failed")
  Tells unknown = a.txid ≡ none
  Tells (Learned.txid t) = IsNamed t

  report-Tells :
      (op : String) (st : OpStatus) (rest : List OpStatus) (t : Option String)
      → a.txid ≡ none
      → a.opid ≡ some op
      → w.op_status a.id op ≡ ok (st ∷ rest)
      → state_of st ≡ "success"
      → as_str st.txid ≡ t
      → Tells (txid_or_unknown t)
  report-Tells op st rest none named opid asked state text = named
  report-Tells op st rest (some t) named opid asked state text =
      reported named opid asked state text

  read_status-Tells :
      (op : String) (r : Result RpcError (List OpStatus))
      → a.txid ≡ none
      → a.opid ≡ some op
      → w.op_status a.id op ≡ r
      → Tells (read_status r)
  unfolding read_status
  read_status-Tells op (err e) named opid asked = tt
  read_status-Tells op (ok []) named opid asked = named
  read_status-Tells op (ok (st ∷ rest)) named opid asked =
      if-cases Tells (str_eq (state_of st) "success")
        (λ e. report-Tells op st rest (as_str st.txid) named opid asked ((eq_iff _ _).0 e) refl)
        (λ _.
          if-cases Tells (str_eq (state_of st) "failed")
            (λ e. (op, st, rest, named, opid, asked, (eq_iff _ _).0 e)) (λ _. tt))

  learn_op-Tells : (o : Option String) → a.opid ≡ o → a.txid ≡ none → Tells (learn_op w a.id o)
  learn_op-Tells none opid named = named
  learn_op-Tells (some op) opid named = read_status-Tells op (w.op_status a.id op) named opid refl

  learn_from-Tells : (o : Option String) → a.txid ≡ o → Tells (learn_from w a o)
  learn_from-Tells none named = learn_op-Tells a.opid refl named
  learn_from-Tells (some t) named = recorded named

  learned-refund : (l : Learned) → Tells l → judge_learned w a l ≡ refund → IsReleasable
  learned-refund unreachable h e = cc
  learned-refund in_flight h e = cc
  learned-refund op_failed (_, _, _, named, opid, asked, state) e =
      operation_failed named opid asked state
  learned-refund unknown h e = unknown-refund a.opid refl h e
  learned-refund (Learned.txid t) h e = lookup-refund t (w.raw_transaction a.id t) refl h e

  learned-confirm :
      (l : Learned) (t : String)
      → Tells l
      → judge_learned w a l ≡ confirm t
      → IsNamed t × IsOnChain t
  learned-confirm unreachable t h e = cc
  learned-confirm in_flight t h e = cc
  learned-confirm op_failed t h e = cc
  learned-confirm unknown t h e = absurd (unknown-confirm a.opid t e)
  learned-confirm (Learned.txid t') t h e =
      let (same, there) = lookup-confirm t' t (w.raw_transaction a.id t') refl e in
      (subst IsNamed same h, subst IsOnChain same there)

  pub judge-confirm : (t : String) → judge w a ≡ confirm t → IsNamed t × IsOnChain t
  unfolding judge learn
  judge-confirm t e = learned-confirm (learn w a) t (learn_from-Tells a.txid refl) e

  -- The sweep gives a reservation back only where no transaction of the attempt can pay any more:
  -- the wallet reports its operation failed, or the node does not know the transaction and sixty
  -- minutes have gone, or it was never handed to the wallet and sixty minutes have gone.
  pub judge-refund : judge w a ≡ refund → IsReleasable
  unfolding judge learn
  judge-refund e = learned-refund (learn w a) (learn_from-Tells a.txid refl) e
