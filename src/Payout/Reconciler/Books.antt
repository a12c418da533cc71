-- ===== src/Payout/Reconciler/Books.antt =====
-- An abstract view of the ledger for crates/pool-dashboard/src/reconciler.rs: the open reservations by
-- attempt, and what was paid under which transaction, without rows, ids, times or balances.
use mathlib.Core.List.{map-append}
use zcash_mining_pool.Prelude.{
  ℕ, suc, ◌≡◌, refl, ap, fun_ext, ◌∙◌, String, Bool, true, false, List, [], ◌∷◌, ◌++◌, map, arith,
  ◌==◌, ==_iff, Bool-cases, inl, inr, if◌then◌else◌, Option, some, none, ℤ,
}
use zcash_mining_pool.Sql.{select, delete, select-delete, select-delete_other}
use zcash_mining_pool.Ledger.Tables.{Attempt, AttemptStatus, PayoutItem, Payout, Db, transact}
use zcash_mining_pool.Ledger.Transactions.{rolls_back}
use zcash_mining_pool.Ledger.Payouts.{
  of_attempt, confirm_payout, confirm_payout_txn, refund_payout, refund_payout_txn,
}
use zcash_mining_pool.Ledger.Payouts.Sound.{IsSound, IsSound-money, owed}
use zcash_mining_pool.Ledger.Payouts.Confirm.{issue, IsSettlement, confirm_payout-IsSettlement}
use zcash_mining_pool.Ledger.Payouts.Refund.{IsReturn, refund_payout-IsReturn}
use zcash_mining_pool.Payout.Attempts.{get_reserved_attempts, update_payout_attempt}
use zcash_mining_pool.Payout.Reconciler.{
  Answers, Summary, Verdict, pass, leave, refund, confirm, judge, settle_reservation,
  refund_reservation, carry_out, reconcile_all, reconcile_reserved_payouts,
}

pub record Books : Type 0 where
  pub reservations : ℕ → List PayoutItem
  -- miner, transaction, amount
  pub payments : List (ℕ × String × ℤ)
  pub entitled : ℤ

abbrev pub payment_of : Payout → ℕ × String × ℤ
payment_of p = (p.miner_id, p.txid, p.amount)

abbrev pub payment_for : String → PayoutItem → ℕ × String × ℤ
payment_for t i = (i.miner_id, t, i.amount)

unfoldable pub view : Db → Books
view db = record {
  reservations = λ k. select (of_attempt k) db.items;
  payments = map payment_of db.payouts;
  entitled = owed db;
}

abbrev pub close : ℕ → (ℕ → List PayoutItem) → ℕ → List PayoutItem
close k held j = if j == k then [] else held j

-- The reservation of an attempt becomes payments under `t`.
abbrev pub settle_books : ℕ → String → Books → Books
settle_books k t b = record b {
  reservations = close k b.reservations;
  payments = b.payments ++ map (payment_for t) (b.reservations k);
}

-- The reservation of an attempt is given back.
abbrev pub release_books : ℕ → Books → Books
release_books k b = record b { reservations = close k b.reservations }

-- What a verdict on attempt `k` asks for, where its transaction commits.
abbrev pub rule : Bool → ℕ → Verdict → Books → Books
rule commits k pass b = b
rule commits k (leave alert) b = b
rule commits k (confirm t) b = if commits then settle_books k t b else b
rule commits k refund b = if commits then release_books k b else b

unfoldable pub rule_all : Answers → List Attempt → Books → Books
rule_all w [] b = b
rule_all w (a ∷ more) b = rule_all w more (rule (w.commits a.id) a.id (judge w a) b)

close-delete :
    (k : ℕ) (is : List PayoutItem)
    → (λ j. select (of_attempt j) (delete (of_attempt k) is))
      ≡ close k (λ j. select (of_attempt j) is)
close-delete k is = fun_ext (λ j. elim (Bool-cases (j == k)) [
  | inl e ↦ rw (e, (==_iff j k).0 e) (select-delete (of_attempt k) is)
  | inr e ↦ rw e (
      select-delete_other (of_attempt j) (of_attempt k) is
        (λ i h. let h' : (i.attempt_id == k) ≡ true = h in ground arith))
])

issue-payments :
    (t : String) (now n : ℕ) (is : List PayoutItem)
    → map payment_of (issue t now n is) ≡ map (payment_for t) is
issue-payments t now n [] = refl
issue-payments t now n (i ∷ is) = ap (◌∷◌ (payment_for t i)) (issue-payments t now (suc n) is)

pub mark_keeps :
    (stores : Bool) (k : ℕ) (status : AttemptStatus) (opid txid : Option String) (db : Db)
    → IsSound db
    → let db' = (update_payout_attempt stores k status opid txid db).1 in
      IsSound db' × (view db' ≡ view db)
unfolding update_payout_attempt transact view owed
mark_keeps true k status opid txid db h = (IsSound-money db _ refl h, refl)
mark_keeps false k status opid txid db h = (h, refl)

pub settled_view :
    (t : String) (now k : ℕ) (db db' : Db)
    → IsSettlement t now k db db'
    → view db' ≡ settle_books k t (view db)
unfolding view
settled_view t now k db db' c =
    let items : db'.items ≡ delete (of_attempt k) db.items = ap (λ (d : Db). d.items) c.only in
    let held = select (of_attempt k) db.items in
    let rows : db'.payouts ≡ db.payouts ++ issue t now db.next_payout held =
      ap (λ (d : Db). d.payouts) c.only in
    let paid : map payment_of db'.payouts ≡ map payment_of db.payouts ++ map (payment_for t) held =
      ap (map payment_of) rows
      ∙ map-append payment_of db.payouts (issue t now db.next_payout held)
      ∙ ap (λ ps. map payment_of db.payouts ++ ps) (issue-payments t now db.next_payout held) in
    let open_ : (λ j. select (of_attempt j) db'.items)
        ≡ close k (λ j. select (of_attempt j) db.items) =
      ap (λ is j. select (of_attempt j) is) items ∙ close-delete k db.items in
    λ j. record { reservations = open_ j; payments = paid j; entitled = c.keeps j }

pub released_view : (k : ℕ) (db db' : Db) → IsReturn k db db' → view db' ≡ release_books k (view db)
unfolding view
released_view k db db' c =
    let items : db'.items ≡ delete (of_attempt k) db.items = ap (λ (d : Db). d.items) c.only in
    let open_ : (λ j. select (of_attempt j) db'.items)
        ≡ close k (λ j. select (of_attempt j) db.items) =
      ap (λ is j. select (of_attempt j) is) items ∙ close-delete k db.items in
    λ j. record {
      reservations = open_ j;
      payments = map payment_of (c.only j).payouts;
      entitled = c.keeps j;
    }

module _ (w : Answers) (k : ℕ) (s : Summary) (db : Db) (h : IsSound db) where
  -- The database after a verdict is sound, and reads as the abstract rule says.
  abbrev Follows : Verdict → Summary × Db → Type 0
  Follows v (_, db') = IsSound db' × (view db' ≡ rule (w.commits k) k v (view db))

  settle-Follows :
      (t : String) (c : Bool)
      → w.commits k ≡ c
      → Follows (confirm t) (settle_reservation w k t (s, db))
  unfolding settle_reservation confirm_payout
  settle-Follows t true e =
      let (db', c) = confirm_payout-IsSettlement t (w.now k) k db h in
      let (sound, same) =
        mark_keeps (w.marks k) k AttemptStatus.confirmed none (some t) db' c.sound in
      rw (e, c.runs) (sound, same ∙ settled_view t (w.now k) k db db' c)
  settle-Follows t false e =
      let (x, back) = rolls_back (confirm_payout_txn k t (w.now k)) db in rw (e, back) (h, refl)

  release-Follows : (c : Bool) → w.commits k ≡ c → Follows refund (refund_reservation w k (s, db))
  unfolding refund_reservation refund_payout
  release-Follows true e =
      let (db', c) = refund_payout-IsReturn k db h in
      let (sound, same) = mark_keeps (w.marks k) k AttemptStatus.failed none none db' c.sound in
      rw (e, c.runs) (sound, same ∙ released_view k db db' c)
  release-Follows false e =
      let (x, back) = rolls_back (refund_payout_txn k) db in rw (e, back) (h, refl)

  carry_out-Follows : (v : Verdict) → Follows v (carry_out w k v (s, db))
  unfolding carry_out
  carry_out-Follows pass = (h, refl)
  carry_out-Follows (leave alert) = (h, refl)
  carry_out-Follows (confirm t) = settle-Follows t (w.commits k) refl
  carry_out-Follows refund = release-Follows (w.commits k) refl

reconcile_all_refines :
    (w : Answers) (todo : List Attempt) (s : Summary) (db : Db)
    → IsSound db
    → let db' = (reconcile_all w todo (s, db)).1 in
      IsSound db' × (view db' ≡ rule_all w todo (view db))
unfolding reconcile_all rule_all
reconcile_all_refines w [] s db h = (h, refl)
reconcile_all_refines w (a ∷ more) s db h =
    let (s', db') = carry_out w a.id (judge w a) (s, db) in
    let (sound, seen) = carry_out-Follows w a.id s db h (judge w a) in
    let (sound', seen') = reconcile_all_refines w more s' db' sound in
    (sound', seen' ∙ ap (rule_all w more) seen)

-- On a sound database the sweep over the reservations refines the abstract books: whatever the
-- wallet and the node answer and whichever transactions commit, it leaves a sound database that
-- reads as the books after each verdict was applied to them in turn, where a confirmation turns the
-- attempt's reservation into payments, a refund drops it, and nothing else changes.
pub reconcile_refines :
    (w : Answers) (minutes : Option ℕ) (now : ℕ) (s : Summary) (db : Db)
    → IsSound db
    → let db' = (reconcile_reserved_payouts w minutes now (s, db)).1 in
      IsSound db' × (view db' ≡ rule_all w (get_reserved_attempts minutes now db) (view db))
unfolding reconcile_reserved_payouts
reconcile_refines w minutes now s db h =
    reconcile_all_refines w (get_reserved_attempts minutes now db) s db h
