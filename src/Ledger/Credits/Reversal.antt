-- ===== src/Ledger/Credits/Reversal.antt =====
-- What reversing the credits of an orphaned block comes to.
use zcash_mining_pool.Prelude.{
  ℕ, ◌≡◌, ◌≢◌, refl, ap, ◌∙◌, true, List, [], ◌∷◌, arith, All, length, Bool-cases, some, none, inl,
  inr, ℤ, pos, ◌+ℤ◌, ◌≤ℤ◌, ltb_ℤ, int_laws, parts_of_eq, sum_by, ok,
}
use zcash_mining_pool.Sql.{update, select, delete, select-delete, All-select}
use zcash_mining_pool.Ledger.Tables.{Credit, Db}
use zcash_mining_pool.Ledger.Payouts.Sound.{IsSound, IsSound-money, owed}
use zcash_mining_pool.Ledger.Costs.{record_tx_cost, is_block, stamp}
use zcash_mining_pool.Ledger.Credits.{
  of_block, reverse_credit, reverse_credits, costs_of, requeue_costs,
  reverse_block_credits_precise_txn, reverse_block_credits_precise,
}
use zcash_mining_pool.Ledger.Credits.Reversing.{
  IsPositiveCredit, credit_total, clawback_total, Reverses, reverse_credit-Reverses,
}

reverse_credits-Reverses :
    (block : ℕ) (cs : List Credit) (r k : ℤ) (db : Db)
    → IsSound db
    → All IsPositiveCredit cs
    → let (r', k', db') = reverse_credits block cs (r, k, db) in
      Reverses (credit_total cs) r k r' k' db db'
unfolding reverse_credits sum_by
reverse_credits-Reverses block [] r k db h plus = record {
  sound = h;
  splits = omega int_laws;
  debits = refl;
  claws = refl;
  grows = omega arith;
  only = refl;
}
reverse_credits-Reverses block (c ∷ cs) r k db h plus =
    let (r', k', db') = reverse_credit block c (r, k, db) in
    let one = reverse_credit-Reverses block c r k db h plus.0 in
    let (r'', k'', db'') = reverse_credits block cs (r', k', db') in
    let rest = reverse_credits-Reverses block cs r' k' db' one.sound plus.1 in
    record {
      sound = rest.sound;
      splits = omega (int_laws, parts_of_eq rest.splits, parts_of_eq one.splits);
      debits = omega (int_laws, parts_of_eq rest.debits, parts_of_eq one.debits);
      claws = omega (int_laws, parts_of_eq rest.claws, parts_of_eq one.claws);
      grows = omega (arith, rest.grows, one.grows);
      only =
          rest.only
          ∙ ap (λ (d : Db). record d { balances = db''.balances; clawbacks = db''.clawbacks })
              one.only;
    }

requeue-total :
    (block : ℕ) (v : ℤ) (db : Db)
    → IsSound db
    → (db' : Db) × (requeue_costs block (some v) db ≡ ok db')
      × IsSound db'
      × (owed db' ≡ owed db)
      × (db'.credits ≡ db.credits)
      × (clawback_total db' ≡ clawback_total db)
unfolding requeue_costs record_tx_cost owed
requeue-total block v db h = elim (Bool-cases (ltb_ℤ (pos 0) v)) [
  | inl e ↦ (
    record (record_tx_cost v db) { blocks = update (is_block block) (stamp (pos 0)) db.blocks },
    rw e refl,
    IsSound-money db _ refl h,
    refl,
    refl,
    refl,
  )
  | inr e ↦ (db, rw e refl, h, refl, refl, refl)
]

-- What a reversal of a block's credits comes to.
pub record IsReversal (block : ℕ) (reversed clawback : ℤ) (db db' : Db) : Type 0 where
  pub runs : reverse_block_credits_precise true block db ≡ (ok (some (reversed, clawback)), db')
  pub sound : IsSound db'
  pub splits : reversed +ℤ clawback ≡ credit_total (select (of_block block) db.credits)
  pub debits : owed db' +ℤ reversed ≡ owed db
  pub claws : clawback_total db' ≡ clawback_total db +ℤ clawback
  pub grows : pos 0 ≤ℤ reversed
  pub gone : db'.credits ≡ delete (of_block block) db.credits

reverse-IsReversal :
    (block : ℕ) (stamped : ℤ) (db : Db)
    → IsSound db
    → All IsPositiveCredit db.credits
    → length (select (of_block block) db.credits) ≢ 0
    → costs_of block db.blocks ≡ some stamped
    → (r : ℤ) × (k : ℤ) × (db' : Db) × IsReversal block r k db db'
unfolding reverse_block_credits_precise reverse_block_credits_precise_txn owed
reverse-IsReversal block stamped db h plus hit found =
    let rows = select (of_block block) db.credits in
    let (r, k, mid) = reverse_credits block rows (pos 0, pos 0, db) in
    let done =
      reverse_credits-Reverses block rows (pos 0) (pos 0) db h
        (All-select IsPositiveCredit (of_block block) db.credits plus) in
    let swept : Db = record mid { credits = delete (of_block block) mid.credits } in
    let (db', requeued, sound, kept, credits, claws) =
      requeue-total block stamped swept (IsSound-money mid swept refl done.sound) in
    let blocks : mid.blocks ≡ db.blocks = ap (λ (d : Db). d.blocks) done.only in
    let same : mid.credits ≡ db.credits = ap (λ (d : Db). d.credits) done.only in
    let found' : costs_of block mid.blocks ≡ some stamped = ap (costs_of block) blocks ∙ found in
    let kept' : owed db' ≡ owed mid = kept in
    (
      r,
      k,
      db',
      record {
        runs = ground (arith, hit, found', requeued);
        sound = sound;
        splits = omega (int_laws, parts_of_eq done.splits);
        debits = omega (int_laws, parts_of_eq kept', parts_of_eq done.debits);
        claws = omega (int_laws, parts_of_eq claws, parts_of_eq done.claws);
        grows = done.grows;
        gone = credits ∙ ap (delete (of_block block)) same;
      },
    )

-- Reversing the credits of a block with a row and positive credits never fails on a sound database:
-- it returns what it took back and what it could not, which add up to the block's credits; the sum
-- of all balances falls by exactly the first and the clawbacks grow by exactly the second; the
-- block's credits are gone and the tables stay sound.
pub reverse_accounts :
    (block : ℕ) (stamped : ℤ) (db : Db)
    → IsSound db
    → All IsPositiveCredit db.credits
    → length (select (of_block block) db.credits) ≢ 0
    → costs_of block db.blocks ≡ some stamped
    → let (result, db') = reverse_block_credits_precise true block db in
      (reversed : ℤ) × (clawback : ℤ) × (result ≡ ok (some (reversed, clawback)))
      × (reversed +ℤ clawback ≡ credit_total (select (of_block block) db.credits))
      × (owed db' +ℤ reversed ≡ owed db)
      × (clawback_total db' ≡ clawback_total db +ℤ clawback)
      × (db'.credits ≡ delete (of_block block) db.credits)
      × IsSound db'
reverse_accounts block stamped db h plus hit found =
    let (r, k, db', c) = reverse-IsReversal block stamped db h plus hit found in
    rw c.runs (r, k, refl, c.splits, c.debits, c.claws, c.gone, c.sound)

reverse_nothing :
    (block : ℕ) (db : Db)
    → select (of_block block) db.credits ≡ []
    → reverse_block_credits_precise true block db ≡ (ok none, db)
unfolding reverse_block_credits_precise reverse_block_credits_precise_txn reverse_credits
reverse_nothing block db e = ground (arith, e, ap length e)

-- A second reversal of the same block finds no credits and changes nothing.
pub reverse_once :
    (block : ℕ) (stamped : ℤ) (db : Db)
    → IsSound db
    → All IsPositiveCredit db.credits
    → length (select (of_block block) db.credits) ≢ 0
    → costs_of block db.blocks ≡ some stamped
    → let db' = (reverse_block_credits_precise true block db).1 in
      reverse_block_credits_precise true block db' ≡ (ok none, db')
reverse_once block stamped db h plus hit found =
    let (r, k, db', c) = reverse-IsReversal block stamped db h plus hit found in
    rw c.runs (
      reverse_nothing block db'
        (ap (select (of_block block)) c.gone ∙ select-delete (of_block block) db.credits))
