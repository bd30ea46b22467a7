-- ===== src/Smartfood/Loyalty/Ledger.antt =====
-- The balance and the ledger (smartfood/services/loyalty_service.py, record and its callers).
use mathlib.Core.Path.{subst}
use alpha_pos_server.Base.{
  ℕ, ◌≡◌, refl, sym, ap, ◌∙◌, Bool, not, Option, none, some, List, [], ◌∷◌, Table, Text, arith, get,
  put, get-put_self, get-put_ne, ◌==◌, ==_refl, ==→eq, Bool-cases, inl, inr, if◌then◌else◌, ok,
  some_inv, bind_ok_inv, or_raise_inv, raise_if_inv, ok-injective, Result, find_key, text_eq,
}
use alpha_pos_server.Base.Int.{ℤ, pos, ◌+ℤ◌, max_ℤ, leb_ℤ, is_zero, pos_part}
use alpha_pos_server.Smartfood.Loyalty.{
  Club, Customer, Txn, Change, ClubRefusal, Amount, Redemption, Reward, record_points, write_change,
  balance_after, txn_of, redeem, mint, award_scan, grant, fulfill, active_reward, gift_guards,
  claim_guards, fresh_code, points_for, redemption_at, is_issued,
}

-- The ledger's own account of a balance: the rows in order, from an opening balance, never below 0.
abbrev pub replay : ℕ → ℤ → List Txn → ℤ
replay cid opening [] = opening
replay cid opening (t ∷ ts) =
    let rest = replay cid opening ts in
    if t.customer == cid then max_ℤ (pos 0) (rest +ℤ t.points) else rest

-- The balance that the newest row of the customer states.
abbrev pub stated : ℕ → ℤ → List Txn → ℤ
stated cid opening [] = opening
stated cid opening (t ∷ ts) =
    let rest = stated cid opening ts in if t.customer == cid then t.balance_after else rest

-- Every row states the balance that the rows up to it give.
abbrev pub Chained : (ℕ → ℤ) → List Txn → Type 0
Chained opening [] = Unit
Chained opening (t ∷ ts) =
    (t.balance_after ≡ replay t.customer (opening t.customer) (t ∷ ts)) × Chained opening ts

abbrev pub Lockstep : (ℕ → ℤ) → Club → Type 0
Lockstep opening db =
    ((cid : ℕ) (c : Customer)
      → get cid db.customers ≡ some c
      → (c.points ≡ replay cid (opening cid) db.txns)
        × (c.points ≡ stated cid (opening cid) db.txns))
    × Chained opening db.txns

abbrev points_of : Option Customer → ℤ
points_of none = pos 0
points_of (some c) = c.points

-- A ledger is opened with the balances that there are.
abbrev pub opening_of : Club → ℕ → ℤ
opening_of db cid = points_of (get cid db.customers)

pub empty-Lockstep : (db : Club) → db.txns ≡ [] → Lockstep (opening_of db) db
empty-Lockstep db empty = (λ cid c e. rw (empty, e) (refl, refl), rw empty tt)

-- One call of the points club.
pub data LoyaltyStep : Club → Club → Type 0 where
  recorded :
      {db db' : Club} {b : ℤ} (now cid : ℕ) (ch : Change)
      → record_points now cid ch db ≡ ok (db', b)
      → LoyaltyStep db db'
  redeemed :
      {db db' : Club} {r : Redemption} (now key : ℕ) (is_visible : Option ℕ → Bool)
      (draws : List Text) (cid rid : ℕ)
      → redeem now key is_visible draws cid rid db ≡ ok (db', r)
      → LoyaltyStep db db'
  scanned :
      {db db' : Club} {n : ℕ} (now : ℕ) (earn_per : ℤ) (currency : Text) (member : Option ℕ)
      (amount : Option Amount) (staff : Option ℕ)
      → award_scan now earn_per currency member amount staff db ≡ ok (db', n)
      → LoyaltyStep db db'
  granted :
      {db db' : Club} {b : ℤ} (now : ℕ) (member : Option ℕ) (points : Option ℤ) (reason : Text)
      (staff : Option ℕ)
      → grant now member points reason staff db ≡ ok (db', b)
      → LoyaltyStep db db'
  handed_over :
      {db db' : Club} {r : Redemption} (now : ℕ) (code : Text) (staff : Option ℕ)
      → fulfill now code staff db ≡ ok (db', r)
      → LoyaltyStep db db'

pub data LoyaltyReach : Club → Club → Type 0 where
  here : {db : Club} → LoyaltyReach db db
  then_call : {db mid end : Club} → LoyaltyReach db mid → LoyaltyStep mid end → LoyaltyReach db end

-- What a change of points leaves of the gifts and writes of the customer and the ledger.
abbrev Changed : ℕ → Club → Club → Type 0
Changed cid db db' =
    (c : Customer) × (now : ℕ) × (ch : Change) × (get cid db.customers ≡ some c)
    × (db'.customers ≡ put cid (record c { points = balance_after c ch }) db.customers)
    × (db'.txns ≡ txn_of now cid ch (balance_after c ch) ∷ db.txns)

-- The two sides stay together when one row is added for a customer.
balance_step :
    (opening : ℕ → ℤ) (cid now : ℕ) (c : Customer) (ch : Change) (customers : Table Customer)
    (txns : List Txn) (j : ℕ) (d : Customer)
    → ((j : ℕ) (d : Customer)
        → get j customers ≡ some d
        → (d.points ≡ replay j (opening j) txns) × (d.points ≡ stated j (opening j) txns))
    → get cid customers ≡ some c
    → get j (put cid (record c { points = balance_after c ch }) customers) ≡ some d
    → (d.points ≡ replay j (opening j) (txn_of now cid ch (balance_after c ch) ∷ txns))
      × (d.points ≡ stated j (opening j) (txn_of now cid ch (balance_after c ch) ∷ txns))
balance_step opening cid now c ch customers txns j d h found e = elim (Bool-cases (cid == j)) [
  | inl same ↦
      let at_j = ==→eq cid j same in
      let c' : Customer = record c { points = balance_after c ch } in
      let d_eq =
        some_inv
          (sym (get-put_self cid c' customers) ∙ ap (λ k. get k (put cid c' customers)) at_j ∙ e) in
      let balance =
        ap (λ b. max_ℤ (pos 0) (b +ℤ ch.points))
          ((h cid c found).0 ∙ ap (λ k. replay k (opening k) txns) at_j) in
      (rw same (ap (λ x. x.points) (sym d_eq) ∙ balance), rw same (ap (λ x. x.points) (sym d_eq)))
  | inr other ↦ rw other (
      h j d (ground (arith, get-put_ne j cid (record c { points = balance_after c ch }) customers)))
]

Changed-Lockstep :
    (opening : ℕ → ℤ) (cid : ℕ) (db db' : Club)
    → Changed cid db db'
    → Lockstep opening db
    → Lockstep opening db'
Changed-Lockstep opening cid db db' (c, now, ch, found, customers, txns) (balances, chained) = (
  λ j d e. rw txns (
      balance_step opening cid now c ch db.customers db.txns j d balances found
        (ap (get j) (sym customers) ∙ e)),
  rw txns (
    rw (==_refl cid) (ap (λ b. max_ℤ (pos 0) (b +ℤ ch.points)) (balances cid c found).0),
    chained,
  ),
)

record_points-Changed :
    (now cid : ℕ) (ch : Change) (db db' : Club) (b : ℤ)
    → record_points now cid ch db ≡ ok (db', b)
    → Changed cid db db'
unfolding record_points write_change
record_points-Changed now cid ch db db' b h =
    let (c, found, done) = or_raise_inv _ (get cid db.customers) _ h in
    let e = ap (λ x. x.0) (ok-injective done) in
    (c, now, ch, found, ap (λ x. x.customers) (sym e), ap (λ x. x.txns) (sym e))

mint-Changed :
    (now key cid : ℕ) (c : Customer) (rid : ℕ) (r : Reward) (code : Text) (db : Club)
    → get cid db.customers ≡ some c
    → Changed cid db (mint now key cid c rid r code db).0
unfolding mint write_change
mint-Changed now key cid c rid r code db found = (c, now, _, found, refl, refl)

-- What a successful redemption has passed and written.
abbrev pub Redeemed :
    ℕ → ℕ → (Option ℕ → Bool) → List Text → ℕ → ℕ → Club → Club → Redemption → Type 0
Redeemed now key is_visible draws cid rid db db' row =
    (r : Reward) × (c : Customer) × (code : Text) × (active_reward (get rid db.rewards) ≡ some r)
    × (gift_guards is_visible r ≡ ok tt)
    × (get cid db.customers ≡ some c)
    × (claim_guards cid c rid r db ≡ ok tt)
    × (fresh_code draws db.redemptions ≡ some code)
    × (mint now key cid c rid r code db ≡ (db', row))

unit_ok : {u : Unit {0}} (m : Result ClubRefusal (Unit {0})) → m ≡ ok u → m ≡ ok tt
unit_ok m h = h

pub redeem_inv :
    (now key : ℕ) (is_visible : Option ℕ → Bool) (draws : List Text) (cid rid : ℕ) (db db' : Club)
    (row : Redemption)
    → redeem now key is_visible draws cid rid db ≡ ok (db', row)
    → Redeemed now key is_visible draws cid rid db db' row
unfolding redeem
redeem_inv now key is_visible draws cid rid db db' row h =
    let (r, active, h1) = or_raise_inv _ (active_reward (get rid db.rewards)) _ h in
    let (u, gift, h2) = bind_ok_inv _ (gift_guards is_visible r) h1 in
    let (c, found, h3) = or_raise_inv _ (get cid db.customers) _ h2 in
    let (v, claimed, h4) = bind_ok_inv _ (claim_guards cid c rid r db) h3 in
    let (code, fresh, done) = or_raise_inv _ (fresh_code draws db.redemptions) _ h4 in
    (r, c, code, active, unit_ok _ gift, found, unit_ok _ claimed, fresh, ok-injective done)

redeem-Changed :
    (now key : ℕ) (is_visible : Option ℕ → Bool) (draws : List Text) (cid rid : ℕ) (db db' : Club)
    (row : Redemption)
    → redeem now key is_visible draws cid rid db ≡ ok (db', row)
    → Changed cid db db'
redeem-Changed now key is_visible draws cid rid db db' row h =
    let (r, c, code, active, gift, found, claimed, fresh, done) =
      redeem_inv now key is_visible draws cid rid db db' row h in
    subst (Changed cid db) (ap (λ x. x.0) done) (mint-Changed now key cid c rid r code db found)

award_scan-Changed :
    (now : ℕ) (earn_per : ℤ) (currency : Text) (member : Option ℕ) (amount : Option Amount)
    (staff : Option ℕ) (db db' : Club) (n : ℕ)
    → award_scan now earn_per currency member amount staff db ≡ ok (db', n)
    → (cid : ℕ) × Changed cid db db'
unfolding award_scan write_change
award_scan-Changed now earn_per currency member amount staff db db' n h =
    let (cid, named, h1) = or_raise_inv _ member _ h in
    let (c, found, h2) = or_raise_inv _ (get cid db.customers) _ h1 in
    let (free, h3) = raise_if_inv _ c.is_blocked _ h2 in
    let (rated, h4) = raise_if_inv _ (leb_ℤ earn_per (pos 0)) _ h3 in
    let (a, parsed, h5) = or_raise_inv _ amount _ h4 in
    let (positive, h6) = raise_if_inv _ (leb_ℤ a.digits (pos 0)) _ h5 in
    let (enough, done) = raise_if_inv _ (points_for a (pos_part earn_per) == 0) _ h6 in
    let e = ap (λ x. x.0) (ok-injective done) in
    (cid, (c, now, _, found, ap (λ x. x.customers) (sym e), ap (λ x. x.txns) (sym e)))

grant-Changed :
    (now : ℕ) (member : Option ℕ) (points : Option ℤ) (reason : Text) (staff : Option ℕ)
    (db db' : Club) (b : ℤ)
    → grant now member points reason staff db ≡ ok (db', b)
    → (cid : ℕ) × Changed cid db db'
unfolding grant
grant-Changed now member points reason staff db db' b h =
    let (cid, named, h1) = or_raise_inv _ member _ h in
    let (pts, parsed, h2) = or_raise_inv _ points _ h1 in
    let (nonzero, done) = raise_if_inv _ (is_zero pts) _ h2 in
    (cid, record_points-Changed now cid _ db db' b done)

fulfill_keeps_ledger :
    (now : ℕ) (code : Text) (staff : Option ℕ) (db db' : Club) (r : Redemption)
    → fulfill now code staff db ≡ ok (db', r)
    → (db'.customers ≡ db.customers) × (db'.txns ≡ db.txns)
unfolding fulfill
fulfill_keeps_ledger now code staff db db' r h =
    let found = redemption_at (find_key (λ r. text_eq r.code code) db.redemptions) db.redemptions in
    let (e, there, h1) = or_raise_inv _ found _ h in
    let (open_row, done) = raise_if_inv _ (not (is_issued e.1.status)) _ h1 in
    let same = ap (λ x. x.0) (ok-injective done) in
    (ap (λ x. x.customers) (sym same), ap (λ x. x.txns) (sym same))

LoyaltyStep-Lockstep :
    (opening : ℕ → ℤ) {db db' : Club}
    → LoyaltyStep db db'
    → Lockstep opening db
    → Lockstep opening db'
LoyaltyStep-Lockstep opening {db} {db'} (recorded {b} now cid ch h) =
    Changed-Lockstep opening cid db db' (record_points-Changed now cid ch db db' b h)
LoyaltyStep-Lockstep opening {db} {db'} (redeemed {r} now key is_visible draws cid rid h) =
    Changed-Lockstep opening cid db db' (redeem-Changed now key is_visible draws cid rid db db' r h)
LoyaltyStep-Lockstep opening {db} {db'} (scanned {n} now earn_per currency member amount staff h) =
    let (cid, changed) = award_scan-Changed now earn_per currency member amount staff db db' n h in
    Changed-Lockstep opening cid db db' changed
LoyaltyStep-Lockstep opening {db} {db'} (granted {b} now member points reason staff h) =
    let (cid, changed) = grant-Changed now member points reason staff db db' b h in
    Changed-Lockstep opening cid db db' changed
LoyaltyStep-Lockstep opening {db} {db'} (handed_over {r} now code staff h) =
    let (same_customers, same_txns) = fulfill_keeps_ledger now code staff db db' r h in
    λ lockstep. (
      λ j c e. rw same_txns (lockstep.0 j c (ap (get j) (sym same_customers) ∙ e)),
      rw same_txns lockstep.1,
    )

-- In every state that the calls of the points club reach from a state in lockstep (a state whose
-- ledger is empty is, with the opening balances it has), each customer's cached points are what the
-- ledger gives when it is replayed from the opening balance without going below 0, and what the
-- customer's newest row states; and every row states the balance of the ledger up to it.
pub LoyaltyReach-Lockstep :
    (opening : ℕ → ℤ) {db db' : Club}
    → LoyaltyReach db db'
    → Lockstep opening db
    → Lockstep opening db'
LoyaltyReach-Lockstep opening here lockstep = lockstep
LoyaltyReach-Lockstep opening (then_call before call) lockstep =
    LoyaltyStep-Lockstep opening call (LoyaltyReach-Lockstep opening before lockstep)
