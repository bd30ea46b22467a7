-- ===== src/Smartfood/Checkout/Repeats.antt =====
-- A request for an order that is sent again (smartfood/services/order_service.py,
-- BotOrderService.create).
use mathlib.Core.Path.{subst}
use alpha_pos_server.Base.{
  not-eq-false, true-ne-false, ℕ, ◌≡◌, refl, sym, ap, ◌∙◌, Bool, true, false, not, ◌&&◌, Option,
  none, some, List, ◌∷◌, Text, text_eq, text_eq_refl, get, find_key, find_key-put_first,
  get-put_self, ◌==◌, ==_refl, if◌then◌else◌, Bool-cases, inl, inr, Result, ok, ok-injective,
  bind_ok_inv, or_raise_inv, raise_if_inv, ◌>>=◌,
}
use alpha_pos_server.Smartfood.Loyalty.{
  Club, Customer, record_points, write_change, customer_missing,
}
use alpha_pos_server.Smartfood.Cart.{is_in}
use alpha_pos_server.Smartfood.OrderInput.{text_value}
use alpha_pos_server.Smartfood.Desk.{Slip, Member, Desk, queue_order_status, ensure_job}
use alpha_pos_server.Smartfood.Checkout.Cases.{first_request_inv, create_order_inv}
use alpha_pos_server.Smartfood.Checkout.{
  Payload, Clean, CheckoutError, Store, normalize_payload, check_phone, fingerprint_of, is_request,
  is_pending_row, repeated, new_slip, spend_change, reserve, with_job, first_request, by_request,
  create_order, idempotency_conflict, BotOrder, new_order, on_placed, with_new_rows,
}

ensure_job-twice : (id : ℕ) (jobs : List ℕ) → is_in id (ensure_job id jobs) ≡ true
ensure_job-twice id jobs = elim (Bool-cases (is_in id jobs)) [
  | inl e ↦ rw e e
  | inr e ↦ rw (e, ==_refl id) refl
]

-- A request that has been served: its row is there, and its job if one is due.
abbrev Served : Store → Text → ℕ → Desk → Type 0
Served store fingerprint k d =
    ((s : Slip) × (get k d.slips ≡ some s) × (text_eq s.fingerprint fingerprint ≡ true))
    × ((is_pending_row (get k d.shop.bot_orders) && store.auto_dispatch ≡ true)
        → is_in k d.jobs ≡ true)

Served-repeats :
    (store : Store) (fingerprint : Text) (k : ℕ) (d : Desk)
    → Served store fingerprint k d
    → repeated store fingerprint k (get k d.slips) d ≡ ok (k, d)
unfolding repeated
Served-repeats store fingerprint k d ((s, row, same), job) =
    rw (row, same)
      (ap (λ x. let r : Result CheckoutError (ℕ × Desk) = ok (k, x) in r)
        (by_test (is_pending_row (get k d.shop.bot_orders) && store.auto_dispatch) job))
  where
    by_test :
        (b : Bool)
        → (b ≡ true → is_in k d.jobs ≡ true)
        → (if b then record d { jobs = ensure_job k d.jobs } else d) ≡ d
    by_test true due = rw (due refl) refl
    by_test false due = refl

-- What the second call finds: the customer, the slip, and the same of everything it reads.
abbrev Found : Store → ℕ → ℕ → Text → ℕ → Desk → Desk → Type 0
Found store cid client fingerprint k d d' =
    (d'.members ≡ d.members)
    × ((customer : Customer) × (get cid d'.shop.club.customers ≡ some customer))
    × (find_key (is_request cid client) d'.slips ≡ some k)
    × Served store fingerprint k d'

repeated-Found :
    (store : Store) (cid client : ℕ) (fingerprint : Text) (j : ℕ) (row : Option Slip)
    (customer : Customer) (d d' : Desk) (k : ℕ)
    → get j d.slips ≡ row
    → find_key (is_request cid client) d.slips ≡ some j
    → get cid d.shop.club.customers ≡ some customer
    → repeated store fingerprint j row d ≡ ok (k, d')
    → Found store cid client fingerprint k d d'
unfolding repeated
repeated-Found store cid client fingerprint j none customer d d' k at found here h = cc
repeated-Found store cid client fingerprint j (some s) customer d d' k at found here h =
    let (same, done) =
      raise_if_inv _ (not (text_eq s.fingerprint fingerprint)) idempotency_conflict h in
    let done' = ok-injective done in
    subst (λ x. Found store cid client fingerprint x.0 d x.1) done'
      (by_test (is_pending_row (get j d.shop.bot_orders) && store.auto_dispatch) refl
        (not-eq-false same))
  where
    by_test :
        (b : Bool)
        → is_pending_row (get j d.shop.bot_orders) && store.auto_dispatch ≡ b
        → text_eq s.fingerprint fingerprint ≡ true
        → Found store cid client fingerprint j d
            (if b then record d { jobs = ensure_job j d.jobs } else d)
    by_test true e same =
        (refl, (customer, here), found, ((s, at, same), λ due. ensure_job-twice j d.jobs))
    by_test false e same =
        (refl, (customer, here), found, ((s, at, same), λ due. true-ne-false (sym due ∙ e)))

reserve-customer :
    (now cid id points : ℕ) (club club' : Club) (customer : Customer)
    → get cid club.customers ≡ some customer
    → reserve now cid id points club ≡ ok club'
    → (c : Customer) × (get cid club'.customers ≡ some c)
unfolding reserve record_points write_change
reserve-customer now cid id points club club' customer here h = by_points (points == 0) h
  where
    by_points :
        (b : Bool)
        → (if b
            then ok club
            else (record_points now cid (spend_change id points) club >>= λ r. ok r.0))
          ≡ ok club'
        → (c : Customer) × (get cid club'.customers ≡ some c)
    by_points true e = (customer, ap (λ x. get cid x.customers) (sym (ok-injective e)) ∙ here)
    by_points false e =
        let (r, recorded, done) =
          bind_ok_inv _ (record_points now cid (spend_change id points) club) e in
        let (c, found, wrote) = or_raise_inv _ (get cid club.customers) customer_missing recorded in
        (
          _,
          ap (λ x. get cid x.customers) (sym (ok-injective done))
              ∙ ap (λ x. get cid x.0.customers) (sym (ok-injective wrote))
              ∙ get-put_self cid _ club.customers,
        )

and_false : (b : Bool) → b && false ≡ false
and_false true = refl
and_false false = refl

with_new_rows-Served :
    (store : Store) (id cid : ℕ) (slip : Slip) (row : BotOrder) (club : Club) (fingerprint : Text)
    (d : Desk)
    → text_eq slip.fingerprint fingerprint ≡ true
    → Served store fingerprint id
        (queue_order_status id on_placed (with_job store id (with_new_rows id cid slip row club d)))
unfolding queue_order_status
with_new_rows-Served store id cid slip row club fingerprint d same =
    by_setting store.auto_dispatch refl
  where
    by_setting :
        (b : Bool)
        → store.auto_dispatch ≡ b
        → Served store fingerprint id (
            queue_order_status id on_placed (
              if b
              then record (with_new_rows id cid slip row club d) { jobs = id ∷ d.jobs }
              else with_new_rows id cid slip row club d))
    by_setting true e = ((slip, get-put_self id slip d.slips, same), λ due. rw (==_refl id) refl)
    by_setting false e = (
      (slip, get-put_self id slip d.slips, same),
      λ due. true-ne-false (sym due ∙ rw e (and_false _)),
    )

job_frame :
    (store : Store) (id : ℕ) (d : Desk)
    → ((with_job store id d).members ≡ d.members)
      × ((with_job store id d).shop ≡ d.shop)
      × ((with_job store id d).slips ≡ d.slips)
job_frame store id d = by_setting store.auto_dispatch
  where
    by_setting :
        (b : Bool)
        → ((if b then record d { jobs = id ∷ d.jobs } else d).members ≡ d.members)
          × ((if b then record d { jobs = id ∷ d.jobs } else d).shop ≡ d.shop)
          × ((if b then record d { jobs = id ∷ d.jobs } else d).slips ≡ d.slips)
    by_setting true = (refl, refl, refl)
    by_setting false = (refl, refl, refl)

with_new_rows-Found :
    (store : Store) (id cid client : ℕ) (slip : Slip) (row : BotOrder) (club : Club)
    (customer : Customer) (fingerprint : Text) (d : Desk)
    → text_eq slip.fingerprint fingerprint ≡ true
    → find_key (is_request cid client) d.slips ≡ none
    → is_request cid client slip ≡ true
    → get cid club.customers ≡ some customer
    → Found store cid client fingerprint id d
        (queue_order_status id on_placed (with_job store id (with_new_rows id cid slip row club d)))
unfolding queue_order_status
with_new_rows-Found store id cid client slip row club customer fingerprint d same free fits here =
    let e = with_new_rows id cid slip row club d in
    let (members, shop, slips) = job_frame store id e in
    (
      members,
      (customer, ap (λ x. get cid x.club.customers) shop ∙ here),
      ap (λ x. find_key (is_request cid client) x) slips
          ∙ find_key-put_first (is_request cid client) id slip d.slips free fits,
      with_new_rows-Served store id cid slip row club fingerprint d same,
    )

first_request-Found :
    (store : Store) (now id cid : ℕ) (c : Clean) (m : Member) (customer : Customer)
    (phone fingerprint : Text) (d d' : Desk) (k : ℕ)
    → first_request store now id cid c m customer phone fingerprint d ≡ ok (k, d')
    → find_key (is_request cid c.client) d.slips ≡ none
    → get cid d.shop.club.customers ≡ some customer
    → Found store cid c.client fingerprint k d d'
unfolding first_request
first_request-Found store now id cid c m customer phone fingerprint d d' k h free here =
    let (priced, place, club, price, spent, done) =
      first_request_inv store now id cid c m customer phone fingerprint d d' k h in
    let (left, found) =
      reserve-customer now cid id priced.points_used d.shop.club club customer here spent in
    subst (λ x. Found store cid c.client fingerprint x.0 d x.1) done
      (with_new_rows-Found store id cid c.client (new_slip cid fingerprint phone c place priced)
        (new_order cid priced) club left fingerprint d (text_eq_refl fingerprint) free
        (rw (==_refl cid, ==_refl c.client) refl) found)

create_order-located :
    (store : Store) (now id cid : ℕ) (p : Payload) (d : Desk) (c : Clean) (m : Member)
    (customer : Customer) (k : ℕ)
    → normalize_payload store.max_item_quantity p ≡ ok c
    → get cid d.members ≡ some m
    → get cid d.shop.club.customers ≡ some customer
    → check_phone store p.phone (store.normalize_phone (text_value m.phone)) ≡ ok tt
    → find_key (is_request cid c.client) d.slips ≡ some k
    → create_order store now id cid p d
      ≡ repeated store
          (fingerprint_of store c (store.normalize_phone (text_value m.phone)))
          k
          (get k d.slips)
          d
unfolding create_order
create_order-located store now id cid p d c m customer k e1 e2 e3 e4 e5 =
    rw (e1, e2, e3, e4, e5) refl

-- A request that made or found an order can be sent again, at any later time, by the same customer
-- with the same payload and key: while the store answers as before it returns the same order and
-- leaves every table as it was; so no retry makes a second order, spends points twice or queues a
-- second job or message.
pub create_order_twice :
    (store : Store) (now now' id id' cid : ℕ) (p : Payload) (d d' : Desk) (k : ℕ)
    → create_order store now id cid p d ≡ ok (k, d')
    → create_order store now' id' cid p d' ≡ ok (k, d')
unfolding create_order
create_order_twice store now now' id id' cid p d d' k h =
    let (c, m, customer, clean, member, points, checked, h4) =
      create_order_inv store now id cid p d d' k h in
    let phone = store.normalize_phone (text_value m.phone) in
    let (members, (customer', here), found, served) =
      by_key c m customer (find_key (is_request cid c.client) d.slips) refl points h4 in
    create_order-located store now' id' cid p d' c m customer' k clean
      (ap (λ x. get cid x) members ∙ member) here checked found
    ∙ Served-repeats store (fingerprint_of store c phone) k d' served
  where
    by_key :
        (c : Clean) (m : Member) (customer : Customer) (o : Option ℕ)
        → find_key (is_request cid c.client) d.slips ≡ o
        → get cid d.shop.club.customers ≡ some customer
        → by_request store now id cid c m customer
            (store.normalize_phone (text_value m.phone))
            (fingerprint_of store c (store.normalize_phone (text_value m.phone)))
            d
            o
          ≡ ok (k, d')
        → Found store cid c.client
            (fingerprint_of store c (store.normalize_phone (text_value m.phone)))
            k
            d
            d'
    by_key c m customer none e here r =
        first_request-Found store now id cid c m customer _ _ d d' k r e here
    by_key c m customer (some j) e here r =
        repeated-Found store cid c.client _ j (get j d.slips) customer d d' k refl e here r
