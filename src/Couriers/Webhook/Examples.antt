-- ===== src/Couriers/Webhook/Examples.antt =====
-- A collection of 60.00 at the door, a retry of it, a refused second one and a gateway's late word.
use alpha_pos_server.Base.{
  ℕ, ◌≡◌, refl, Bool, true, false, none, some, [], ◌∷◌, Text, text, strip, take_chars, decimal, get,
  err, ok, ◌==◌,
}
use alpha_pos_server.Base.Int.{pos, ◌+ℤ◌, ◌-ℤ◌, max_ℤ, min_ℤ, hundredths}
use alpha_pos_server.Couriers.Ledger.{PaymentStatus, cash, paid, event_key, is_provider_refund}
use alpha_pos_server.Couriers.Evidence.{
  Methods, till_loop, external_loop, courier_loop, all_sums, payment_evidence, capacity,
  recompute_order_paid, exceeds_remaining,
}
use alpha_pos_server.Couriers.Receipts.{
  Receipt, DoorOrder, Books, external_evidence_values, agrees, ensure_evidence, recomputed,
  existing_refund,
}
use alpha_pos_server.Couriers.Payments.{
  with_evidence, presented, collect, if_room, existing_payment, if_same, raced_payment, if_row,
  new_payment, locate, create_payment,
}
use alpha_pos_server.Couriers.Asks.{
  decimal_number, Outside, Ask, Reply, Answer, read_provider, coerce_amount, manual_external_id,
  identity_error, terms_from, paid_event, received_notice, no_room, missing,
}
use alpha_pos_server.Couriers.Payments.Replay.{create_payment_replay}
use alpha_pos_server.Couriers.Payments.Refusals.{Unpaid, refused_create_records_nothing}
use alpha_pos_server.Couriers.Webhook.Final.{here, then_perform, settled_payment_is_final}
use alpha_pos_server.Couriers.Webhook.{
  if_order, if_owned, refund_payment, read_verdict, paid_callback, failed_callback, apply_webhook,
  perform, Hook, webhook,
}

abbrev methods : Methods
methods = record { is_concrete = λ k. not_mixed k; in_cash = 1; uzcard = 2; payme = 3; mixed = 9 }
  where
    not_mixed : ℕ → Bool
    not_mixed k = elim (k == 9) [ true ↦ false | false ↦ true ]

abbrev outside : Outside
outside = record {
  methods = methods;
  digest = λ s. s;
  provider_refund = λ o. λ m. λ amount. λ id. λ refunds. err (text "closed");
}

abbrev b1 : Text
b1 = text "b1"

abbrev order : DoorOrder
order = record {
  uuid = text "u";
  branch = b1;
  is_delivery = true;
  due = pos 6000;
  assigned = some 7;
  till = [];
  header = record { is_paid = false; recorded_at = none; method = none; paid_at = none };
}

abbrev books : Books
books = record { orders = (1, order) ∷ []; receipts = []; events = []; refunds = [] }

abbrev ask : Ask
ask = record {
  courier = some 7;
  order = 1;
  seen = pos 6000;
  provider = text " cash";
  amount = missing;
  external_id = [];
  note = [];
  link = [];
}

-- What a run computes with.
payment_run : Answer → Answer
unfolding till_loop external_loop courier_loop all_sums payment_evidence capacity
    recompute_order_paid max_ℤ min_ℤ ◌+ℤ◌ ◌-ℤ◌ hundredths strip take_chars decimal event_key
    is_provider_refund external_evidence_values agrees ensure_evidence recomputed existing_refund
    read_provider coerce_amount manual_external_id identity_error terms_from with_evidence presented
    collect if_room existing_payment if_same raced_payment if_row new_payment locate create_payment
    if_order if_owned refund_payment read_verdict paid_callback failed_callback apply_webhook
    perform
payment_run x = x

abbrev receipt : Receipt
receipt = record {
  order = 1;
  courier = some 7;
  provider = cash;
  amount = pos 60;
  status = paid;
  external_id = text "manual:u|7|CASH|60";
  branch = b1;
  note = [];
  link = [];
  paid_at = some 100;
  created_at = 100;
}

abbrev collected_books : Books
collected_books = record {
  orders =
      (
        1,
        record order {
          header = record {
            is_paid = true;
            recorded_at = some 100;
            method = some 1;
            paid_at = some 100;
          };
        },
      )
      ∷ [];
  receipts = (1, receipt) ∷ [];
  events =
      record {
        order = 1;
        branch = b1;
        source_id = text "manual:u|7|CASH|60";
        method = 1;
        amount = pos 6000;
        occurred_at = 100;
        is_deleted = false;
      }
      ∷ [];
  refunds = [];
}

abbrev first_reply : Reply
first_reply = record {
  payment = 1;
  status = paid;
  effects = paid_event 1 ∷ received_notice (some 7) ∷ [];
}

collects : create_payment outside 100 ask 1 none books ≡ (collected_books, ok (some first_reply))
unfolding payment_run
collects = refl

create_payment_replay_example :
    (st : PaymentStatus) × (create_payment outside 200 ask 2 none collected_books
      ≡ (collected_books, ok (some (record { payment = 1; status = st; effects = [] }))))
create_payment_replay_example =
    create_payment_replay outside 100 200 ask 1 2 none none books collected_books first_reply
      collects

-- A gateway says, too late, that the payment failed.
abbrev late_word : Hook
late_word = record {
  external_id = [];
  payment_id = some 1;
  status = text "Failed";
  order_id = none;
  provider = [];
  amount = missing;
}

abbrev late_call : Books
late_call = (perform outside 300 (webhook late_word) 2 none collected_books).0

settled_payment_is_final_example : get 1 late_call.receipts ≡ some receipt
settled_payment_is_final_example =
    settled_payment_is_final outside 1 receipt collected_books late_call
      (then_perform 300 (webhook late_word) 2 none here refl) refl refl refl

-- Another 10.00 are more than what is left.
abbrev second_ask : Ask
second_ask = record ask { amount = decimal_number (pos 10) 0; external_id = text "x" }

refuses :
    create_payment outside 300 second_ask 2 none collected_books
    ≡ (collected_books, err (no_room exceeds_remaining))
unfolding payment_run
refuses = refl

refused_create_records_nothing_example :
    (collected_books.events ≡ collected_books.events)
    × (collected_books.refunds ≡ collected_books.refunds)
    × Unpaid collected_books none collected_books.receipts
refused_create_records_nothing_example =
    refused_create_records_nothing outside 300 second_ask 2 none collected_books collected_books
      (no_room exceeds_remaining) refl refuses
