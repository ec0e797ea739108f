-- ===== src/Examples/Ending.antt =====
-- Orders confirmed and settled.
use powergas.Base.{◌≡◌, ◌≢◌, refl, none, some, [], ◌∷◌, arith, inr}
use powergas.Enums.{delivered, customer_confirmed, RiderStatus}
use powergas.Table.{find_by_id, update}
use powergas.World.{World, Event, ok, err, not_found}
use powergas.Inventory.{commit_reservation}
use powergas.Riders.{wallet_of, credit_wallet}
use powergas.Orders.Confirm.{confirm, confirm_delivery}
use powergas.Orders.Confirm.Effects.{Confirms, confirm_delivery-Confirms}
use powergas.Settlement.{
  Split, add_revenue, is_null, compute_split, complete, commit_items, settle, settle_found,
  settle_order, book, pay_rider,
}
use powergas.Settlement.Effects.{split_of}
use powergas.Settlement.Outcome.{Settles, settle-Settles}
use powergas.Settlement.Completion.{settle_completes, settle_idempotent}
use powergas.Settlement.Failures.{settle_unpaid}
use powergas.Listeners.{handle}
use powergas.Listeners.Delivery.{confirm_delivery-handle}
use powergas.Examples.Data.{the_order, the_item, the_wallet, world}

abbrev delivered_world : World
delivered_world = world delivered (some 5) RiderStatus.busy

abbrev confirmed_world : World
confirmed_world = world customer_confirmed (some 5) RiderStatus.busy

abbrev no_wallets : World
no_wallets = record confirmed_world { wallets = [] }

-- A second item of a type that the station has no row of.
abbrev two_items : World
two_items = record confirmed_world {
  order_items = the_item ∷ record the_item { cylinder_type_id = 9 } ∷ [];
}

abbrev settled_world : World
settled_world = (settle is_null 1000 1 confirmed_world).1

abbrev the_split : Split
the_split = split_of is_null 1000 (the_order delivered (some 5)) delivered_world

confirm_delivery-Confirms_example :
    Confirms 1 7 123456 none delivered_world (confirm_delivery 1 7 123456 none delivered_world)
confirm_delivery-Confirms_example = confirm_delivery-Confirms 1 7 123456 none delivered_world

payable : wallet_of 5 confirmed_world.wallets ≢ none
payable e = cc

settle-Settles_example : Settles is_null 1000 1 two_items (settle is_null 1000 1 two_items)
settle-Settles_example = settle-Settles is_null 1000 1 two_items

settle_completes_example : (settle is_null 1000 1 confirmed_world).0 ≡ ok tt
settle_completes_example =
    (settle_completes is_null 1000 1 confirmed_world refl refl (refl, tt) (refl, tt)
      (inr payable)).0

settle_idempotent_example : settle is_null 1000 1 settled_world ≡ (ok tt, settled_world)
unfolding settle settle_found settle_order book commit_items commit_reservation pay_rider
    credit_wallet compute_split
settle_idempotent_example = settle_idempotent is_null 1000 1 confirmed_world settled_world refl

settle_unpaid_example : (settle is_null 1000 1 no_wallets).0 ≡ err not_found
unfolding compute_split
settle_unpaid_example =
    (settle_unpaid is_null 1000 1 5 no_wallets ((6, the_wallet) ∷ []) refl refl (refl, tt) refl
      (omega arith) refl).0

confirm_delivery-handle_example :
    (e : Event) × ((confirm_delivery 1 7 123456 none delivered_world).1.emitted ≡ e ∷ [])
    × (let w₂ = (handle is_null 1000 e (confirm_delivery 1 7 123456 none delivered_world).1).1 in
        (find_by_id 1 w₂.orders
          ≡ some (complete the_split 5000 (confirm none (the_order delivered (some 5)))))
        × (w₂.stations ≡ update 3 (add_revenue the_split.station_earning) delivered_world.stations))
confirm_delivery-handle_example =
    confirm_delivery-handle is_null 1000 1 123456 none delivered_world refl refl refl (refl, tt)
      (refl, tt) (inr payable)
