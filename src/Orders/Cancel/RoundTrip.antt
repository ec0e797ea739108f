-- ===== src/Orders/Cancel/RoundTrip.antt =====
-- A cancellation gives back what the creation reserved.
use powergas.Base.{ℕ, ◌≡◌, refl, ap, ◌∙◌, some, List, [], ◌∷◌, ◌++◌, arith}
use powergas.Enums.{UserRole}
use powergas.Table.{Uuid, IsBelow, find_by_id}
use powergas.Entities.{Text, Order, OrderItem}
use powergas.World.{World, ok}
use powergas.Orders.Pricing.{OrderItemDto, CreateOrderDto}
use powergas.Orders.Reservation.Demand.{reserved, demand, wanted, ordered}
use powergas.Orders.Reservation.Stock.{IsStocked}
use powergas.Orders.Create.{generate_order_number, delivery_code, new_order, order_items_of, create}
use powergas.Orders.Create.Effects.{create_ok}
use powergas.Orders.Cancel.{items_of, is_not_own, cancel, close}
use powergas.Orders.Cancel.Effects.{cancel_gives_back}

items_of-append :
    (id : Uuid) (xs ys : List OrderItem) → items_of id (xs ++ ys) ≡ items_of id xs ++ items_of id ys
items_of-append id [] ys = refl
items_of-append id (x ∷ xs) ys = ground (arith, items_of-append id xs ys)

items_of-order_items_of :
    (id : Uuid) (items : List OrderItemDto)
    → items_of id (order_items_of id items) ≡ order_items_of id items
unfolding order_items_of
items_of-order_items_of id [] = refl
items_of-order_items_of id (i ∷ items) = ground (arith, items_of-order_items_of id items)

-- The items of the order ask for what the request asked for.
ordered-order_items_of :
    (id : Uuid) (items : List OrderItemDto) → ordered (order_items_of id items) ≡ wanted items
unfolding order_items_of
ordered-order_items_of id [] = refl
ordered-order_items_of id (i ∷ items) = ground (arith, ordered-order_items_of id items)

-- A customer who cancels an order just placed succeeds: the order is then cancelled, and as many
-- cylinders of each type are reserved at each station as before it was placed.
pub cancel-create :
    (customer_id : Uuid) (dto : CreateOrderDto) (random date : ℕ) (reason : Text) (w w' : World)
    {id : Uuid}
    → IsBelow w.next_id w.orders
    → IsStocked w.inventory
    → items_of id w.order_items ≡ []
    → create customer_id dto random date w ≡ (ok id, w')
    → (o : Order) × ((cancel id customer_id reason UserRole.customer w').0 ≡ ok o)
      × (find_by_id id (cancel id customer_id reason UserRole.customer w').1.orders
          ≡ some (close reason o))
      × ((s c : Uuid)
          → reserved s c (cancel id customer_id reason UserRole.customer w').1.inventory
            ≡ reserved s c w.inventory)
unfolding new_order is_not_own
cancel-create customer_id dto random date reason w w' {id} below stocked no_items h =
    let (_, found, _, items, _, counts, stocked') =
      create_ok customer_id dto random date w w' below stocked h in
    let mine : items_of id w'.order_items ≡ order_items_of id dto.items =
      ap (items_of id) items
      ∙ items_of-append id w.order_items (order_items_of id dto.items)
      ∙ ap (λ (xs : List OrderItem). xs ++ items_of id (order_items_of id dto.items)) no_items
      ∙ items_of-order_items_of id dto.items in
    let same : ordered (items_of id w'.order_items) ≡ wanted dto.items =
      ap ordered mine ∙ ordered-order_items_of id dto.items in
    let (cancels, closed, back) =
      cancel_gives_back id customer_id reason UserRole.customer w' found (omega arith)
        (ground arith) stocked'.keyed (λ c. rw same (ground (arith, counts dto.station_id c))) in
    (o, cancels, closed, λ s c. ground (arith, back s c, counts s c, ap (demand c) same))
  where
    o : Order
    o = new_order customer_id dto (delivery_code random) (generate_order_number date w)
