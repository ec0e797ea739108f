-- ===== src/World.antt =====
-- The state that the services share, the database and the events emitted so far, and the actions
-- on it. A service method runs as one action: what it wrote before it raised stays written, unless
-- it wrote inside `dataSource.transaction`, which is `transaction` below.
use powergas.Base.{
  ◌+◌, ◌≡◌, refl, ◌⊎◌, inl, inr, Bool, Option, none, some, List, ◌∷◌, if◌then◌else◌,
}
use powergas.Enums.{OrderStatus}
use powergas.Table.{Uuid, Table}
use powergas.Entities.{
  Order, OrderItem, OrderStatusHistory, OrderTrackingEvent, DeliveryBatch, CylinderInventory,
  PricingHistory, GasStation, Rider, RiderWallet, WalletTransaction, PlatformCommission, Payment,
  PaymentWebhook, Time, OrderChangeRequest, Reference, User, RefreshToken, OtpRecord,
  GasStationStaff, Review, Dispute, Customer, Address, CylinderType, Cylinder, Notification,
  SystemSetting,
}

-- What `EventEmitter2.emit` is called with. The event `order.<status>` carries the order as the
-- emitter last read it.
pub data Event : Type 0 where
  order_created : Uuid → Order → Event
  order_status : OrderStatus → Uuid → Order → Event
  low_stock : Uuid → Uuid → Event
  payment_completed : Uuid → Uuid → Reference → Event
  payment_failed : Uuid → Uuid → Event
  dispute_opened dispute_resolved : Uuid → Dispute → Event
  change_request_raised change_request_rejected change_request_approved : Uuid → Uuid → Event

-- The exceptions of NestJS that the services throw, TypeORM's EntityNotFoundError, which
-- `findOneOrFail` throws, and any other `Error`, which is answered as an internal error.
pub data HttpException : Type 0 where
  bad_request unauthorized forbidden not_found conflict entity_not_found internal_error :
      HttpException

pub record World : Type 0 where
  pub orders : Table Order
  pub order_items : List OrderItem
  pub status_history : List OrderStatusHistory
  pub tracking_events : List OrderTrackingEvent
  pub batches : Table DeliveryBatch
  pub inventory : Table CylinderInventory
  pub pricing_history : List PricingHistory
  pub stations : Table GasStation
  pub riders : Table Rider
  pub wallets : Table RiderWallet
  pub wallet_transactions : List WalletTransaction
  pub commissions : List PlatformCommission
  pub payments : Table Payment
  pub webhooks : Table PaymentWebhook
  pub change_requests : Table OrderChangeRequest
  pub users : Table User
  pub refresh_tokens : Table RefreshToken
  pub otp_records : Table OtpRecord
  pub station_staff : Table GasStationStaff
  pub reviews : Table Review
  pub disputes : Table Dispute
  pub customers : Table Customer
  pub addresses : Table Address
  pub cylinder_types : Table CylinderType
  pub cylinders : Table Cylinder
  pub notifications : Table Notification
  pub settings : Table SystemSetting
  pub emitted : List Event
  pub next_id : Uuid
  pub now : Time

pub data Result (A : Type 0) : Type 0 where
  ok : A → Result A
  err : HttpException → Result A

abbrev pub Action : Type 0 → Type 0
Action A = World → Result A × World

module _ {A : Type 0} where
  abbrev pub pure : A → Action A
  pure a w = (ok a, w)

  abbrev pub raise : HttpException → Action A
  raise e w = (err e, w)

  abbrev pub gets : (World → A) → Action A
  gets f w = (ok (f w), w)

  abbrev pub or_raise : Option A → HttpException → Action A
  or_raise none e = raise e
  or_raise (some a) _ = pure a

infixl 5 ◌>>=◌ ◌>>◌
abbrev pub ◌>>=◌ : {A B : Type 0} → Action A → (A → Action B) → Action B
◌>>=◌ m f w = let (r, w') = m w in elim r [ ok a ↦ f a w' | err e ↦ raise e w' ]

abbrev pub ◌>>◌ : {A B : Type 0} → Action A → Action B → Action B
m >> k = m >>= λ _. k

abbrev pub raise_if : Bool → HttpException → Action (Unit {0})
raise_if c e w = (if c then err e else ok tt, w)

abbrev pub modify : (World → World) → Action (Unit {0})
modify f w = (ok tt, f w)

abbrev pub emit : Event → Action (Unit {0})
emit e w = (ok tt, record w { emitted = e ∷ w.emitted })

abbrev pub fresh_id : Action Uuid
fresh_id w = (ok w.next_id, record w { next_id = w.next_id + 1 })

-- `if (c) await m;`
abbrev pub perform_if : Bool → Action (Unit {0}) → Action (Unit {0})
perform_if c m w = if c then m w else (ok tt, w)

-- The database forgets what a failed transaction wrote. The events that it emitted are out, and
-- the keys that it drew are not drawn again.
abbrev pub rollback : World → World → World
rollback before after = record before { emitted = after.emitted; next_id = after.next_id }

-- `dataSource.transaction(m)`
abbrev pub transaction : {A : Type 0} → Action A → Action A
transaction m w = let (r, w') = m w in elim r [ ok a ↦ (ok a, w') | err e ↦ (err e, rollback w w') ]

-- A read inside a transaction that goes through another connection: it sees what was committed
-- before the transaction.
abbrev pub outside : {A : Type 0} → World → Action A → Action A
outside before m w = let (r, _) = m before in (r, w)

-- How a sequence of actions runs, by how its first action ends.
module _ {A B : Type 0} (m : Action A) (f : A → Action B) {w w' : World} where
  pub >>=-ok : {a : A} → m w ≡ (ok a, w') → (m >>= f) w ≡ f a w'
  >>=-ok e = rw (e, ◌>>=◌) (cc)

  pub >>=-err : {e : HttpException} → m w ≡ (err e, w') → (m >>= f) w ≡ (err e, w')
  >>=-err e = rw (e, ◌>>=◌) (cc)

module _ {A B : Type 0} (m : Action A) (k : Action B) {w w' : World} where
  pub >>-ok : {a : A} → m w ≡ (ok a, w') → (m >> k) w ≡ k w'
  >>-ok e = rw (e, ◌>>=◌) (cc)

  pub >>-err : {e : HttpException} → m w ≡ (err e, w') → (m >> k) w ≡ (err e, w')
  >>-err e = rw (e, ◌>>=◌) (cc)

-- To split on how an action ends.
pub Result-cases :
    {A : Type 0} (p : Result A × World)
    → ((a : A) × (p ≡ (ok a, p.1))) ⊎ ((e : HttpException) × (p ≡ (err e, p.1)))
Result-cases (ok a, w) = inl (a, refl)
Result-cases (err e, w) = inr (e, refl)

-- How a transaction runs, by how its body ends.
module _ {A : Type 0} (m : Action A) {w w' : World} where
  pub transaction-ok : {a : A} → m w ≡ (ok a, w') → transaction m w ≡ (ok a, w')
  transaction-ok e = rw (e, transaction) (cc)

  pub transaction-err :
      {e : HttpException} → m w ≡ (err e, w') → transaction m w ≡ (err e, rollback w w')
  transaction-err e = rw (e, transaction) (cc)
