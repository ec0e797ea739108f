-- ===== src/Examples/Driving.antt =====
-- A delivery from the rider's application, and retries of a failed payment.
use powergas.Base.{ℕ, ℤ, pos, ◌≡◌, refl, none, some, [], ◌∷◌, arith}
use powergas.Enums.{rider_assigned, delivered, card, PaymentStatus, RiderStatus}
use powergas.Entities.{Payment, pay}
use powergas.Table.{find_by_id}
use powergas.World.{World}
use powergas.Consoles.{RiderApp}
use powergas.Consoles.Delivery.{drive, drive_delivers, IsReady}
use powergas.Payments.{retry_failed_payments}
use powergas.Payments.Retries.{run_retries, retries_end}
use powergas.Examples.Data.{world, the_order, the_station}
use powergas.Examples.Paying.{providers}

-- No distance between a place and itself.
abbrev nowhere : ℤ → ℤ → ℤ → ℤ → ℕ
nowhere a b c d = 0

-- Rider 5 has claimed order 1.
abbrev claimed : World
claimed = world rider_assigned (some 5) RiderStatus.busy

abbrev app : RiderApp
app = record { order_id = 1; order = the_order rider_assigned (some 5); active_order_id = some 1 }

app-IsReady : IsReady nowhere 8 5 (pos 500) (pos 600) (pos 500) (pos 600) app claimed
app-IsReady = record {
  stored = refl;
  lat = refl;
  lng = refl;
  station = the_station;
  at_its_station = refl;
  station_lat = refl;
  station_lng = refl;
}

drive_delivers_example :
    let (app', w') = drive nowhere 8 5 (pos 500) (pos 600) (pos 500) (pos 600) 8 app claimed in
    (app'.order.status ≡ delivered)
    × (find_by_id 1 w'.orders ≡ some app'.order)
    × (app'.active_order_id ≡ none)
drive_delivers_example =
    drive_delivers nowhere 8 5 (pos 500) (pos 600) (pos 500) (pos 600) (λ a b. omega arith) 8 app
      claimed app-IsReady (omega arith) (omega arith)

-- A payment that failed, and was retried once; nobody knows its provider any more.
abbrev failed_payment : Payment
failed_payment = record {
  order_id = 1;
  customer_id = 7;
  reference = pay 90;
  idempotency_key = none;
  amount = 21000;
  payment_method = card;
  status = PaymentStatus.failed;
  provider = none;
  provider_reference = none;
  paid_at = none;
  retry_count = 1;
}

abbrev unpaid : World
unpaid = record claimed { payments = (60, failed_payment) ∷ [] }

retries_end_example :
    retry_failed_payments providers (run_retries providers 2 unpaid)
    ≡ (0, run_retries providers 2 unpaid)
retries_end_example = retries_end providers 2 unpaid (refl, tt) (omega arith)
