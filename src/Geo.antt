-- ===== src/Geo.antt =====
-- `haversineKm`, which backend/src/orders/orders.service.ts and
-- backend/src/orders/batching.service.ts both declare, over the numbers of JavaScript: their
-- arithmetic, their trigonometry and their order are a parameter.
use powergas.Base.{ℕ, ℤ, Bool, Option, none, some}

pub record Floats : Type 1 where
  pub F : Type 0
  -- A literal, and `Number` of a column of coordinates.
  pub number : ℕ → F
  pub coordinate : ℤ → F
  -- What a column of coordinates stores.
  pub stored : F → ℤ
  pub pi : F
  pub add : F → F → F
  pub sub : F → F → F
  pub mul : F → F → F
  pub div : F → F → F
  pub sin : F → F
  pub cos : F → F
  pub sqrt : F → F
  pub atan2 : F → F → F
  pub le : F → F → Bool

module _ (m : Floats) where
  -- `Number(x)` of a nullable column: `Number(null)` is 0.
  abbrev pub to_number : Option ℤ → m.F
  to_number none = m.number 0
  to_number (some x) = m.coordinate x

  abbrev pub to_rad : m.F → m.F
  to_rad deg = m.div (m.mul deg m.pi) (m.number 180)

  abbrev pub square : m.F → m.F
  square x = m.mul x x

  unfoldable pub haversine_km : m.F → m.F → m.F → m.F → m.F
  haversine_km lat1 lng1 lat2 lng2 =
      let d_lat : m.F = to_rad (m.sub lat2 lat1) in
      let d_lng : m.F = to_rad (m.sub lng2 lng1) in
      let a : m.F = m.add (square (m.sin (m.div d_lat (m.number 2)))) (
        m.mul (m.mul (m.cos (to_rad lat1)) (m.cos (to_rad lat2)))
          (square (m.sin (m.div d_lng (m.number 2))))) in
      m.mul (m.mul (m.number 6371) (m.number 2))
        (m.atan2 (m.sqrt a) (m.sqrt (m.sub (m.number 1) a)))
