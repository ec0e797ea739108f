-- ===== src/Lib.antt =====
-- Powergas: delivery of gas cylinders. A model of the backend (backend/src), a NestJS
-- service over a relational database, of the buttons that move its orders, and of what they guarantee.
--
-- Parts and files:
--   World      The database as one record of tables, the events emitted so far, a source of keys and
--              the clock; a service method is an action on it that returns or raises. `transaction` is
--              dataSource.transaction, and forgets the writes of a body that raises.
--   Table      Tables and the calls of TypeORM's repositories on them.
--   Enums, Entities   common/enums/index.ts and the entities of every module
--              but files.
--   Orders     orders/orders.service.ts, a module for each operation: Create (create), Status
--              (updateStatus and its proximity checks), Assign (assignRider, releaseRiderIfFree), Accept
--              (acceptOrder, attachNearbySameStationOrders), Confirm (confirmDelivery), Cancel
--              (cancel), Reservation (reserveInventory, releaseInventoryReservation), Pricing (calculatePricing), Lifecycle
--              (isValidTransition, getStatusTimestamps), Store (findById and the status history).
--   Batching   orders/batching.service.ts: the cycle that groups waiting orders and finds them riders.
--   Payments   payments: the service, the interface of a provider and the two providers.
--   ChangeRequests   change-requests/change-requests.service.ts: more money for an order under way.
--   Geo        haversineKm.
--   Pagination common/utils/pagination.util.ts.
--   Settlement orders/settlement.service.ts: the commission, the split, and its booking.
--   Inventory, Cylinders   inventory/inventory.service.ts: stock counts and prices; the kinds of cylinders, the single
--              cylinders and the history of prices.
--   Riders     riders/riders.service.ts: profiles, availability and wallets.
--   Users, Auth   users/users.service.ts and auth/auth.service.ts: accounts, logins and their lockout, refresh
--              tokens, one-time codes. Auth/Machine is the machine of sessions that Auth/Refinement finds
--              in the table of tokens.
--   Guards     auth/guards and auth/strategies/jwt.strategy.ts: who may call a route.
--   OrdersApi, OrderViews   orders/orders.controller.ts and orders/utils/order-view.util.ts: the routes of the orders, and
--              what is answered to whom.
--   AuthApi, StationsApi, RidersApi, InventoryApi, ChangeRequestsApi, PaymentsApi   The controller of the same module.
--   AdminApi, AccountApi   What administrators ask for, in the controllers of admin, disputes and users; and what
--              everybody may on the own account, in those of users, customers, notifications and reviews.
--   Tracking   tracking/tracking.service.ts and, in Tracking/Gateway, tracking/tracking.gateway.ts: reported
--              positions, sockets and rooms.
--   Consoles   The buttons of the station's web page (frontend/src/pages/station/StationOrders.tsx) and of
--              the rider's application (mobile/rider/src/screens/activeOrder/ActiveOrderScreen.tsx).
--   WebClient  The requests of the web pages (frontend/src/services/api.ts, frontend/src/store/auth.ts).
--   Stations, Admin   stations/stations.service.ts, stations/station-analytics.service.ts and
--              admin/admin.service.ts: stations with their staff; commission rules, settings and totals.
--   Customers, Reviews, Disputes, Notifications   The service of the same name.
--   Queries    Pages of rows, newest first, as findAndCount answers them.
--   Listeners  orders/events: the handlers of the events that the orders emit.
--   Base       Shared names, tests, lists and integers. Examples holds runs on a small state.
--
-- How they interact: an order is created in PENDING and reserves stock of its station; updates of its
-- status move it along the table of transitions, an assignment claims it together with a rider; the
-- customer's confirmation emits an event, whose handler settles the order: it books the split, takes
-- the stock and pays the rider's wallet. A cancellation gives the reserved stock back. A route runs the
-- service's method behind the guards, which read the account that a login's token names.
--
-- Representation: a key is a number, and so is a text that is only stored and compared. Money is in
-- whole cents, percentages in hundredths; `toFixed(2)` rounds the exact quotient half up. Counts that
-- the code may take below zero are integers. Rows under a pessimistic lock are read and written in one
-- step, so an operation on them is one action. An action runs alone; a read that the code makes through
-- another connection inside a transaction (`outside`) sees the state before it.
--
-- Parameters: the distance of the package geolib (get_distance), the random part of a delivery code,
-- the day of an order number, the text of a change request's payment key (request_key), the configured
-- fallback of the commission, and how TypeORM reads `null` in the `where` of a find (NullWhere: the
-- locked version ignores it). The floating-point numbers of the distances and centroids are a parameter
-- (Floats), and so are the digest that signs a webhook (hmac) and the nearest rider that the query of
-- findNearestAvailable returns. Hashing, signing and the random one-time code are a parameter of Auth
-- (Libraries), and so are its settings (Environment); the payload of a good token is one of the guards
-- and the gateway.
--
-- Bounds and fuel: the loops are recursions on the lists that they run over. Only the grouping of a
-- pool of orders runs on fuel, as many rounds as the pool has orders: each round takes at least one.
-- Quantities and amounts are unbounded numbers, as JavaScript's are exact below 2^53.
--
-- A row that is deleted softly leaves its table, since no query of TypeORM finds it any more.
--
-- Not modelled: queries in raw SQL (orders and stations nearby, reports by day, a station's customers), the
-- upload of files and the channels that send messages, the limits of requests, and what the user
-- interfaces display.
pub mod Base
pub mod Enums
pub mod Table
pub mod Entities
pub mod Geo
pub mod Pagination
pub mod World
pub mod Inventory
pub mod Riders
pub mod Orders
pub mod Settlement
pub mod Listeners
pub mod Examples
pub mod Batching
pub mod Payments
pub mod ChangeRequests
pub mod Users
pub mod Auth
pub mod Queries
pub mod Admin
pub mod Stations
pub mod Reviews
pub mod Customers
pub mod Disputes
pub mod Cylinders
pub mod Notifications
pub mod Guards
pub mod OrderViews
pub mod OrdersApi
pub mod RidersApi
pub mod ChangeRequestsApi
pub mod StationsApi
pub mod AuthApi
pub mod InventoryApi
pub mod AdminApi
pub mod AccountApi
pub mod PaymentsApi
pub mod Tracking
pub mod Consoles
pub mod WebClient
