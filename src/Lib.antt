-- ===== src/Lib.antt =====
-- Coffix: a verification of the TypeScript clients of the repository.
--
-- The repository has a mobile application (mobile/), a staff dashboard (admin/) and the API client
-- that both use (packages/api-client/). The clients hold no authority: the server decides, and the
-- clients keep a session, show optimistic state, collect forms and reconcile with the answers.
--
-- Conventions. A function or handler of the source has a definition of the same name in snake case.
-- A React hook or a factory is a record of its state with one function for each handler or event;
-- the awaits of an asynchronous function cut it into events. A string that the program only compares
-- is a `String`; one that it walks is a `Text`, the list of its UTF-16 code units. Hebrew texts are
-- constructors named for their meaning. Numbers are natural numbers: amounts are whole agorot, times
-- whole milliseconds since the epoch. What the program does not implement (the network, Date, React,
-- react-query, the native modules) enters as a parameter or as a choice of events.
--
-- The parts, and the files that model them (Tests.antt of a part has its examples):
--   Prelude, Prelude/       lists, texts, decimals and association lists that the parts share.
--   Api                     packages/api-client/src/client.ts: JSON values, ApiProblem, ApiClientError.
--   Client, Client/         packages/api-client/src/client.ts: createApiClient. `send` with `attempt`,
--                           `answer`, `renewed` and `conclude` for its stages; fetch, the token store,
--                           the refresh and JSON are a `Platform`, whose calls are recorded.
--   Cart, Cart/             mobile/src/features/cart: optimisticCart and priceChanged (mutations.ts),
--                           useCartMutations as a state and events (Cart/Queue), expiry.ts (Cart/Expiry).
--   Storage, Storage/       expo-secure-store, a parameter with its documented laws, and rules to reason
--                           about operations of which any call may be rejected.
--   Service, Service/       mobile/src/features/service: createIntakeStore of intakeStore.ts, over any
--                           secure store and any JSON form of drafts (Service/IntakeStore),
--                           submission.ts (Service/Submission), and intakeInput of intakeStore.ts with
--                           the page of an intake step (Service/Intake): `proceed` and `finish` of
--                           IntakeScreen.tsx and useIntakeDraft.ts, cut at their awaits.
--   Phone, Phone/           mobile/src/features/auth/api.ts: normalizeIsraeliPhone.
--   Addresses, Addresses/   mobile/src/features/addresses/form.ts, which takes its phone from Phone.
--   Checkout, Checkout/     mobile/app/(tabs)/(shop)/checkout.tsx: the addresses of the page of the delivery,
--                           with the form of Addresses.
--   Orders, Orders/         mobile/src/features/orders/status.ts: the status tables, filterOrders,
--                           fulfillmentProgress and buildTimeline.
--   Machines, Machines/     mobile/src/features/machines/form.ts: the form that registers a machine, and
--                           the page mobile/app/(tabs)/(service)/register.tsx with its photo of
--                           Media/Photo (Machines/Register).
--   Media, Media/           mobile/src/features/media: uploadMedia of uploader.ts (Media/Uploader) and
--                           useRegistrationPhoto (Media/Photo), over one another by events.
--   Payments, Payments/     mobile/src/features/payments: the confirmers, usePayment (Payments/Hook), the
--                           opening of a payment by mobile/app/(tabs)/(shop)/payment.tsx
--                           (Payments/Attempt) and mobile/src/features/service/payments.ts
--                           (Payments/Service).
--   Notifications, Notifications/
--                           mobile/src/features/notifications: navigation.ts, and createPushSession
--                           of push.ts: its messages, then the whole session
--                           (Notifications/Registration).
--   Otp, Otp/               mobile/app/(auth)/otp.tsx: the handlers of the page of the one-time code.
--   Session, Session/       mobile/src/features/auth: secureTokenStore (store.ts) and the session of
--                           useSession.tsx: one whole logout over any secure store, with the drafts of
--                           Service/IntakeStore, and in Session/Steps all operations, cut at their
--                           awaits and interleaved.
--   Catalog, Catalog/       mobile/src/features/catalog: types.ts, the paging of queries.ts and
--                           useDebouncedSearch.ts (Catalog/Paging), and what the page
--                           mobile/app/(tabs)/(shop)/product/[productId].tsx selects and buys, with
--                           mobile/src/components/QuantityStepper.tsx (Catalog/Selection).
--   WebClient, WebClient/   admin/src/api/client.ts: createWebClient, as a state that the requests of a tab
--                           share and the requests in flight; it reads the answers as Client does.
--                           WebClient/Upload is `uploadFile`, over any `URL`.
--
-- Two definitions run on fuel: `decimal`, which has one round more than the number, and a number has
-- fewer digits than that, and `fetch_pages`, for which enough fuel is proved. Loops over chunks and
-- keys are recursion on their count.
--
-- Not modelled: the server (backend/), the layout of the screens, the styles and translations, the
-- endpoints' one-line calls and generated types but those of the cart, and the third-party
-- libraries. Of createWebClient the shape of a request is left out; of status.ts,
-- `safeTrackingUrl`, `formatOrderTimestamp` and the explanations. The page of an intake step is for
-- one session and one machine.
pub mod Addresses
pub mod Api
pub mod Cart
pub mod Catalog
pub mod Checkout
pub mod Client
pub mod Machines
pub mod Media
pub mod Notifications
pub mod Orders
pub mod Otp
pub mod Payments
pub mod Phone
pub mod Prelude
pub mod Service
pub mod Session
pub mod Storage
pub mod WebClient
