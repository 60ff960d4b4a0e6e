-- ===== src/Lib.antt =====
-- Tucano, a marketplace for one-off services: the Django application under apps/ and config/.
--
-- A client publishes a call (`ServiceRequest`); professionals of its category are told and apply
-- (`Interest`); the client selects some of them, which opens a conversation; when the service has
-- taken place both sides are asked whether it did, and may then review each other. Around this
-- stand subscriptions with their quota, moderation cases, notifications, and a rate limiter.
--
-- The state is one database, the record `Db` of Db.antt: a list of rows for each table, in order
-- of insertion, and the queue of tasks that were enqueued and not yet run. A call of the program is
-- an `Action A`: it takes the database to a result, or to an exception, with the database that it
-- leaves. The settings ask for no transaction around a request, so what was written before an
-- exception stays. The user that asks, the clock and the forms' fields are arguments; a text that
-- goes into a message is kept as it is formatted. Where the source works on an object in memory
-- the operation takes that object, and a save writes the columns that the source names to the row
-- with the object's key.
--
--   Prelude     lists, tests, texts; Prelude/QuerySet is the ORM's filter, exists, count, first and
--               update, Prelude/Updates their laws, Prelude/Tables how a table changes over time
--   Models      the rows and enumerations of each app's models.py
--   Db, Http    the database, exceptions as values; responses and the role mixins
--               (apps/accounts/mixins.py)
--   Audit       apps/moderation/audit.py
--   Notifications   Dispatch: preferences and dispatch_notification; Sending: the senders and
--               notify_user_task (apps/accounts/notifications.py, tasks.py); Channels: its laws;
--               Settings: the views of apps/accounts/views.py that write
--   Subscriptions   Limits: apps/subscriptions/limits.py; Gateway: gateway.py and views.py;
--               Premium: who may come to the Premium plan
--   Requests    Clean: full_clean and save of apps/requests/models.py; Services: services.py;
--               Views: views.py; Publishing, Announcing, Applying, Access, Saves, Selection, Capacity,
--               Selecting, Refusals, Closing, Rounds, Expiry: the laws of a call from its publication
--               to its end;
--               Totality: when the sweep returns;
--               Pages: the pages that read; Offers: the list of calls against the view that applies
--   Market      Spec: an abstract specification of calls, interests and conversations as a step
--               relation; Laws: its invariants; Pieces, Services, Endings, Calls, Sweep, Runs: that
--               each operation of Requests implements it
--   Moderation  Cases: apps/moderation/services.py, the admin's actions and the views; Life: laws;
--               Appeals: what a case comes to for its user; Verifications: identity
--               verification; Backup: backup.py
--   Reviews     Services: apps/reviews/services.py and views.py; Sweep, Laws;
--               Page: the page of a confirmation and its laws
--   Chat        Services: apps/chat/services.py, views.py and consumers.py; Laws,
--               Delivery: what the socket sends; Blocking: what a block means for what follows;
--               History: the page of a conversation
--   RateLimit   Backend: apps/accounts/ratelimit.py and config/middleware.py; Window: how many
--               attempts pass; Posts: the limited views behind it
--   Clients     Views: apps/clients/views.py and the views of a profile; Laws; Pages: favourites and
--               the dashboard; Profiles: requests that make or edit profiles
--   Professionals   Rows: the checked saves of apps/professionals/models.py; Search: the search of
--               views.py; Ranking, Soundness: their laws; Seeds: the seed migration, Categories: its
--               law; Desk: availabilities and portfolio, Ownership, Dashboard: who changes them
--   Routes      config/urls.py and the urls.py of the apps: Numbers, Patterns: what an address
--               matches; Urls: the table, matching and reversal; Laws: that they agree
--   Site        Traffic: a call of the whole site, to any app, from the admin or from a periodic
--               task, and any sequence of them; Rows, Parts, History: what a call may do to the
--               tables; Rules, Additions, Writes, Mails: proofs of that by the structure of an
--               operation; Reviewing, Casework, Profiles, Accounts, Saves, Calls, Runs: the proof for
--               each operation;
--               Marketplace, Consistency, Evolution: the specification, one invariant and the life
--               of rows under all of them together
--   Tests       a small database, and each theorem at it
--
-- Instants are seconds. An operation that reads the clock several times within one call reads one
-- instant here, but for the two reads of the boost. No definition needs fuel: every loop of the
-- program goes over rows that a query has returned, and is a recursion on that list.
--
-- Parameters: Mercado Pago's answers, the providers of mail, Web Push and Twilio, the cache (an
-- interface with its documented laws), the distance that PostGIS computes, `str.lower`, `slugify`,
-- what pg_dump comes to, the glob and the formatted time of the backup, whether a file is an image,
-- and the user that a session stands for.
--
-- Not modelled: locations and prices, the columns of a professional's profile but for the category,
-- the contents of uploads, the columns of a browser's keys, the text and the 255 characters of an
-- audit row's object, the edit of a category that is stored, the admin site but for its actions on
-- cases and verifications, schema migrations, settings, the templates, and the rewrite in Go under
-- cmd/ and internal/. Requests run one after the other: the database's own constraints against
-- concurrent writers are not modelled.
pub mod Prelude
pub mod Models
pub mod Db
pub mod Http
pub mod Audit
pub mod Notifications
pub mod Subscriptions
pub mod Requests
pub mod Moderation
pub mod Reviews
pub mod Chat
pub mod RateLimit
pub mod Clients
pub mod Professionals
pub mod Tests
pub mod Market
pub mod Routes
pub mod Site
