-- ===== src/Lib.antt =====
-- A model of the backend of Open Profile: accounts, sessions and their administration, and the
-- profiles that accounts publish.
--
-- The parts and how they interact. A request passes the JWT guard, which checks its access token,
-- asks the account check whether the account is active, and may rotate its refresh token. The
-- account check reads states through a cache in Redis, which a change of state by an
-- administrator drops. AuthService registers accounts, logs them in, recovers their passwords and
-- ends their sessions, over UsersService, TokenService, the rate limiter, the job queue and the
-- invites. ProfileService keeps the profile of an account: the rows behind its page, the draft of its
-- content and its look, and the public page, which is cached in Redis and dropped at every change.
-- EventsService records views and clicks once for each key, counts the views of a profile, and
-- checks a link against a cached set; NotificationService stores and pushes what an account is told,
-- and announcements are queued in batches of accounts.
--
-- What the program calls and does not implement is an argument of every definition, the record
-- Services of Services.antt: Redis, one repository for each table, cryptography, and the
-- settings, each with the documented behaviour that the program relies on. Samples.antt has a
-- concrete instance of it all, over which the definitions run.
--
-- What a request can see and change is the record World of World.antt: the clock, the random
-- values drawn so far, Redis, the tables, the queued jobs, the mails, the emitted events and the
-- cookies of the response. An operation is a step from a world to a result and a world, with
-- exceptions as results (Exec.antt); what was written before a throw stays written.
--
-- Files and code, by paths from the repository's root:
--   Entities            src/modules/users/entities, auth/entities, invites/entities,
--                       admin/entities/user-status-history.entity.ts
--   Redis               src/common/redis/redis.service.ts
--   RateLimiter         src/modules/rate-limiter/rate-limiter.service.ts
--   Accounts, Users     src/modules/users/users.service.ts over its actions
--   Queue               src/modules/queue/queue.service.ts
--   Invites             src/modules/invites/invites.service.ts
--   Auth/UserStatusCache src/modules/auth/services/user-status.service.ts
--   Auth/RedisLock      src/modules/auth/services/redis-lock.service.ts
--   Auth/Tokens         src/modules/auth/services/token.service.ts, auth/utils/auth-cookie-policy.ts
--   Auth/Guard          src/modules/auth/guards/jwt-auth.guard.ts
--   Auth/Codes, Login, Verification, Recovery, Sessions, OauthStates
--                       src/modules/auth/auth.service.ts
--   Admin               src/modules/admin/constants/status-transitions.ts and
--                       src/modules/admin/services/account-status.service.ts
--   Entities/Pages, Content, PublicProfiles
--                       src/modules/profile/entities, dto/profile-content.dto.ts,
--                       dto/appearance-settings.dto.ts and dto/profile-response.dto.ts
--   Usernames           src/modules/usernames/usernames.service.ts
--   Profiles            src/modules/profile/profile.service.ts
--     Sections, Reorder   the operations on a list, which the source repeats for each list
--     Skills, EducationEntries, WorkExperienceEntries, Awards, Components
--                         those operations on each list, with its columns and checks
--     Creation, Visibility  createProfile; updateVisibility, updateProfile, getDashboardProfile
--     Documents, Pages    serialize; Pages/Cache is getPublicProfile
--     Links               validateLinkItems and validateCtaContent
--     Drafts, Publishing, Contents, Appearance (Precedence has what their theorems say of fields)
--                         upsertDraft and getDraftState; publishProfile; getProfileContent;
--                         updateAppearance and getAppearance
--   Entities/Tracking, Notifications
--                       src/modules/events/entities and notifications/entities
--   Events/Retry        src/modules/events/utils/event-retry.util.ts and is-retryable-error.util.ts
--   Notifications       src/modules/notifications/notifications.service.ts; its child
--                       Announcements is announcements.service.ts
--   Users/StaleAccounts src/modules/users/stale-users-cleanup.service.ts
--   Events/Recording, Events/Links
--                       src/modules/events/events.service.ts: recordEvent and the handlers of
--                       events; validateProfileLink with utils/normalize-url.util.ts
-- A method is a definition of the same name in snake_case (canActivate is can_activate); a long
-- method is split at its branches into definitions that it calls. The methods block, suspend and
-- so on are block_user and so on, since the actions have those names.
--
-- Bounds. Times are natural numbers of milliseconds, and no operation takes time but the poll for
-- another request's rotation, whose loop is on the source's fixed number of attempts, the sleeps of
-- the event retries, and the polls of the check of a link. The retry loop is on fuel, one more than
-- the retries of its configuration, which is enough: it never runs out. The loop of a broadcast is
-- on fuel, one more than the number of accounts: each round but the last queues one at least.
--
-- Failures. Redis, the queue and the mail server may fail. Of the database, the read of the account
-- check may fail, since the guard treats that failure unlike others, and so may the write of an
-- event, which is retried; the other reads and writes are taken to succeed or to break a unique
-- index.
--
-- Rows. A row that was read is saved over the row with its id. The columns of a list's rows that no
-- operation reads are left out. The UPDATE of a reorder joins a row with any one of the values for
-- its id, as PostgreSQL does, so an id that is submitted twice has either place.
--
-- Concurrency. The wait of a contended rotation lets other requests change the world in any way
-- between two polls (Others). The page of a profile is written to the cache by a step of its own,
-- write_back, so that other changes may come before it. Elsewhere the operations run one after the
-- other, and a transaction that throws leaves the world as it was.
--
-- Not modelled: the table of old reset tokens, the wording of mails and messages past an error's
-- code, logging, validateLink and the link utilities of profiles, and the
-- components of portfolios, analytics, metrics and search. The exception of a
-- reorder does not carry its lists of ids. A response is the data that it
-- carries; the greeting of a mail is left out of its job. The request's DTOs are validated before
-- the operations: texts arrive as the DTO's transforms leave them.
pub mod Prelude
pub mod Entities
pub mod Services
pub mod Exec
pub mod World
pub mod Redis
pub mod RateLimiter
pub mod Accounts
pub mod Users
pub mod Queue
pub mod Invites
pub mod Auth
pub mod Admin
pub mod Events
pub mod Notifications
pub mod Usernames
pub mod Profiles
pub mod Samples
pub mod Tests
